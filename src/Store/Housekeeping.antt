-- ===== src/Store/Housekeeping.antt =====
-- `housekeeping_expire` of app/db/forecast_repo.py: the five DELETEs of one transaction. `now` is the
-- database's time, `today` and `clock` are the process's; `retention` is
-- WEATHER_SNAPSHOT_RETENTION_DAYS.
pub mod Reads
use map_service_hub.Base.{ℕ, ◌+◌, ◌-◌, ◌*◌, Bool, not, List, ltb, filter_by, length}
use map_service_hub.Weather.Rows.{day_us}
use map_service_hub.Store.{ShortStored, LandStored, TempStored, NowcastStored, AirStored, Tables}

-- `DELETE … WHERE p`: the rows that stay, and how many went
abbrev pub kept : {A : Type 0} → (A → Bool) → List A → List A
kept p rows = filter_by (λ r. not (p r)) rows

abbrev pub deleted : {A : Type 0} → (A → Bool) → List A → ℕ
deleted p rows = length (filter_by p rows)

unfoldable pub housekeeping_expire : Tables → ℕ → ℕ → ℕ → ℕ → Tables × ℕ
housekeeping_expire t now today clock retention =
    let old_short = λ (r : ShortStored). ltb r.expires_at now in
    let old_land = λ (r : LandStored). ltb r.expires_at now in
    let old_temp = λ (r : TempStored). ltb r.expires_at now in
    let old_nowcast = λ (r : NowcastStored). ltb r.date_kst (today - retention) in
    let old_air = λ (r : AirStored). ltb r.data_time (clock - retention * day_us) in
    (
      record {
        region_grid = t.region_grid;
        subscribed_grids = t.subscribed_grids;
        short_term = kept old_short t.short_term;
        mid_land = kept old_land t.mid_land;
        mid_temp = kept old_temp t.mid_temp;
        nowcast = kept old_nowcast t.nowcast;
        air = kept old_air t.air;
      },
      deleted old_short t.short_term
          + deleted old_land t.mid_land
          + deleted old_temp t.mid_temp
          + deleted old_nowcast t.nowcast
          + deleted old_air t.air,
    )
