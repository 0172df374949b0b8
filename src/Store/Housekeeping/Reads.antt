-- ===== src/Store/Housekeeping/Reads.antt =====
-- `housekeeping_expire` of app/db/forecast_repo.py beside the reads of the forecasts.
use map_service_hub.Base.{
  ℕ, ◌+◌, ◌-◌, ◌*◌, ◌≡◌, ◌≤◌, Bool, true, false, List, [], ◌∷◌, String, arith, refl, ap, ltb,
  filter_by, length, map,
}
use map_service_hub.Base.Order.{order_by}
use map_service_hub.Weather.Rows.{rank, day_us}
use map_service_hub.Weather.Item.{later, choose_of}
use map_service_hub.Store.{ShortStored, LandStored, TempStored, NowcastStored, AirStored, Tables}
use map_service_hub.Store.Short.{is_selected, short_row_of, fetch_short_term_range}
use map_service_hub.Store.Mid.{am_pm_rank}
use map_service_hub.Store.Mid.Fetch.{
  is_valid_land, is_valid_temp, ranked, land_row_of, land_day, temp_day, distinct_on_day,
  temp_row_of, fetch_mid_land_range, fetch_mid_temp_range,
}
use map_service_hub.Store.Housekeeping.{kept, deleted, housekeeping_expire}

module _ {A : Type 0} (p q : A → Bool) (apart : (a : A) → p a ≡ true → q a ≡ false) where
  -- a filter does not see the removal of rows that it drops
  filter_by-kept : (rows : List A) → filter_by p (kept q rows) ≡ filter_by p rows
  filter_by-kept [] = refl
  filter_by-kept (r ∷ rows) = ground (arith, apart r, filter_by-kept rows)

length-kept :
    {A : Type 0} (q : A → Bool) (rows : List A)
    → length (kept q rows) + deleted q rows ≡ length rows
length-kept q [] = refl
length-kept q (r ∷ rows) = ground (arith, length-kept q rows)

-- how many rows the five tables have
abbrev pub rows_in : Tables → ℕ
rows_in t =
    length t.short_term + length t.mid_land + length t.mid_temp + length t.nowcast + length t.air

-- Cleaning at some moment changes the result of no read of a forecast at that moment or later, and the
-- number that it returns is the number of rows that are gone.
pub housekeeping_expire-reads :
    (t : Tables) (now today clock retention later_now : ℕ)
    → now ≤ later_now
    → let cleaned = housekeeping_expire t now today clock retention in
      ((nx ny date_start date_end : ℕ)
        → fetch_short_term_range cleaned.0 later_now nx ny date_start date_end
          ≡ fetch_short_term_range t later_now nx ny date_start date_end)
      × ((reg_id : String) (lo hi : ℕ)
          → fetch_mid_land_range cleaned.0 later_now reg_id lo hi
            ≡ fetch_mid_land_range t later_now reg_id lo hi)
      × ((reg_id : String) (lo hi : ℕ)
          → fetch_mid_temp_range cleaned.0 later_now reg_id lo hi
            ≡ fetch_mid_temp_range t later_now reg_id lo hi)
      × (rows_in cleaned.0 + cleaned.1 ≡ rows_in t)
unfolding housekeeping_expire fetch_short_term_range fetch_mid_land_range fetch_mid_temp_range
housekeeping_expire-reads t now today clock retention later_now h =
    let old_short = λ (r : ShortStored). ltb r.expires_at now in
    let old_land = λ (r : LandStored). ltb r.expires_at now in
    let old_temp = λ (r : TempStored). ltb r.expires_at now in
    let old_nowcast = λ (r : NowcastStored). ltb r.date_kst (today - retention) in
    let old_air = λ (r : AirStored). ltb r.data_time (clock - retention * day_us) in
    (
      λ nx ny a b.
          ap
            (λ (kept_rows : List ShortStored).
              let rows =
                order_by (λ (r : ShortStored). r.fcst_at) (λ (r : ShortStored). rank r.category)
                  kept_rows in
              (map short_row_of rows, choose_of later (map (λ (r : ShortStored). r.base_at) rows)))
            (filter_by-kept (is_selected later_now nx ny a b) old_short (λ r e. ground arith)
              t.short_term),
      λ reg_id lo hi.
          ap
            (λ (valid : List LandStored).
              let rows =
                order_by land_day (λ (r : LandStored). am_pm_rank r.am_pm) (ranked valid) in
              (map land_row_of rows, choose_of later (map (λ (r : LandStored). r.tm_fc) rows)))
            (filter_by-kept (is_valid_land later_now reg_id lo hi) old_land (λ r e. ground arith)
              t.mid_land),
      λ reg_id lo hi.
          ap
            (λ (valid : List TempStored).
              let rows =
                distinct_on_day
                  (order_by temp_day (λ (r : TempStored). later_now - r.tm_fc) valid) in
              (map temp_row_of rows, choose_of later (map (λ (r : TempStored). r.tm_fc) rows)))
            (filter_by-kept (is_valid_temp later_now reg_id lo hi) old_temp (λ r e. ground arith)
              t.mid_temp),
      omega (
        arith,
        length-kept old_short t.short_term,
        length-kept old_land t.mid_land,
        length-kept old_temp t.mid_temp,
        length-kept old_nowcast t.nowcast,
        length-kept old_air t.air,
      ),
    )
