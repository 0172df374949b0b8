-- ===== src/Weather/Endpoint.antt =====
-- `get_weather` and `_tm_fc_kst_date` of app/routers/hub_routers.py. What the endpoint reads from
-- app/db/forecast_repo.py is the record `Repo`; the two readings of the clock are arguments.
pub mod Outcome
pub mod Coverage
pub mod Limits
use map_service_hub.Base.{
  ℕ, ◌+◌, ◌-◌, ◌/◌, Bool, true, false, not, ◌&&◌, ◌||◌, Option, none, some, List, [], ◌∷◌, ◌++◌,
  map, String, str_eq, ◌==◌, ltb, leb, if◌then◌else◌, is_empty, is_some, is_none, any_by, sort_by,
}
use map_service_hub.Base.Int.{ℤ, sub_ℕ}
use map_service_hub.Base.Json.{Floats}
use map_service_hub.Weather.Rows.{ShortRow, LandRow, TempRow, DailyItem, RegionLookup, day_us}
use map_service_hub.Weather.Horizon.{Split, split_dates_by_horizon}
use map_service_hub.Weather.Short.{aggregate_short_term}
use map_service_hub.Weather.Mid.{aggregate_mid, shown}

pub record Repo : Type 0 where
  pub lookup_region_by_name : String → String → Option RegionLookup
  pub fetch_short_term_range : ℕ → ℕ → ℕ → ℕ → List ShortRow × Option ℕ
  pub fetch_mid_land_range : String → ℕ → ℕ → List LandRow × Option ℕ
  pub fetch_mid_temp_range : String → ℕ → ℕ → List TempRow × Option ℕ

-- the `HTTPException`s: the first three have status 400, the last 404
pub data WeatherError : Type 0 where
  start_after_end range_too_long entirely_past region_not_found : WeatherError

pub data Reply {ℓ} (A : Type ℓ) : Type ℓ where
  ok : A → Reply A
  err : WeatherError → Reply A

pub data Reason : Type 0 where
  out_of_range_reason unavailable_or_stale : Reason

pub record WeatherResponse : Type 0 where
  pub province : String
  pub city : String
  pub region_fallback : Bool
  pub generated_at : ℕ
  pub missing_reasons : List (ℕ × Reason)
  pub short_term_base_at : Option ℕ
  pub mid_land_tm_fc : Option ℕ
  pub mid_temp_tm_fc : Option ℕ
  pub daily : List DailyItem
  pub missing_dates : List ℕ

abbrev pub max_range_days : ℕ
max_range_days = 14

abbrev pub mid_stored_min_offset : ℕ
mid_stored_min_offset = 4

abbrev pub mid_stored_max_offset : ℕ
mid_stored_max_offset = 10

-- `_tm_fc_kst_date`
abbrev pub tm_fc_kst_date : Option ℕ → Option ℕ
tm_fc_kst_date none = none
tm_fc_kst_date (some t) = some (t / day_us)

-- `(day - base).days if base else None`
abbrev pub offset_from : ℕ → Option ℕ → Option ℤ
offset_from day none = none
offset_from day (some base) = some (sub_ℕ day base)

abbrev pub or_else {ℓ} : {A : Type ℓ} → Option A → Option A → Option A
or_else none b = b
or_else (some a) b = some a

abbrev pub last_from : ℕ → List ℕ → ℕ
last_from d [] = d
last_from d (x ∷ xs) = last_from x xs

-- `days[0], days[-1]` of a list with an element
abbrev pub fetch_days : (ℕ → ℕ → List ShortRow × Option ℕ) → List ℕ → List ShortRow × Option ℕ
fetch_days fetch [] = ([], none)
fetch_days fetch (d ∷ days) = fetch d (last_from d days)

-- The read of a mid-term table, where there is a day to fill and a region code.
abbrev pub fetch_mid :
    {R : Type 0} → (String → ℕ → ℕ → List R × Option ℕ) → List ℕ → Option String → List R × Option ℕ
fetch_mid fetch [] reg = ([], none)
fetch_mid fetch (d ∷ days) none = ([], none)
fetch_mid fetch (d ∷ days) (some reg) = fetch reg mid_stored_min_offset mid_stored_max_offset

pub record Served : Type 0 where
  pub daily : List DailyItem
  pub missing : List ℕ

abbrev pub add_item : ℕ → Option DailyItem → Served → Served
add_item day none s = record s { missing = s.missing ++ day ∷ [] }
add_item day (some item) s = record s { daily = s.daily ++ item ∷ [] }

-- `for day in days:` with the item of the day appended to one of the two lists
unfoldable pub serve_days : (ℕ → Option DailyItem) → List ℕ → Served → Served
serve_days item [] s = s
serve_days item (day ∷ days) s = serve_days item days (add_item day (item day) s)

abbrev pub name_if : Bool → String → List String
name_if true name = name ∷ []
name_if false name = []

abbrev pub set_missing_fields : DailyItem → DailyItem
set_missing_fields i = record i {
  missing_fields =
      name_if (is_none i.temp_min) "temp_min"
      ++ (name_if (is_none i.temp_max) "temp_max"
          ++ (name_if (is_none i.precipitation_prob) "precipitation_prob"
              ++ name_if (is_none i.sky_condition) "sky_condition"));
}

-- What the loops read: the rows of the three tables and the publication times.
pub record Fetched : Type 0 where
  pub short_rows : List ShortRow
  pub short_base_at : Option ℕ
  pub land_rows : List LandRow
  pub land_tm_fc : Option ℕ
  pub temp_rows : List TempRow
  pub temp_tm_fc : Option ℕ
  pub have_mid_codes : Bool

unfoldable pub fetch_all : Repo → RegionLookup → Split → Fetched
fetch_all repo region split =
    let (short_rows, short_base_at) =
      fetch_days (repo.fetch_short_term_range region.nx region.ny)
        (split.short_days ++ split.overlap_days) in
    let mid_lookup_days = split.overlap_days ++ split.mid_days in
    let (land_rows, land_tm_fc) =
      fetch_mid repo.fetch_mid_land_range mid_lookup_days (shown region.mid_land_reg_id) in
    let (temp_rows, temp_tm_fc) =
      fetch_mid repo.fetch_mid_temp_range mid_lookup_days (shown region.mid_temp_reg_id) in
    record {
      short_rows = short_rows;
      short_base_at = short_base_at;
      land_rows = land_rows;
      land_tm_fc = land_tm_fc;
      temp_rows = temp_rows;
      temp_tm_fc = temp_tm_fc;
      have_mid_codes =
          is_some (shown region.mid_land_reg_id) || is_some (shown region.mid_temp_reg_id);
    }

module _ {F : Type 0} (fl : Floats F) where
  -- `_mid_item`
  unfoldable pub mid_item_of : Fetched → ℕ → Option DailyItem
  mid_item_of got day =
      if not got.have_mid_codes
      then none
      else aggregate_mid fl got.land_rows got.temp_rows
          (offset_from day (tm_fc_kst_date got.land_tm_fc))
          (offset_from day (tm_fc_kst_date got.temp_tm_fc)) day

  unfoldable pub short_item_of : Fetched → ℕ → Option DailyItem
  short_item_of got day = aggregate_short_term fl got.short_rows day false

  unfoldable pub overlap_item_of : Fetched → ℕ → Option DailyItem
  overlap_item_of got day =
      or_else (aggregate_short_term fl got.short_rows day true)
        (or_else (mid_item_of got day) (aggregate_short_term fl got.short_rows day false))

  -- the three loops
  unfoldable pub serve : Fetched → Split → Served
  serve got split = serve_days (mid_item_of got) split.mid_days (
      serve_days (overlap_item_of got) split.overlap_days (
        serve_days (short_item_of got) split.short_days
          (record { daily = []; missing = split.out_of_range_days })))

  unfoldable pub respond : Repo → RegionLookup → String → ℕ → ℕ → ℕ → ℕ → WeatherResponse
  respond repo region city date_start date_end today now =
      let split = split_dates_by_horizon date_start date_end today in
      let got = fetch_all repo region split in
      let served = serve got split in
      let missing = sort_by (λ d. d) served.missing in
      record {
        province = region.lv1;
        city = if str_eq region.lv2 "" then city else region.lv2;
        region_fallback = str_eq region.lv2 "";
        generated_at = now;
        missing_reasons =
            map
              (λ d. (
                d,
                if any_by (λ o. o == d) split.out_of_range_days
                    then out_of_range_reason
                    else unavailable_or_stale,
              ))
              missing;
        short_term_base_at = got.short_base_at;
        mid_land_tm_fc = got.land_tm_fc;
        mid_temp_tm_fc = got.temp_tm_fc;
        daily = sort_by (λ (i : DailyItem). i.date) (map set_missing_fields served.daily);
        missing_dates = missing;
      }

  -- `today` is `_today_kst()`, and `now` the second reading of the clock.
  unfoldable pub get_weather : Repo → ℕ → ℕ → String → String → ℕ → ℕ → Reply WeatherResponse
  get_weather repo today now province city date_start date_end =
      if ltb date_end date_start
      then err start_after_end
      else if leb max_range_days (date_end - date_start)
      then err range_too_long
      else if ltb date_end today
      then err entirely_past
      else elim (repo.lookup_region_by_name province city) [
        | none ↦ err region_not_found
        | some region ↦ ok (respond repo region city date_start date_end today now)
      ]
