-- ===== src/Weather/Mid.antt =====
-- `_aggregate_mid` of app/routers/hub_routers.py: one day of the response from the rows of the
-- mid-term land and temperature forecasts.
use map_service_hub.Base.{
  ℕ, Bool, true, false, ◌||◌, Option, none, some, List, [], ◌∷◌, ◌++◌, map, String, str_eq, ◌==◌,
  if◌then◌else◌, is_some, head_opt, filter_by, find_by, somes,
}
use map_service_hub.Base.Int.{ℤ}
use map_service_hub.Base.Json.{Json, null, int, Floats}
use map_service_hub.Weather.Values.{coerce_int, valid_pop}
use map_service_hub.Weather.Rows.{
  LandRow, TempRow, Source, mid_land, mid_temp, mid_land_mid_temp, DailyItem,
}
use map_service_hub.Weather.Item.{max_of, forecast_times, land_times, temp_times, item_of}
use map_service_hub.Base.Int.{pos, negsuc}

abbrev pub same_offset : ℕ → ℤ → Bool
same_offset n (pos m) = n == m
same_offset n (negsuc m) = false

-- A row with a date is for that date; one without is for its offset.
abbrev pub is_for : Option ℕ → ℕ → ℕ → ℤ → Bool
is_for (some d) offset day wanted = d == day
is_for none offset day wanted = same_offset offset wanted

abbrev pub land_of_day : Option ℤ → ℕ → List LandRow → List LandRow
land_of_day none day rows = []
land_of_day (some wanted) day rows = filter_by (λ r. is_for r.date r.offset day wanted) rows

abbrev pub temp_of_day : Option ℤ → ℕ → List TempRow → Option TempRow
temp_of_day none day rows = none
temp_of_day (some wanted) day rows = find_by (λ r. is_for r.date r.offset day wanted) rows

abbrev pub json_int : {F : Type 0} → Option ℤ → Json F
json_int none = null
json_int (some z) = int z

-- `r["weather"]` where it is true: not None and not empty
abbrev pub shown : Option String → Option String
shown none = none
shown (some s) = if str_eq s "" then none else some s

abbrev pub source_for : Bool → Bool → Source
source_for true true = mid_land_mid_temp
source_for true false = mid_land
source_for false _ = mid_temp

abbrev pub opt_list {ℓ} : {A : Type ℓ} → Option A → List A
opt_list none = []
opt_list (some a) = a ∷ []

module _ {F : Type 0} (fl : Floats F) where
  abbrev pub land_pop : List LandRow → Option ℤ
  land_pop rows =
      max_of
        (somes (map (λ (r : LandRow). valid_pop (coerce_int fl (json_int r.rain_prob_pct))) rows))

  abbrev pub land_sky : List LandRow → Option String
  land_sky rows = head_opt (somes (map (λ (r : LandRow). shown r.weather) rows))

  abbrev pub temp_value : (TempRow → Option ℤ) → Option TempRow → Option ℤ
  temp_value field none = none
  temp_value field (some r) = coerce_int fl (json_int (field r))

  abbrev pub mid_item : ℕ → List LandRow → Option TempRow → Option DailyItem
  mid_item day day_land day_temp =
      let prob = land_pop day_land in
      let condition = land_sky day_land in
      let temp_min = temp_value (λ r. r.ta_min) day_temp in
      let temp_max = temp_value (λ r. r.ta_max) day_temp in
      let has_land = is_some prob || is_some condition in
      let has_temp = is_some temp_min || is_some temp_max in
      item_of day (source_for has_land has_temp)
        (forecast_times (map land_times day_land ++ map temp_times (opt_list day_temp))) temp_min
        temp_max prob condition

  unfoldable pub aggregate_mid :
      List LandRow → List TempRow → Option ℤ → Option ℤ → ℕ → Option DailyItem
  aggregate_mid land_rows temp_rows land_offset temp_offset day =
      mid_item day (land_of_day land_offset day land_rows) (temp_of_day temp_offset day temp_rows)
