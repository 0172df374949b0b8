-- ===== src/Store/Mid.antt =====
-- The mid-term forecasts of app/db/forecast_repo.py: `_safe_int`, `_safe_pop`, `upsert_mid_land`,
-- `upsert_mid_temp`, `latest_mid_tm_fc`. The readings of Python's `int` are the record `Ints`, and what
-- the database driver binds to a text column is the parameter `bind_text`, none where it raises.
pub mod Fetch
pub mod Upsert
use map_service_hub.Base.{
  ℕ, ◌+◌, ◌*◌, Bool, true, false, not, ◌&&◌, ◌||◌, Option, none, some, List, [], ◌∷◌, map, String,
  str_eq, ◌==◌, leb, if◌then◌else◌, length, is_none,
}
use map_service_hub.Base.Int.{ℤ, pos, negsuc, ltb_ℤ, leb_ℤ}
use map_service_hub.Base.Json.{Json, null, bool, int, float, str, list, dict, Fields, get}
use map_service_hub.Weather.Rows.{hour_us}
use map_service_hub.Weather.Item.{later, choose_of, earlier}
use map_service_hub.Store.{AmPm, am, na, pm, LandStored, TempStored, Tables}

-- `int(text)` and `int(float)`; none is the exception
pub record Ints (F : Type 0) : Type 0 where
  pub of_text : String → Option ℤ
  pub trunc : F → Option ℤ

-- `_MID_TTL`
abbrev pub mid_ttl : ℕ
mid_ttl = 24 * hour_us

abbrev pub is_null : {F : Type 0} → Json F → Bool
is_null null = true
is_null _ = false

abbrev pub within_900 : Option ℤ → Option ℤ
within_900 none = none
within_900 (some value) =
    if ltb_ℤ (negsuc 899) value && ltb_ℤ value (pos 900) then some value else none

abbrev pub within_100 : Option ℤ → Option ℤ
within_100 none = none
within_100 (some parsed) =
    if leb_ℤ (pos 0) parsed && leb_ℤ parsed (pos 100) then some parsed else none

-- the keys of one row of a land payload
pub record LandKeys : Type 0 where
  pub day : ℕ
  pub am_pm : AmPm
  pub wf : String
  pub rn_st : String

abbrev pub land_keys : List LandKeys
land_keys =
    record { day = 4; am_pm = am; wf = "wf4Am"; rn_st = "rnSt4Am" }
    ∷ record { day = 4; am_pm = pm; wf = "wf4Pm"; rn_st = "rnSt4Pm" }
    ∷ record { day = 5; am_pm = am; wf = "wf5Am"; rn_st = "rnSt5Am" }
    ∷ record { day = 5; am_pm = pm; wf = "wf5Pm"; rn_st = "rnSt5Pm" }
    ∷ record { day = 6; am_pm = am; wf = "wf6Am"; rn_st = "rnSt6Am" }
    ∷ record { day = 6; am_pm = pm; wf = "wf6Pm"; rn_st = "rnSt6Pm" }
    ∷ record { day = 7; am_pm = am; wf = "wf7Am"; rn_st = "rnSt7Am" }
    ∷ record { day = 7; am_pm = pm; wf = "wf7Pm"; rn_st = "rnSt7Pm" }
    ∷ record { day = 8; am_pm = na; wf = "wf8"; rn_st = "rnSt8" }
    ∷ record { day = 9; am_pm = na; wf = "wf9"; rn_st = "rnSt9" }
    ∷ record { day = 10; am_pm = na; wf = "wf10"; rn_st = "rnSt10" }
    ∷ []

pub record TempKeys : Type 0 where
  pub day : ℕ
  pub ta_min : String
  pub ta_min_low : String
  pub ta_min_high : String
  pub ta_max : String
  pub ta_max_low : String
  pub ta_max_high : String

abbrev pub temp_keys_of : ℕ → String → String → String → String → String → String → TempKeys
temp_keys_of d a b c x y z = record {
  day = d;
  ta_min = a;
  ta_min_low = b;
  ta_min_high = c;
  ta_max = x;
  ta_max_low = y;
  ta_max_high = z;
}

abbrev pub temp_keys : List TempKeys
temp_keys =
    temp_keys_of 4 "taMin4" "taMin4Low" "taMin4High" "taMax4" "taMax4Low" "taMax4High"
    ∷ temp_keys_of 5 "taMin5" "taMin5Low" "taMin5High" "taMax5" "taMax5Low" "taMax5High"
    ∷ temp_keys_of 6 "taMin6" "taMin6Low" "taMin6High" "taMax6" "taMax6Low" "taMax6High"
    ∷ temp_keys_of 7 "taMin7" "taMin7Low" "taMin7High" "taMax7" "taMax7Low" "taMax7High"
    ∷ temp_keys_of 8 "taMin8" "taMin8Low" "taMin8High" "taMax8" "taMax8Low" "taMax8High"
    ∷ temp_keys_of 9 "taMin9" "taMin9Low" "taMin9High" "taMax9" "taMax9Low" "taMax9High"
    ∷ temp_keys_of 10 "taMin10" "taMin10Low" "taMin10High" "taMax10" "taMax10Low" "taMax10High"
    ∷ []

abbrev pub am_pm_rank : AmPm → ℕ
am_pm_rank am = 0
am_pm_rank na = 1
am_pm_rank pm = 2

unfoldable pub same_land : LandStored → LandStored → Bool
same_land a b =
    str_eq a.reg_id b.reg_id
    && ((a.tm_fc == b.tm_fc)
        && ((a.fcst_day_offset == b.fcst_day_offset) && (am_pm_rank a.am_pm == am_pm_rank b.am_pm)))

unfoldable pub same_temp : TempStored → TempStored → Bool
same_temp a b =
    str_eq a.reg_id b.reg_id && ((a.tm_fc == b.tm_fc) && (a.fcst_day_offset == b.fcst_day_offset))

-- INSERT … ON CONFLICT DO UPDATE, for each row in turn
module _ {A : Type 0} (same : A → A → Bool) where
  abbrev pub put_row : A → List A → List A
  put_row new [] = new ∷ []
  put_row new (r ∷ rs) = if same r new then new ∷ rs else r ∷ put_row new rs

  abbrev pub put_rows : List A → List A → List A
  put_rows [] table = table
  put_rows (new ∷ news) table = put_rows news (put_row new table)

abbrev pub with_land : Tables → List LandStored → Tables
with_land t rows = record {
  region_grid = t.region_grid;
  subscribed_grids = t.subscribed_grids;
  short_term = t.short_term;
  mid_land = rows;
  mid_temp = t.mid_temp;
  nowcast = t.nowcast;
  air = t.air;
}

abbrev pub with_temp : Tables → List TempStored → Tables
with_temp t rows = record {
  region_grid = t.region_grid;
  subscribed_grids = t.subscribed_grids;
  short_term = t.short_term;
  mid_land = t.mid_land;
  mid_temp = rows;
  nowcast = t.nowcast;
  air = t.air;
}

-- the row with what the driver binds as its weather
abbrev pub put_bound :
    String
    → ℕ
    → ℕ
    → LandKeys
    → Option ℤ
    → Option (Option String)
    → Option (List LandStored)
    → Option (List LandStored)
put_bound reg_id tm_fc now k rain none rest = none
put_bound reg_id tm_fc now k rain (some weather) none = none
put_bound reg_id tm_fc now k rain (some weather) (some rows) = some (
    record {
      reg_id = reg_id;
      tm_fc = tm_fc;
      fcst_day_offset = k.day;
      am_pm = k.am_pm;
      weather = weather;
      rain_prob_pct = rain;
      expires_at = tm_fc + mid_ttl;
      updated_at = now;
    }
    ∷ rows)

module _ {F : Type 0} (ints : Ints F) (bind_text : Json F → Option (Option String)) where
  -- `int(v)`
  abbrev pub to_int : Json F → Option ℤ
  to_int (int z) = some z
  to_int (float x) = ints.trunc x
  to_int (str s) = ints.of_text s
  to_int _ = none

  unfoldable pub safe_int : Json F → Option ℤ
  safe_int null = none
  safe_int (bool b) = none
  safe_int (str s) = if str_eq s "" then none else within_900 (ints.of_text s)
  safe_int v = within_900 (to_int v)

  unfoldable pub safe_pop : Json F → Option ℤ
  safe_pop value = within_100 (safe_int value)

  -- one turn of the loops over the days: a day with neither value makes no row
  abbrev pub add_land :
      String
      → ℕ
      → ℕ
      → LandKeys
      → Json F
      → Option ℤ
      → Option (List LandStored)
      → Option (List LandStored)
  add_land reg_id tm_fc now k weather rain rest =
      if is_null weather && is_none rain
      then rest
      else put_bound reg_id tm_fc now k rain (bind_text weather) rest

  unfoldable pub land_rows : String → ℕ → ℕ → Fields F → List LandKeys → Option (List LandStored)
  land_rows reg_id tm_fc now payload [] = some []
  land_rows reg_id tm_fc now payload (k ∷ ks) =
      add_land reg_id tm_fc now k (get k.wf payload) (safe_pop (get k.rn_st payload))
        (land_rows reg_id tm_fc now payload ks)

  abbrev pub store_land : Tables → Option (List LandStored) → Option (Tables × ℕ)
  store_land t none = none
  store_land t (some rows) = some (with_land t (put_rows same_land rows t.mid_land), length rows)

  unfoldable pub upsert_mid_land : Tables → String → ℕ → ℕ → Fields F → Option (Tables × ℕ)
  upsert_mid_land t reg_id tm_fc now payload =
      store_land t (land_rows reg_id tm_fc now payload land_keys)

  abbrev pub temp_row : String → ℕ → ℕ → Fields F → TempKeys → TempStored
  temp_row reg_id tm_fc now payload k = record {
    reg_id = reg_id;
    tm_fc = tm_fc;
    fcst_day_offset = k.day;
    ta_min = safe_int (get k.ta_min payload);
    ta_min_low = safe_int (get k.ta_min_low payload);
    ta_min_high = safe_int (get k.ta_min_high payload);
    ta_max = safe_int (get k.ta_max payload);
    ta_max_low = safe_int (get k.ta_max_low payload);
    ta_max_high = safe_int (get k.ta_max_high payload);
    expires_at = tm_fc + mid_ttl;
    updated_at = now;
  }

  unfoldable pub temp_rows : String → ℕ → ℕ → Fields F → List TempKeys → List TempStored
  temp_rows reg_id tm_fc now payload [] = []
  temp_rows reg_id tm_fc now payload (k ∷ ks) =
      let rest = temp_rows reg_id tm_fc now payload ks in
      let row = temp_row reg_id tm_fc now payload k in
      if is_none row.ta_min && is_none row.ta_max then rest else row ∷ rest

  unfoldable pub upsert_mid_temp : Tables → String → ℕ → ℕ → Fields F → Tables × ℕ
  upsert_mid_temp t reg_id tm_fc now payload =
      let rows = temp_rows reg_id tm_fc now payload temp_keys in
      (with_temp t (put_rows same_temp rows t.mid_temp), length rows)

abbrev pub earlier_opt : Option ℕ → Option ℕ → Option ℕ
earlier_opt (some land) (some temp) = some (earlier land temp)
earlier_opt _ _ = none

-- `min(row.land, row.temp)` of the two MAX(tm_fc)
unfoldable pub latest_mid_tm_fc : Tables → Option ℕ
latest_mid_tm_fc t =
    earlier_opt (choose_of later (map (λ (r : LandStored). r.tm_fc) t.mid_land))
      (choose_of later (map (λ (r : TempStored). r.tm_fc) t.mid_temp))
