-- ===== src/Store/Mid/Fetch.antt =====
-- `fetch_mid_land_range` and `fetch_mid_temp_range` of app/db/forecast_repo.py.
pub mod Latest
pub mod Distinct
use map_service_hub.Base.{
  ℕ, ◌+◌, ◌-◌, Bool, false, not, ◌&&◌, Option, none, some, List, [], ◌∷◌, map, String, str_eq, ◌==◌,
  leb, ltb, if◌then◌else◌, filter_by,
}
use map_service_hub.Base.Order.{order_by}
use map_service_hub.Kma.{day_of}
use map_service_hub.Weather.Rows.{LandRow, TempRow}
use map_service_hub.Weather.Item.{later, choose_of}
use map_service_hub.Store.{AmPm, am, na, pm, LandStored, TempStored, Tables}
use map_service_hub.Store.Mid.{am_pm_rank}

-- The day that a row of a publication is about.
abbrev pub land_day : LandStored → ℕ
land_day r = day_of r.tm_fc + r.fcst_day_offset

abbrev pub temp_day : TempStored → ℕ
temp_day r = day_of r.tm_fc + r.fcst_day_offset

abbrev pub am_pm_name : AmPm → String
am_pm_name am = "AM"
am_pm_name na = "NA"
am_pm_name pm = "PM"

-- the WHERE of both statements
abbrev pub is_valid_at : ℕ → String → ℕ → ℕ → String → ℕ → ℕ → ℕ → Bool
is_valid_at now reg_id lo hi row_reg offset tm_fc expires_at =
    str_eq row_reg reg_id
    && (leb lo offset && (leb offset hi && (ltb now expires_at && leb tm_fc now)))

abbrev pub is_valid_land : ℕ → String → ℕ → ℕ → LandStored → Bool
is_valid_land now reg_id lo hi r =
    is_valid_at now reg_id lo hi r.reg_id r.fcst_day_offset r.tm_fc r.expires_at

abbrev pub is_valid_temp : ℕ → String → ℕ → ℕ → TempStored → Bool
is_valid_temp now reg_id lo hi r =
    is_valid_at now reg_id lo hi r.reg_id r.fcst_day_offset r.tm_fc r.expires_at

abbrev pub is_opt : Option ℕ → ℕ → Bool
is_opt none n = false
is_opt (some m) n = m == n

-- `max(tm_fc) OVER (PARTITION BY d)`
abbrev pub latest_tm_fc : List LandStored → ℕ → Option ℕ
latest_tm_fc valid d =
    choose_of later (map (λ (r : LandStored). r.tm_fc) (filter_by (λ r. land_day r == d) valid))

abbrev pub ranked : List LandStored → List LandStored
ranked valid = filter_by (λ r. is_opt (latest_tm_fc valid (land_day r)) r.tm_fc) valid

abbrev pub land_row_of : LandStored → LandRow
land_row_of r = record {
  date = some (land_day r);
  offset = r.fcst_day_offset;
  am_pm = am_pm_name r.am_pm;
  weather = r.weather;
  rain_prob_pct = r.rain_prob_pct;
  tm_fc = r.tm_fc;
  updated_at = r.updated_at;
  expires_at = r.expires_at;
}

abbrev pub read_land : Tables → ℕ → String → ℕ → ℕ → List LandStored
read_land t now reg_id lo hi =
    order_by land_day (λ (r : LandStored). am_pm_rank r.am_pm)
      (ranked (filter_by (is_valid_land now reg_id lo hi) t.mid_land))

unfoldable pub fetch_mid_land_range : Tables → ℕ → String → ℕ → ℕ → List LandRow × Option ℕ
fetch_mid_land_range t now reg_id lo hi =
    let rows = read_land t now reg_id lo hi in
    (map land_row_of rows, choose_of later (map (λ (r : LandStored). r.tm_fc) rows))

-- `SELECT DISTINCT ON (d)`: the first row of each day
abbrev pub distinct_on_day : List TempStored → List TempStored
distinct_on_day [] = []
distinct_on_day (r ∷ rs) = r ∷ filter_by (λ s. not (temp_day s == temp_day r)) (distinct_on_day rs)

abbrev pub temp_row_of : TempStored → TempRow
temp_row_of r = record {
  date = some (temp_day r);
  offset = r.fcst_day_offset;
  ta_min = r.ta_min;
  ta_max = r.ta_max;
  tm_fc = r.tm_fc;
  updated_at = r.updated_at;
  expires_at = r.expires_at;
}

-- `ORDER BY d, tm_fc DESC`: no valid row has a tm_fc after `now`
abbrev pub read_temp : Tables → ℕ → String → ℕ → ℕ → List TempStored
read_temp t now reg_id lo hi = distinct_on_day (
    order_by temp_day (λ (r : TempStored). now - r.tm_fc)
      (filter_by (is_valid_temp now reg_id lo hi) t.mid_temp))

unfoldable pub fetch_mid_temp_range : Tables → ℕ → String → ℕ → ℕ → List TempRow × Option ℕ
fetch_mid_temp_range t now reg_id lo hi =
    let rows = read_temp t now reg_id lo hi in
    (map temp_row_of rows, choose_of later (map (λ (r : TempStored). r.tm_fc) rows))
