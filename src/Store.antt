-- ===== src/Store.antt =====
-- The tables of app/db/forecast_repo.py and the functions over them. A table is the list of its rows;
-- each SQL statement is the function on rows that it denotes, `now()` is an argument. An admin code,
-- ten digits in the source, is a number.
pub mod Grids
pub mod Greatest
pub mod Short
pub mod Mid
pub mod Regions
pub mod Housekeeping
use map_service_hub.Base.{ℕ, Bool, Option, List, String}
use map_service_hub.Base.Int.{ℤ}
use map_service_hub.Weather.Rows.{Category}

-- `SubscribedGrid`
pub record SubscribedGrid : Type 0 where
  pub grid_id : ℕ
  pub label : String
  pub nx : ℕ
  pub ny : ℕ
  pub mid_land_reg_id : String
  pub mid_temp_reg_id : String
  pub lv1 : String

-- a row of hub_data.subscribed_grids
pub record GridRow : Type 0 where
  pub grid_id : ℕ
  pub label : String
  pub nx : ℕ
  pub ny : ℕ
  pub mid_land_reg_id : String
  pub mid_temp_reg_id : String
  pub admin_code : ℕ
  pub is_active : Bool

-- a row of hub_data.region_grid
pub record RegionRow : Type 0 where
  pub admin_code : ℕ
  pub lv1 : String
  pub lv2 : String
  pub lv3 : String
  pub nx : ℕ
  pub ny : ℕ

pub record ShortStored : Type 0 where
  pub nx : ℕ
  pub ny : ℕ
  pub fcst_at : ℕ
  pub category : Category
  pub base_at : ℕ
  pub fcst_value : String
  pub expires_at : ℕ
  pub updated_at : ℕ

pub data AmPm : Type 0 where
  am na pm : AmPm

pub record LandStored : Type 0 where
  pub reg_id : String
  pub tm_fc : ℕ
  pub fcst_day_offset : ℕ
  pub am_pm : AmPm
  pub weather : Option String
  pub rain_prob_pct : Option ℤ
  pub expires_at : ℕ
  pub updated_at : ℕ

pub record TempStored : Type 0 where
  pub reg_id : String
  pub tm_fc : ℕ
  pub fcst_day_offset : ℕ
  pub ta_min : Option ℤ
  pub ta_min_low : Option ℤ
  pub ta_min_high : Option ℤ
  pub ta_max : Option ℤ
  pub ta_max_low : Option ℤ
  pub ta_max_high : Option ℤ
  pub expires_at : ℕ
  pub updated_at : ℕ

-- the dates and times by which the two snapshot tables are cleared
pub record NowcastStored : Type 0 where
  pub date_kst : ℕ
  pub hour_kst : ℕ
  pub nx : ℕ
  pub ny : ℕ

pub record AirStored : Type 0 where
  pub sido : String
  pub station_name : String
  pub data_time : ℕ
  pub pm10 : Option ℤ
  pub pm25 : Option ℤ

pub record Tables : Type 0 where
  pub region_grid : List RegionRow
  pub subscribed_grids : List GridRow
  pub short_term : List ShortStored
  pub mid_land : List LandStored
  pub mid_temp : List TempStored
  pub nowcast : List NowcastStored
  pub air : List AirStored
