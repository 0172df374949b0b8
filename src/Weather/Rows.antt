-- ===== src/Weather/Rows.antt =====
-- The rows that the repository hands to the router (app/db/forecast_repo.py), and the item of the
-- response (app/schemas/hub_schemas.py). A date is its ordinal; a time is a number of microseconds
-- of the clock in Seoul, counted from the start of day 0.
use map_service_hub.Base.{ℕ, ◌*◌, Bool, Option, List, String, ◌==◌}
use map_service_hub.Base.Int.{ℤ}

-- the names of `_SHORT_TERM_CATEGORIES`
pub data Category : Type 0 where
  pcp pop pty reh sky sno tmn tmp tmx uuu vec vvv wav wsd : Category

-- the place of a name in the order of texts
abbrev pub rank : Category → ℕ
rank pcp = 0
rank pop = 1
rank pty = 2
rank reh = 3
rank sky = 4
rank sno = 5
rank tmn = 6
rank tmp = 7
rank tmx = 8
rank uuu = 9
rank vec = 10
rank vvv = 11
rank wav = 12
rank wsd = 13

abbrev pub same_category : Category → Category → Bool
same_category a b = rank a == rank b

pub record ShortRow : Type 0 where
  pub date : ℕ
  pub category : Category
  pub fcst_value : String
  pub fcst_at : ℕ
  pub base_at : ℕ
  pub updated_at : ℕ
  pub expires_at : ℕ

-- `date` is none for a row with no such key
pub record LandRow : Type 0 where
  pub date : Option ℕ
  pub offset : ℕ
  pub am_pm : String
  pub weather : Option String
  pub rain_prob_pct : Option ℤ
  pub tm_fc : ℕ
  pub updated_at : ℕ
  pub expires_at : ℕ

pub record TempRow : Type 0 where
  pub date : Option ℕ
  pub offset : ℕ
  pub ta_min : Option ℤ
  pub ta_max : Option ℤ
  pub tm_fc : ℕ
  pub updated_at : ℕ
  pub expires_at : ℕ

pub data Source : Type 0 where
  short_term mid_land mid_temp mid_land_mid_temp : Source

pub record DailyItem : Type 0 where
  pub date : ℕ
  pub temp_min : Option ℤ
  pub temp_max : Option ℤ
  pub precipitation_prob : Option ℤ
  pub sky_condition : Option String
  pub source_at : Option ℕ
  pub captured_at : Option ℕ
  pub expires_at : Option ℕ
  pub missing_fields : List String
  pub source : Source

pub record RegionLookup : Type 0 where
  pub admin_code : ℕ
  pub lv1 : String
  pub lv2 : String
  pub nx : ℕ
  pub ny : ℕ
  pub mid_land_reg_id : Option String
  pub mid_temp_reg_id : Option String

abbrev pub day_us : ℕ
day_us = 86_400_000_000

abbrev pub hour_us : ℕ
hour_us = 3_600_000_000

-- `datetime.combine(day, datetime.min.time(), tzinfo=KST)`
abbrev pub midnight : ℕ → ℕ
midnight day = day * day_us
