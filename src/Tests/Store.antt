-- ===== src/Tests/Store.antt =====
-- The tables of the forecasts with a few rows in each.
use map_service_hub.Base.{
  ℕ, ◌+◌, ◌*◌, ◌≡◌, ◌≤◌, inr, refl, true, Option, none, some, List, [], ◌∷◌, String, arith, All, In,
}
use map_service_hub.Base.Int.{ℤ, pos}
use map_service_hub.Base.Json.{Json, str, int, field, end, Fields}
use map_service_hub.Weather.Rows.{tmx, day_us, hour_us}
use map_service_hub.Tests.Kma.{even_months}
use map_service_hub.Kma.{parse_kma_base_at, parse_kma_fcst_at}
use map_service_hub.Store.{
  SubscribedGrid, RegionRow, GridRow, ShortStored, LandStored, TempStored, am, Tables,
}
use map_service_hub.Store.Grids.{pick_serving_grid}
use map_service_hub.Store.Grids.Choice.{Serves, pick_serving_grid-Serves}
use map_service_hub.Store.Regions.{lookup_region_by_name, lookup_region_by_grid}
use map_service_hub.Store.Regions.Lookup.{
  Found, Located, lookup_region_by_name-Found, lookup_region_by_grid-Located,
}
use map_service_hub.Store.Short.{
  upsert_short_term_items, with_short, upsert_row, row_of, short_row_of, fetch_short_term_range,
  rows_of_items, short_term_expires_at, short_ttl, upsert_rows,
}
use map_service_hub.Store.Short.Refinement.{NoOlder, IsKeyed, stored}
use map_service_hub.Store.Short.Upsert.{
  Stores, upsert_short_term_items-Stores, upsert_short_term_items-NoOlder,
}
use map_service_hub.Store.Short.Fetch.{Reads, fetch_short_term_range-Reads, upsert_row-read}
use map_service_hub.Store.Mid.{
  Ints, same_land, with_land, upsert_mid_land, upsert_mid_temp, land_rows, safe_int, safe_pop,
}
use map_service_hub.Store.Mid.Fetch.{fetch_mid_land_range, fetch_mid_temp_range}
use map_service_hub.Store.Mid.Fetch.Latest.{ReadsLand, fetch_mid_land_range-ReadsLand}
use map_service_hub.Store.Mid.Fetch.Distinct.{ReadsTemp, fetch_mid_temp_range-ReadsTemp}
use map_service_hub.Store.Mid.Upsert.{
  IsLandRow, IsTempRow, upsert_mid_land-IsLandRow, upsert_mid_temp-IsTempRow,
}
use map_service_hub.Store.Housekeeping.{housekeeping_expire}
use map_service_hub.Store.Housekeeping.Reads.{rows_in, housekeeping_expire-reads}

abbrev region : ℕ → String → String → String → ℕ → ℕ → RegionRow
region code lv1 lv2 lv3 nx ny = record {
  admin_code = code;
  lv1 = lv1;
  lv2 = lv2;
  lv3 = lv3;
  nx = nx;
  ny = ny;
}

abbrev grid : ℕ → ℕ → ℕ → ℕ → GridRow
grid n code nx ny = record {
  grid_id = n;
  label = "서울특별시";
  nx = nx;
  ny = ny;
  mid_land_reg_id = "11B00000";
  mid_temp_reg_id = "11B10101";
  admin_code = code;
  is_active = true;
}

abbrev served : ℕ → ℕ → ℕ → SubscribedGrid
served n nx ny = record {
  grid_id = n;
  label = "서울특별시";
  nx = nx;
  ny = ny;
  mid_land_reg_id = "11B00000";
  mid_temp_reg_id = "11B10101";
  lv1 = "서울특별시";
}

abbrev sample_land : ℕ → ℕ → LandStored
sample_land tm_fc offset = record {
  reg_id = "11B00000";
  tm_fc = tm_fc;
  fcst_day_offset = offset;
  am_pm = am;
  weather = some "맑음";
  rain_prob_pct = some (pos 20);
  expires_at = tm_fc + 24 * hour_us;
  updated_at = tm_fc;
}

abbrev sample_temp : ℕ → ℕ → TempStored
sample_temp tm_fc offset = record {
  reg_id = "11B10101";
  tm_fc = tm_fc;
  fcst_day_offset = offset;
  ta_min = some (pos 3);
  ta_min_low = none;
  ta_min_high = none;
  ta_max = some (pos 12);
  ta_max_low = none;
  ta_max_high = none;
  expires_at = tm_fc + 24 * hour_us;
  updated_at = tm_fc;
}

-- a publication at 06 hours and one at 18 hours of day 100
abbrev pub morning : ℕ
morning = 100 * day_us + 6 * hour_us

abbrev pub evening : ℕ
evening = 100 * day_us + 18 * hour_us

abbrev pub tables : Tables
tables = record {
  region_grid =
      region 1100000000 "서울특별시" "" "" 60 127 ∷ region 1168000000 "서울특별시" "강남구" "" 61 126 ∷ [];
  subscribed_grids = grid 1 1100000000 60 127 ∷ grid 2 1100000000 61 125 ∷ [];
  short_term = [];
  mid_land = sample_land morning 5 ∷ sample_land evening 5 ∷ [];
  mid_temp = sample_temp morning 5 ∷ sample_temp evening 5 ∷ [];
  nowcast = [];
  air = [];
}

pick_serving_grid-Serves_example :
    Serves
      (served 1 60 127 ∷ served 2 61 125 ∷ [])
      "서울특별시"
      61
      126
      (pick_serving_grid (served 1 60 127 ∷ served 2 61 125 ∷ []) "서울특별시" 61 126)
pick_serving_grid-Serves_example =
    pick_serving_grid-Serves (served 1 60 127 ∷ served 2 61 125 ∷ []) "서울특별시" 61 126

lookup_region_by_name-Found_example :
    Found tables "서울특별시" "강남구" (lookup_region_by_name tables "서울특별시" "강남구")
lookup_region_by_name-Found_example = lookup_region_by_name-Found tables "서울특별시" "강남구"

lookup_region_by_grid-Located_example : Located tables 61 126 (lookup_region_by_grid tables 61 126)
lookup_region_by_grid-Located_example = lookup_region_by_grid-Located tables 61 126

-- Python's `str`, on texts
abbrev pub show : Json ℤ → String
show (str s) = s
show _ = "None"

abbrev item : String → String → Fields ℤ
item category value = field "category" (str category) (
    field "fcstDate" (str "20260101")
      (field "fcstTime" (str "1500") (field "fcstValue" (str value) end)))

-- the highest temperature of a day, and an item that the program does not know
abbrev pub items : List (Fields ℤ)
items = item "TMX" "21" ∷ item "NEW" "1" ∷ []

abbrev fcst_at : ℕ
fcst_at = 753_672 * day_us + 15 * hour_us

abbrev pub base_at : ℕ
base_at = 753_672 * day_us + 2 * hour_us

abbrev highest : ShortStored
highest = row_of 61 126 base_at base_at tmx fcst_at (753_673 * day_us) "21"

upsert_short_term_items-Stores_example :
    Stores even_months show 61 126 base_at base_at tables items
      (upsert_short_term_items even_months show tables 61 126 base_at base_at items)
upsert_short_term_items-Stores_example =
    upsert_short_term_items-Stores even_months show 61 126 base_at base_at tables items

stored_items :
    upsert_short_term_items even_months show tables 61 126 base_at base_at items
    ≡ some (with_short tables (highest ∷ []), 1)
unfolding upsert_short_term_items rows_of_items upsert_rows upsert_row parse_kma_fcst_at
    parse_kma_base_at short_term_expires_at
stored_items = refl

upsert_short_term_items-NoOlder_example :
    ((k : ShortStored) → NoOlder (stored k tables.short_term) (stored k (highest ∷ [])))
    × IsKeyed (highest ∷ [])
upsert_short_term_items-NoOlder_example =
    upsert_short_term_items-NoOlder even_months show 61 126 base_at base_at tables
      (with_short tables (highest ∷ [])) 1 items (λ k. omega arith) stored_items

fetch_short_term_range-Reads_example :
    Reads
      (with_short tables (highest ∷ []))
      base_at
      61
      126
      753_672
      753_673
      (fetch_short_term_range (with_short tables (highest ∷ [])) base_at 61 126 753_672 753_673)
fetch_short_term_range-Reads_example =
    fetch_short_term_range-Reads (with_short tables (highest ∷ [])) base_at 61 126 753_672 753_673

highest_expires :
    short_term_expires_at even_months tmx fcst_at (base_at + short_ttl) ≡ some (753_673 * day_us)
unfolding short_term_expires_at
highest_expires = refl

-- the highest temperature is read ten hours after the publication expired
upsert_row-read_example :
    In
      (short_row_of highest)
      (fetch_short_term_range
        (with_short tables (upsert_row highest tables.short_term))
        (base_at + 16 * hour_us)
        61
        126
        753_672
        753_672).0
upsert_row-read_example =
    upsert_row-read even_months tables 61 126 base_at base_at fcst_at (753_673 * day_us)
      (base_at + 16 * hour_us) tmx "21" highest_expires tt (inr (refl, omega arith))

fetch_mid_land_range-ReadsLand_example :
    ReadsLand tables evening "11B00000" 4 10 (fetch_mid_land_range tables evening "11B00000" 4 10)
fetch_mid_land_range-ReadsLand_example =
    fetch_mid_land_range-ReadsLand tables evening "11B00000" 4 10

fetch_mid_temp_range-ReadsTemp_example :
    ReadsTemp tables evening "11B10101" 4 10 (fetch_mid_temp_range tables evening "11B10101" 4 10)
fetch_mid_temp_range-ReadsTemp_example =
    fetch_mid_temp_range-ReadsTemp tables evening "11B10101" 4 10

abbrev pub no_texts : Ints ℤ
no_texts = record { of_text = λ s. none; trunc = λ z. some z }

abbrev pub bind_text : Json ℤ → Option (Option String)
bind_text (str s) = some (some s)
bind_text _ = some none

abbrev pub temp_payload : Fields ℤ
temp_payload = field "taMin5" (int (pos 3)) (field "taMax5" (int (pos 12)) end)

abbrev after_temp : Tables × ℕ
after_temp = upsert_mid_temp no_texts bind_text tables "11B10101" evening evening temp_payload

sample_temp-IsTempRow : (tm_fc offset : ℕ) → IsTempRow (sample_temp tm_fc offset)
sample_temp-IsTempRow tm_fc offset =
    (refl, (omega arith, omega arith), tt, tt, (omega arith, omega arith), tt, tt)

temps-IsTempRow : All IsTempRow tables.mid_temp
temps-IsTempRow = (sample_temp-IsTempRow morning 5, (sample_temp-IsTempRow evening 5, tt))

upsert_mid_temp-IsTempRow_example : All IsTempRow after_temp.0.mid_temp × (after_temp.1 ≤ 7)
upsert_mid_temp-IsTempRow_example =
    upsert_mid_temp-IsTempRow no_texts bind_text tables "11B10101" evening evening temp_payload
      temps-IsTempRow

abbrev pub land_payload : Fields ℤ
land_payload = field "wf5Am" (str "흐림") (field "rnSt5Am" (int (pos 300)) end)

abbrev cloudy : LandStored
cloudy = record {
  reg_id = "11B00000";
  tm_fc = evening;
  fcst_day_offset = 5;
  am_pm = am;
  weather = some "흐림";
  rain_prob_pct = none;
  expires_at = evening + 24 * hour_us;
  updated_at = evening;
}

stored_land :
    upsert_mid_land no_texts bind_text tables "11B00000" evening evening land_payload
    ≡ some (with_land tables (sample_land morning 5 ∷ cloudy ∷ []), 1)
unfolding upsert_mid_land land_rows safe_pop safe_int same_land
stored_land = refl

upsert_mid_land-IsLandRow_example : All IsLandRow (sample_land morning 5 ∷ cloudy ∷ []) × (1 ≤ 11)
upsert_mid_land-IsLandRow_example =
    upsert_mid_land-IsLandRow no_texts bind_text tables
      (with_land tables (sample_land morning 5 ∷ cloudy ∷ [])) "11B00000" evening evening 1
      land_payload ((omega arith, omega arith), ((omega arith, omega arith), tt)) stored_land

housekeeping_expire-reads_example :
    let cleaned =
      housekeeping_expire tables (morning + 25 * hour_us) 101 (morning + 25 * hour_us) 14 in
    rows_in cleaned.0 + cleaned.1 ≡ rows_in tables
housekeeping_expire-reads_example =
    (housekeeping_expire-reads tables (morning + 25 * hour_us) 101 (morning + 25 * hour_us) 14
      (morning + 25 * hour_us) (omega arith)).3
