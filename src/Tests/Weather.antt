-- ===== src/Tests/Weather.antt =====
-- `GET /v1/weather` on a small repository: one grid with two days of short-term forecast, one day of
-- the mid-term one.
use map_service_hub.Base.{
  ℕ, ◌+◌, ◌*◌, ◌≡◌, ◌&&◌, leb, count, refl, none, some, List, [], ◌∷◌, String, str_eq,
  if◌then◌else◌, All,
}
use map_service_hub.Base.Int.{pos}
use map_service_hub.Tests.Numbers.{whole, whole-RoundsWithin}
use map_service_hub.Weather.Rows.{
  Category, tmn, tmx, pop, sky, ShortRow, LandRow, RegionLookup, day_us, hour_us,
}
use map_service_hub.Weather.Values.{coerce_int, valid_pop, label_sky}
use map_service_hub.Weather.Short.{aggregate_short_term}
use map_service_hub.Weather.Mid.{aggregate_mid}
use map_service_hub.Weather.Item.{forecast_times}
use map_service_hub.Weather.Bounds.{IsSound}
use map_service_hub.Weather.Horizon.{short, split_dates_by_horizon, split_loop, horizon}
use map_service_hub.Weather.Endpoint.{
  Repo, WeatherResponse, ok, get_weather, respond, fetch_all, serve, serve_days, short_item_of,
  overlap_item_of, mid_item_of,
}
use map_service_hub.Weather.Horizon.Partition.{split_partition, days_in, offset_range}
use map_service_hub.Weather.Endpoint.Coverage.{Covers, get_weather-Covers}
use map_service_hub.Weather.Endpoint.Limits.{get_weather-IsSound}

abbrev region : RegionLookup
region = record {
  admin_code = 1168000000;
  lv1 = "서울특별시";
  lv2 = "강남구";
  nx = 61;
  ny = 126;
  mid_land_reg_id = some "11B00000";
  mid_temp_reg_id = some "11B10101";
}

abbrev short_row : ℕ → Category → String → ℕ → ShortRow
short_row day c value hour = record {
  date = day;
  category = c;
  fcst_value = value;
  fcst_at = day * day_us + hour * hour_us;
  base_at = 100 * day_us;
  updated_at = 100 * day_us;
  expires_at = 101 * day_us;
}

abbrev sample_short_rows : List ShortRow
sample_short_rows =
    short_row 100 tmn "-3" 6
    ∷ short_row 100 sky "3" 11
    ∷ short_row 100 tmx "21" 15
    ∷ short_row 101 pop "60" 9
    ∷ []

abbrev sample_land_rows : List LandRow
sample_land_rows =
    record {
      date = some 105;
      offset = 5;
      am_pm = "AM";
      weather = some "흐림";
      rain_prob_pct = some (pos 60);
      tm_fc = 100 * day_us;
      updated_at = 100 * day_us;
      expires_at = 101 * day_us;
    }
    ∷ []

abbrev repo : Repo
repo = record {
  lookup_region_by_name = λ province city. if str_eq province "서울특별시" then some region else none;
  fetch_short_term_range = λ nx ny lo hi. (sample_short_rows, some (100 * day_us));
  fetch_mid_land_range = λ reg lo hi. (sample_land_rows, some (100 * day_us));
  fetch_mid_temp_range = λ reg lo hi. ([], none);
}

-- Day 100 is today; day 102 has no forecast.
abbrev response : WeatherResponse
response = respond whole repo region "강남구" 100 105 100 7

answered : get_weather whole repo 100 7 "서울특별시" "강남구" 100 105 ≡ ok response
unfolding get_weather
answered = refl

missing-response : response.missing_dates ≡ 102 ∷ 103 ∷ 104 ∷ []
unfolding respond fetch_all serve serve_days short_item_of overlap_item_of mid_item_of
    split_dates_by_horizon split_loop horizon aggregate_short_term aggregate_mid coerce_int
    forecast_times valid_pop label_sky
missing-response = refl

get_weather-Covers_example : Covers 100 105 102 response
get_weather-Covers_example =
    get_weather-Covers whole repo 100 7 "서울특별시" "강남구" 100 105 102 response answered

get_weather-IsSound_example : All IsSound response.daily
get_weather-IsSound_example =
    get_weather-IsSound whole whole-RoundsWithin repo 100 7 "서울특별시" "강남구" 100 105 response answered

split_partition_example :
    count 102 (days_in short (split_dates_by_horizon 98 109 100))
    ≡ (if leb 98 102 && leb 102 109 && offset_range short 102 100 then 1 else 0)
split_partition_example = split_partition short 102 98 109 100
