-- ===== src/Weather/Item.antt =====
-- `_forecast_times` of app/routers/hub_routers.py, and how an aggregation ends: with no item for a
-- day without a value, and else with the item.
use map_service_hub.Base.{
  ℕ, Bool, ◌&&◌, Option, none, some, List, [], ◌∷◌, map, String, leb, if◌then◌else◌, is_none, somes,
}
use map_service_hub.Base.Int.{ℤ, leb_ℤ}
use map_service_hub.Weather.Rows.{ShortRow, LandRow, TempRow, Source, DailyItem}

-- `max(values) if values else None`
abbrev pub max_from : ℤ → List ℤ → ℤ
max_from best [] = best
max_from best (x ∷ xs) = max_from (if leb_ℤ x best then best else x) xs

abbrev pub max_of : List ℤ → Option ℤ
max_of [] = none
max_of (x ∷ xs) = some (max_from x xs)

abbrev pub earlier : ℕ → ℕ → ℕ
earlier a b = if leb a b then a else b

abbrev pub later : ℕ → ℕ → ℕ
later a b = if leb b a then a else b

abbrev pub fold_from : (ℕ → ℕ → ℕ) → ℕ → List ℕ → ℕ
fold_from choose best [] = best
fold_from choose best (x ∷ xs) = fold_from choose (choose best x) xs

-- `extrema(key, choose)`, with `choose` the minimum or the maximum of two
abbrev pub choose_of : (ℕ → ℕ → ℕ) → List ℕ → Option ℕ
choose_of choose [] = none
choose_of choose (x ∷ xs) = some (fold_from choose x xs)

pub record ForecastTimes : Type 0 where
  pub source_at : Option ℕ
  pub captured_at : Option ℕ
  pub expires_at : Option ℕ

-- What a row has under the three keys: its publication, `updated_at` and `expires_at`.
pub record RowTimes : Type 0 where
  pub publication : Option ℕ
  pub updated_at : Option ℕ
  pub expires_at : Option ℕ

unfoldable pub forecast_times : List RowTimes → ForecastTimes
forecast_times rows = record {
  source_at = choose_of earlier (somes (map (λ (r : RowTimes). r.publication) rows));
  captured_at = choose_of later (somes (map (λ (r : RowTimes). r.updated_at) rows));
  expires_at = choose_of earlier (somes (map (λ (r : RowTimes). r.expires_at) rows));
}

abbrev pub short_times : ShortRow → RowTimes
short_times r = record {
  publication = some r.base_at;
  updated_at = some r.updated_at;
  expires_at = some r.expires_at;
}

abbrev pub land_times : LandRow → RowTimes
land_times r = record {
  publication = some r.tm_fc;
  updated_at = some r.updated_at;
  expires_at = some r.expires_at;
}

abbrev pub temp_times : TempRow → RowTimes
temp_times r = record {
  publication = some r.tm_fc;
  updated_at = some r.updated_at;
  expires_at = some r.expires_at;
}

abbrev pub no_value : Option ℤ → Option ℤ → Option ℤ → Option String → Bool
no_value temp_min temp_max prob condition =
    is_none temp_min && is_none temp_max && is_none prob && is_none condition

abbrev pub make_item :
    ℕ → Source → ForecastTimes → Option ℤ → Option ℤ → Option ℤ → Option String → DailyItem
make_item day source times temp_min temp_max prob condition = record {
  date = day;
  temp_min = temp_min;
  temp_max = temp_max;
  precipitation_prob = prob;
  sky_condition = condition;
  source_at = times.source_at;
  captured_at = times.captured_at;
  expires_at = times.expires_at;
  missing_fields = [];
  source = source;
}

-- the return of `None` for a day with no value, and else the item
abbrev pub item_of :
    ℕ → Source → ForecastTimes → Option ℤ → Option ℤ → Option ℤ → Option String → Option DailyItem
item_of day source times temp_min temp_max prob condition =
    if no_value temp_min temp_max prob condition
    then none
    else some (make_item day source times temp_min temp_max prob condition)
