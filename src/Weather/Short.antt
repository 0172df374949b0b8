-- ===== src/Weather/Short.antt =====
-- `_aggregate_short_term` of app/routers/hub_routers.py: one day of the response from the rows of the
-- short-term forecast.
use map_service_hub.Base.{
  ℕ, ◌+◌, ◌-◌, ◌*◌, Bool, ◌&&◌, ◌||◌, Option, none, List, map, String, ◌==◌, if◌then◌else◌, is_none,
  is_empty, head_opt, filter_by, somes, sort_by,
}
use map_service_hub.Base.Int.{ℤ}
use map_service_hub.Base.Json.{str, Floats}
use map_service_hub.Weather.Values.{coerce_int, valid_pop, label_sky}
use map_service_hub.Weather.Rows.{
  Category, pop, sky, tmn, tmx, same_category, ShortRow, short_term, DailyItem, midnight, hour_us,
}
use map_service_hub.Weather.Item.{max_of, forecast_times, short_times, item_of}

abbrev pub distance : ℕ → ℕ → ℕ
distance a b = (a - b) + (b - a)

abbrev pub noon : ℕ → ℕ
noon day = midnight day + 12 * hour_us

abbrev pub rows_of : Category → List ShortRow → List ShortRow
rows_of c rows = filter_by (λ r. same_category r.category c) rows

abbrev pub on_day : ℕ → List ShortRow → List ShortRow
on_day day rows = filter_by (λ r. r.date == day) rows

module _ {F : Type 0} (fl : Floats F) where
  abbrev pub values_of : Category → List ShortRow → List (Option ℤ)
  values_of c rows = map (λ (r : ShortRow). coerce_int fl (str r.fcst_value)) (rows_of c rows)

  abbrev pub first_value : Category → List ShortRow → Option ℤ
  first_value c rows = head_opt (somes (values_of c rows))

  abbrev pub short_pop : List ShortRow → Option ℤ
  short_pop rows = max_of (somes (map valid_pop (values_of pop rows)))

  -- the first label in the order of the distance to noon
  abbrev pub short_sky : ℕ → List ShortRow → Option String
  short_sky day rows = head_opt (
      somes (
        map (λ (r : ShortRow). label_sky {F = F} (str r.fcst_value))
          (sort_by (λ (r : ShortRow). distance r.fcst_at (noon day)) (rows_of sky rows))))

  abbrev pub short_item : ℕ → Bool → List ShortRow → Option DailyItem
  short_item day require_full day_rows =
      let temp_min = first_value tmn day_rows in
      let temp_max = first_value tmx day_rows in
      if require_full && (is_none temp_min || is_none temp_max)
      then none
      else item_of day short_term (forecast_times (map short_times day_rows)) temp_min temp_max
          (short_pop day_rows) (short_sky day day_rows)

  unfoldable pub aggregate_short_term : List ShortRow → ℕ → Bool → Option DailyItem
  aggregate_short_term rows day require_full =
      let day_rows = on_day day rows in
      if is_empty day_rows then none else short_item day require_full day_rows
