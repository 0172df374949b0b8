-- ===== src/Weather/Endpoint/Limits.antt =====
-- The values of the days that `get_weather` serves.
use mathlib.Core.Path.{subst}
use map_service_hub.Base.{
  ℕ, ◌≡◌, true, false, not, Option, none, some, List, [], ◌∷◌, map, String, All, All-append,
  All-sort_by,
}
use map_service_hub.Base.Json.{Floats, RoundsWithin}
use map_service_hub.Weather.Rows.{DailyItem, RegionLookup}
use map_service_hub.Weather.Horizon.{Split, split_dates_by_horizon}
use map_service_hub.Weather.Short.{aggregate_short_term}
use map_service_hub.Weather.Endpoint.{
  Repo, WeatherResponse, ok, Served, Fetched, add_item, serve_days, set_missing_fields, mid_item_of,
  short_item_of, overlap_item_of, serve, respond, get_weather, fetch_all, or_else, offset_from,
  tm_fc_kst_date,
}
use map_service_hub.Weather.Bounds.{IsSound, OptSound, if-IsSound, short-IsSound, mid-IsSound}
use map_service_hub.Weather.Endpoint.Outcome.{get_weather_ok}

abbrev ServedSound : List DailyItem → Type 0
ServedSound = All IsSound

or_else-IsSound : (x y : Option DailyItem) → OptSound x → OptSound y → OptSound (or_else x y)
or_else-IsSound none y h k = k
or_else-IsSound (some i) y h k = h

add_item-IsSound :
    (day : ℕ) (o : Option DailyItem) (s : Served)
    → OptSound o
    → ServedSound s.daily
    → ServedSound (add_item day o s).daily
add_item-IsSound day none s h k = k
add_item-IsSound day (some i) s h k = All-append IsSound s.daily (i ∷ []) k (h, tt)

serve_days-IsSound :
    (f : ℕ → Option DailyItem) (days : List ℕ) (s : Served)
    → ((d : ℕ) → OptSound (f d))
    → ServedSound s.daily
    → ServedSound (serve_days f days s).daily
unfolding serve_days
serve_days-IsSound f [] s h k = k
serve_days-IsSound f (d ∷ days) s h k =
    serve_days-IsSound f days (add_item d (f d) s) h (add_item-IsSound d (f d) s (h d) k)

-- `missing_fields` is the one field that is set afterwards
set_missing_fields-IsSound :
    (items : List DailyItem) → ServedSound items → ServedSound (map set_missing_fields items)
set_missing_fields-IsSound [] h = tt
set_missing_fields-IsSound (i ∷ items) h = (
  record {
    pop_bounds = h.0.pop_bounds;
    min_bounds = h.0.min_bounds;
    max_bounds = h.0.max_bounds;
    some_value = h.0.some_value;
  },
  set_missing_fields-IsSound items h.1,
)

module _ {F : Type 0} (fl : Floats F) (rounds : RoundsWithin fl) where
  mid_item_of-IsSound : (got : Fetched) (day : ℕ) → OptSound (mid_item_of fl got day)
  unfolding mid_item_of
  mid_item_of-IsSound got day = if-IsSound (not got.have_mid_codes) none _ tt (
      mid-IsSound fl rounds got.land_rows got.temp_rows
        (offset_from day (tm_fc_kst_date got.land_tm_fc))
        (offset_from day (tm_fc_kst_date got.temp_tm_fc)) day)

  overlap-IsSound : (got : Fetched) (day : ℕ) → OptSound (overlap_item_of fl got day)
  unfolding overlap_item_of
  overlap-IsSound got day =
      or_else-IsSound (aggregate_short_term fl got.short_rows day true) _
        (short-IsSound fl rounds got.short_rows day true)
        (or_else-IsSound (mid_item_of fl got day) _ (mid_item_of-IsSound got day)
          (short-IsSound fl rounds got.short_rows day false))

  serve-IsSound : (got : Fetched) (s : Split) → ServedSound (serve fl got s).daily
  unfolding serve short_item_of
  serve-IsSound got s =
      serve_days-IsSound (mid_item_of fl got) s.mid_days _ (mid_item_of-IsSound got) (
        serve_days-IsSound (overlap_item_of fl got) s.overlap_days _ (overlap-IsSound got) (
          serve_days-IsSound _ s.short_days _ (λ d. short-IsSound fl rounds got.short_rows d false)
            tt))

  respond-IsSound :
      (repo : Repo) (region : RegionLookup) (city : String) (s e today now : ℕ)
      → ServedSound (respond fl repo region city s e today now).daily
  unfolding respond
  respond-IsSound repo region city s e today now =
      let split = split_dates_by_horizon s e today in
      let got = fetch_all repo region split in
      All-sort_by (λ (i : DailyItem). i.date) IsSound
        (map set_missing_fields (serve fl got split).daily)
        (set_missing_fields-IsSound (serve fl got split).daily (serve-IsSound got split))

  -- Whatever the repository returns, a served day has a precipitation probability from 0 to 100 and
  -- temperatures from -900 to 900, where it has them, and has at least one of the four values.
  pub get_weather-IsSound :
      (repo : Repo) (today now : ℕ) (province city : String) (date_start date_end : ℕ)
      (w : WeatherResponse)
      → get_weather fl repo today now province city date_start date_end ≡ ok w
      → All IsSound w.daily
  get_weather-IsSound repo today now province city s e w h =
      let (region, responds) = get_weather_ok fl repo today now province city s e w h in
      subst (λ (v : WeatherResponse). All IsSound v.daily) responds
        (respond-IsSound repo region city s e today now)
