-- ===== src/Weather/Endpoint/Coverage.antt =====
-- The dates of the response of `get_weather` beside those of the request.
use map_service_hub.Base.{
  ℕ, ◌+◌, ◌≡◌, refl, Bool, true, false, ◌&&◌, Option, none, some, List, [], ◌∷◌, map, String, ◌==◌,
  leb, if◌then◌else◌, arith, count, count_by, count_by-append, IsSorted, sort_by-IsSorted,
  count_by-sort_by,
}
use mathlib.Core.Path.{subst}
use map_service_hub.Base.Int.{ℤ}
use map_service_hub.Base.Json.{Floats}
use map_service_hub.Weather.Rows.{ShortRow, DailyItem, RegionLookup, Source}
use map_service_hub.Weather.Item.{ForecastTimes, item_of}
use map_service_hub.Weather.Horizon.{
  Split, short, overlap, mid, out_of_range, split_dates_by_horizon,
}
use map_service_hub.Weather.Horizon.Partition.{split_partition}
use map_service_hub.Weather.Short.{aggregate_short_term}
use map_service_hub.Weather.Mid.{aggregate_mid}
use map_service_hub.Weather.Endpoint.Outcome.{get_weather_ok}
use map_service_hub.Weather.Endpoint.{
  Repo, WeatherResponse, ok, Served, Fetched, add_item, serve_days, set_missing_fields, mid_item_of,
  short_item_of, overlap_item_of, serve, respond, get_weather, fetch_all,
}

abbrev pub is_on : ℕ → DailyItem → Bool
is_on a i = i.date == a

-- how often a date stands in the response
abbrev pub dates_at : ℕ → Served → ℕ
dates_at a s = count_by (is_on a) s.daily + count a s.missing

-- A date of the range stands once in one of the two lists, no other date stands in either, and both
-- lists ascend.
abbrev pub Covers : ℕ → ℕ → ℕ → WeatherResponse → Type 0
Covers date_start date_end a w =
    (count_by (is_on a) w.daily + count a w.missing_dates
      ≡ (if leb date_start a && leb a date_end then 1 else 0))
    × IsSorted (λ (i : DailyItem). i.date) w.daily
    × IsSorted (λ d. d) w.missing_dates

-- The items that a function makes for a date are on that date.
abbrev pub Dated : (ℕ → Option DailyItem) → Type 0
Dated f = (d : ℕ) (i : DailyItem) → f d ≡ some i → i.date ≡ d

item_of-date :
    (day : ℕ) (src : Source) (t : ForecastTimes) (lo hi prob : Option ℤ) (c : Option String)
    (i : DailyItem)
    → item_of day src t lo hi prob c ≡ some i
    → i.date ≡ day
item_of-date day src t lo hi prob c i h = ground arith

module _ {F : Type 0} (fl : Floats F) where
  short-Dated :
      (rows : List ShortRow) (full : Bool) → Dated (λ d. aggregate_short_term fl rows d full)
  unfolding aggregate_short_term
  short-Dated rows full d i h = ground arith

  mid-Dated : (got : Fetched) → Dated (mid_item_of fl got)
  unfolding mid_item_of aggregate_mid
  mid-Dated got d i h = ground arith

  overlap-Dated : (got : Fetched) → Dated (overlap_item_of fl got)
  unfolding overlap_item_of
  overlap-Dated got d i h = ground (
    arith,
    short-Dated got.short_rows true d i,
    mid-Dated got d i,
    short-Dated got.short_rows false d i,
  )

  short_item-Dated : (got : Fetched) → Dated (short_item_of fl got)
  unfolding short_item_of
  short_item-Dated got = short-Dated got.short_rows false

dates-add_item :
    (a day : ℕ) (o : Option DailyItem) (s : Served)
    → ((i : DailyItem) → o ≡ some i → i.date ≡ day)
    → dates_at a (add_item day o s) ≡ dates_at a s + count a (day ∷ [])
dates-add_item a day none s h = omega (arith, count_by-append (λ x. x == a) s.missing (day ∷ []))
dates-add_item a day (some i) s h =
    ground (arith, count_by-append (is_on a) s.daily (i ∷ []), h i refl)

dates-serve_days :
    (a : ℕ) (f : ℕ → Option DailyItem) (days : List ℕ) (s : Served)
    → Dated f
    → dates_at a (serve_days f days s) ≡ dates_at a s + count a days
unfolding serve_days
dates-serve_days a f [] s h = omega arith
dates-serve_days a f (d ∷ days) s h =
    omega
      (arith, dates-serve_days a f days (add_item d (f d) s) h, dates-add_item a d (f d) s (h d))

-- the four lists of the split hold together each date of the range once
dates-split :
    (a date_start date_end today : ℕ)
    → let s = split_dates_by_horizon date_start date_end today in
      count a s.short_days
        + count a s.overlap_days
        + count a s.mid_days
        + count a s.out_of_range_days
      ≡ (if leb date_start a && leb a date_end then 1 else 0)
dates-split a s e t = ground (
  arith,
  split_partition short a s e t,
  split_partition overlap a s e t,
  split_partition mid a s e t,
  split_partition out_of_range a s e t,
)

count_by-set_missing_fields :
    (a : ℕ) (items : List DailyItem)
    → count_by (is_on a) (map set_missing_fields items) ≡ count_by (is_on a) items
count_by-set_missing_fields a [] = refl
count_by-set_missing_fields a (i ∷ items) = omega (arith, count_by-set_missing_fields a items)

module _ {F : Type 0} (fl : Floats F) where
  dates-serve :
      (a : ℕ) (got : Fetched) (s : Split)
      → dates_at a (serve fl got s)
        ≡ count a s.short_days
          + count a s.overlap_days
          + count a s.mid_days
          + count a s.out_of_range_days
  unfolding serve
  dates-serve a got s = omega (
    arith,
    dates-serve_days a (mid_item_of fl got) s.mid_days _ (mid-Dated fl got),
    dates-serve_days a (overlap_item_of fl got) s.overlap_days _ (overlap-Dated fl got),
    dates-serve_days a (short_item_of fl got) s.short_days
        (record { daily = []; missing = s.out_of_range_days }) (short_item-Dated fl got),
  )

  respond-dates :
      (repo : Repo) (region : RegionLookup) (city : String) (s e today now a : ℕ)
      → Covers s e a (respond fl repo region city s e today now)
  unfolding respond
  respond-dates repo region city s e today now a =
      let split = split_dates_by_horizon s e today in
      let served = serve fl (fetch_all repo region split) split in
      (
        omega (
          arith,
          count_by-sort_by (λ (i : DailyItem). i.date) (is_on a)
              (map set_missing_fields served.daily),
          count_by-set_missing_fields a served.daily,
          count_by-sort_by (λ d. d) (λ x. x == a) served.missing,
          dates-serve a (fetch_all repo region split) split,
          dates-split a s e today,
        ),
        sort_by-IsSorted (λ (i : DailyItem). i.date) (map set_missing_fields served.daily),
        sort_by-IsSorted (λ d. d) served.missing,
      )

  -- In a successful response every date of the requested range stands exactly once, in `daily` or in
  -- `missing_dates`, no other date stands in either, and both lists ascend.
  pub get_weather-Covers :
      (repo : Repo) (today now : ℕ) (province city : String) (date_start date_end a : ℕ)
      (w : WeatherResponse)
      → get_weather fl repo today now province city date_start date_end ≡ ok w
      → Covers date_start date_end a w
  get_weather-Covers repo today now province city s e a w h =
      let (region, responds) = get_weather_ok fl repo today now province city s e w h in
      subst (Covers s e a) responds (respond-dates repo region city s e today now a)
