-- ===== src/Weather/Bounds.antt =====
-- The values of a day that an aggregation makes.
use map_service_hub.Base.{
  ℕ, ◌≡◌, refl, Bool, true, false, ◌&&◌, ◌||◌, Option, none, some, List, [], ◌∷◌, map, String,
  if◌then◌else◌, arith, All, somes, head_opt, is_none, is_empty,
}
use map_service_hub.Base.Int.{ℤ, pos, negsuc, ◌≤ℤ◌, leb_ℤ}
use map_service_hub.Base.Json.{Json, str, Floats, RoundsWithin}
use map_service_hub.Weather.Rows.{
  Category, pop, tmn, tmx, ShortRow, LandRow, TempRow, DailyItem, Source, short_term,
}
use map_service_hub.Weather.Values.{coerce_int, coerce_int-within, valid_pop, valid_pop-within}
use map_service_hub.Weather.Item.{
  ForecastTimes, forecast_times, short_times, item_of, make_item, no_value, max_of, max_from,
}
use map_service_hub.Weather.Short.{
  aggregate_short_term, first_value, short_pop, short_sky, short_item, values_of, rows_of, on_day,
}
use map_service_hub.Weather.Mid.{
  aggregate_mid, land_pop, land_sky, temp_value, json_int, land_of_day, temp_of_day,
}

abbrev pub OptWithin : ℤ → ℤ → Option ℤ → Type 0
OptWithin lo hi none = Unit
OptWithin lo hi (some z) = (lo ≤ℤ z) × (z ≤ℤ hi)

-- The bounds of a day's values; a day with no value at all is not served.
pub record IsSound (i : DailyItem) : Type 0 where
  pub pop_bounds : OptWithin (pos 0) (pos 100) i.precipitation_prob
  pub min_bounds : OptWithin (negsuc 899) (pos 900) i.temp_min
  pub max_bounds : OptWithin (negsuc 899) (pos 900) i.temp_max
  pub some_value : no_value i.temp_min i.temp_max i.precipitation_prob i.sky_condition ≡ false

abbrev AllWithin : ℤ → ℤ → List (Option ℤ) → Type 0
AllWithin lo hi = All (OptWithin lo hi)

max_from-within :
    (lo hi : ℤ) (xs : List ℤ) (best : ℤ)
    → (lo ≤ℤ best) × (best ≤ℤ hi)
    → All (λ z. (lo ≤ℤ z) × (z ≤ℤ hi)) xs
    → (lo ≤ℤ max_from best xs) × (max_from best xs ≤ℤ hi)
max_from-within lo hi [] best h k = h
max_from-within lo hi (x ∷ xs) best h k =
    max_from-within lo hi xs (if leb_ℤ x best then best else x) (ground arith) k.1

somes-within :
    (lo hi : ℤ) (xs : List (Option ℤ))
    → AllWithin lo hi xs
    → All (λ z. (lo ≤ℤ z) × (z ≤ℤ hi)) (somes xs)
somes-within lo hi [] h = tt
somes-within lo hi (none ∷ xs) h = somes-within lo hi xs h.1
somes-within lo hi (some z ∷ xs) h = (h.0, somes-within lo hi xs h.1)

max_of-within :
    (lo hi : ℤ) (xs : List ℤ) → All (λ z. (lo ≤ℤ z) × (z ≤ℤ hi)) xs → OptWithin lo hi (max_of xs)
max_of-within lo hi [] h = tt
max_of-within lo hi (x ∷ xs) h = max_from-within lo hi xs x h.0 h.1

head_opt-within :
    (lo hi : ℤ) (xs : List ℤ) → All (λ z. (lo ≤ℤ z) × (z ≤ℤ hi)) xs → OptWithin lo hi (head_opt xs)
head_opt-within lo hi [] h = tt
head_opt-within lo hi (x ∷ xs) h = h.0

valid_pop-OptWithin : (o : Option ℤ) → OptWithin (pos 0) (pos 100) (valid_pop o)
valid_pop-OptWithin o = go (valid_pop o) refl
  where
    go : (p : Option ℤ) → valid_pop o ≡ p → OptWithin (pos 0) (pos 100) p
    go none e = tt
    go (some z) e = valid_pop-within o z e

map-valid_pop-within : (xs : List (Option ℤ)) → AllWithin (pos 0) (pos 100) (map valid_pop xs)
map-valid_pop-within [] = tt
map-valid_pop-within (x ∷ xs) = (valid_pop-OptWithin x, map-valid_pop-within xs)

-- what is served, if anything is
abbrev pub OptSound : Option DailyItem → Type 0
OptSound none = Unit
OptSound (some i) = IsSound i

pub item_of-IsSound :
    (day : ℕ) (src : Source) (t : ForecastTimes) (lo hi prob : Option ℤ) (c : Option String)
    → OptWithin (negsuc 899) (pos 900) lo
    → OptWithin (negsuc 899) (pos 900) hi
    → OptWithin (pos 0) (pos 100) prob
    → OptSound (item_of day src t lo hi prob c)
item_of-IsSound day src t lo hi prob c l h p = go (no_value lo hi prob c) refl
  where
    go :
        (b : Bool)
        → no_value lo hi prob c ≡ b
        → OptSound (if b then none else some (make_item day src t lo hi prob c))
    go true e = tt
    go false e = record { pop_bounds = p; min_bounds = l; max_bounds = h; some_value = e }

pub if-IsSound :
    (b : Bool) (x y : Option DailyItem) → OptSound x → OptSound y → OptSound (if b then x else y)
if-IsSound true x y h k = h
if-IsSound false x y h k = k

module _ {F : Type 0} (fl : Floats F) (rounds : RoundsWithin fl) where
  coerced : (v : Json F) → OptWithin (negsuc 899) (pos 900) (coerce_int fl v)
  coerced v = go (coerce_int fl v) refl
    where
      go : (o : Option ℤ) → coerce_int fl v ≡ o → OptWithin (negsuc 899) (pos 900) o
      go none e = tt
      go (some z) e = coerce_int-within fl rounds v z e

  coerced_all :
      (rows : List ShortRow)
      → AllWithin
          (negsuc 899)
          (pos 900)
          (map (λ (r : ShortRow). coerce_int fl (str r.fcst_value)) rows)
  coerced_all [] = tt
  coerced_all (r ∷ rows) = (coerced (str r.fcst_value), coerced_all rows)

  first_value-within :
      (c : Category) (rows : List ShortRow)
      → OptWithin (negsuc 899) (pos 900) (first_value fl c rows)
  first_value-within c rows =
      head_opt-within (negsuc 899) (pos 900) (somes (values_of fl c rows))
        (somes-within (negsuc 899) (pos 900) (values_of fl c rows) (coerced_all (rows_of c rows)))

  short_pop-within : (rows : List ShortRow) → OptWithin (pos 0) (pos 100) (short_pop fl rows)
  short_pop-within rows =
      max_of-within (pos 0) (pos 100) (somes (map valid_pop (values_of fl pop rows))) (
        somes-within (pos 0) (pos 100) (map valid_pop (values_of fl pop rows))
          (map-valid_pop-within (values_of fl pop rows)))

  pub short-IsSound :
      (rows : List ShortRow) (day : ℕ) (full : Bool)
      → OptSound (aggregate_short_term fl rows day full)
  unfolding aggregate_short_term
  short-IsSound rows day full =
      let of_day = on_day day rows in
      let lo = first_value fl tmn of_day in
      let hi = first_value fl tmx of_day in
      if-IsSound (is_empty of_day) none (short_item fl day full of_day) tt (
        if-IsSound (full && (is_none lo || is_none hi)) none
          (item_of day short_term (forecast_times (map short_times of_day)) lo hi
            (short_pop fl of_day) (short_sky fl day of_day))
          tt
          (item_of-IsSound day short_term (forecast_times (map short_times of_day)) lo hi
            (short_pop fl of_day) (short_sky fl day of_day) (first_value-within tmn of_day)
            (first_value-within tmx of_day) (short_pop-within of_day)))

  land_pops :
      (rows : List LandRow)
      → AllWithin
          (pos 0)
          (pos 100)
          (map (λ (r : LandRow). valid_pop (coerce_int fl (json_int r.rain_prob_pct))) rows)
  land_pops [] = tt
  land_pops (r ∷ rows) =
      (valid_pop-OptWithin (coerce_int fl (json_int r.rain_prob_pct)), land_pops rows)

  temp_value-within :
      (field : TempRow → Option ℤ) (o : Option TempRow)
      → OptWithin (negsuc 899) (pos 900) (temp_value fl field o)
  temp_value-within field none = tt
  temp_value-within field (some r) = coerced (json_int (field r))

  pub mid-IsSound :
      (land : List LandRow) (temp : List TempRow) (a b : Option ℤ) (day : ℕ)
      → OptSound (aggregate_mid fl land temp a b day)
  unfolding aggregate_mid
  mid-IsSound land temp a b day =
      let of_day = land_of_day a day land in
      let row = temp_of_day b day temp in
      item_of-IsSound day _ _ (temp_value fl (λ r. r.ta_min) row)
        (temp_value fl (λ r. r.ta_max) row) (land_pop fl of_day) (land_sky fl of_day)
        (temp_value-within (λ r. r.ta_min) row) (temp_value-within (λ r. r.ta_max) row)
        (max_of-within (pos 0) (pos 100)
          (somes
            (map (λ (r : LandRow). valid_pop (coerce_int fl (json_int r.rain_prob_pct))) of_day))
          (somes-within (pos 0) (pos 100)
            (map (λ (r : LandRow). valid_pop (coerce_int fl (json_int r.rain_prob_pct))) of_day)
            (land_pops of_day)))
