-- ===== src/Rules/Radius.antt =====
-- Which candidates `filter_by_radius` of app/rules/rule_engine.py keeps.
use map_service_hub.Base.{ℕ, ◌≡◌, ◌↔◌, true, false, ◌||◌, Option, none, some, List, String, In}
use map_service_hub.Base.Int.{pos}
use map_service_hub.Base.Json.{Fields, get, Floats}
use map_service_hub.Rules.{
  Trig, number, keep, raise, radius_m, radius_in, haversine_m, read, judge, is_null,
}

module _ {F : Type 0} (fl : Floats F) (trig : Trig F) (origin : F × F) where
  -- both coordinates can be read, and the distance that they give is at most the radius
  abbrev pub IsNear : ℕ → Fields F → Type 0
  IsNear radius c =
      ((is_null (get "lat" c) || is_null (get "lng" c)) ≡ false)
      × (lat : F) × (lng : F) × (dist : F) × (read fl trig (get "lat" c) ≡ number lat)
      × (read fl trig (get "lng" c) ≡ number lng)
      × (haversine_m fl trig origin.0 origin.1 lat lng ≡ some dist)
      × (fl.le dist (fl.lit (pos radius)) ≡ true)

  -- What the call promises: without a limit all candidates pass; within one the candidates that are
  -- kept are those that are near; an exception comes from a candidate that raises one.
  abbrev pub Filters : String → List (Fields F) → Option (List (Fields F) × Option ℕ) → Type 0
  Filters mobility candidates none =
      (c : Fields F) × (radius : ℕ) × In c candidates × (judge fl trig origin radius c ≡ raise)
  Filters mobility candidates (some (kept, none)) =
      (radius_in radius_m mobility ≡ none) × (kept ≡ candidates)
  Filters mobility candidates (some (kept, some radius)) =
      (radius_in radius_m mobility ≡ some radius)
      × ((c : Fields F) → In c kept ↔ (In c candidates × IsNear radius c))

  -- the same for the loop over the candidates
  abbrev Keeps : ℕ → List (Fields F) → Option (List (Fields F)) → Type 0
  Keeps radius cs none = (c : Fields F) × In c cs × (judge fl trig origin radius c ≡ raise)
  Keeps radius cs (some kept) =
      (c : Fields F) → In c kept ↔ (In c cs × (judge fl trig origin radius c ≡ keep))
