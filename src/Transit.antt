-- ===== src/Transit.antt =====
-- Public transport of app/routers/hub_routers.py: `_odsay_is_key_failure`, the retry with the second
-- key, `_subway_route` and `_transit_routes`, which are the same function of two results, and the
-- filter of `get_transit_routes`. The provider, the budget and the cache are the record `Outside`.
pub mod Calls
pub mod Buttons
use map_service_hub.Base.{
  ℕ, zero, suc, ◌+◌, Bool, true, false, not, ◌&&◌, ◌||◌, List, [], ◌∷◌, Option, none, some, String,
  ◌==◌, str_eq, if◌then◌else◌, filter_by, any_by, all_by, is_empty, take,
}
use map_service_hub.Base.Int.{ℤ, pos, ltb_ℤ}
use map_service_hub.Kma.{Text, codes}
use map_service_hub.Sealing.{starts_with}

pub data Status : Type 0 where
  served not_found unavailable : Status

-- `OdsayApiError`
pub record OdsayApiError : Type 0 where
  pub code : String
  pub msg : Text

pub data Answer (R : Type 0) : Type 0 where
  found : R → Answer R
  failed : OdsayApiError → Answer R

-- What a lookup of one pair of points meets: `_odsay_call_allowed`, the clients of the two keys, and
-- the entry of the pair in the cache, where there is one. A hit is what an earlier lookup has set.
pub record Outside (S R : Type 0) : Type 0 where
  pub allowed : S → Bool × S
  pub client : Option (S → Answer R × S)
  pub fallback : Option (S → Answer R × S)
  pub get_json : S → Option (Status × R) × S
  pub set_json : Status × R → ℕ → S → S

pub record Ttls : Type 0 where
  pub fail_cache_ttl : ℕ
  pub cache_ttl : ℕ

abbrev pub contains : Text → Text → Bool
contains hint [] = is_empty hint
contains hint (c ∷ cs) = starts_with hint (c ∷ cs) || contains hint cs

-- `_ODSAY_KEY_FAILURE_HINTS`
abbrev pub key_failure_hints : List String
key_failure_hints = "apikey" ∷ "limit" ∷ "exceed" ∷ "quota" ∷ []

-- `lower` is Python's `str.lower`
unfoldable pub odsay_is_key_failure : (Text → Text) → OdsayApiError → Bool
odsay_is_key_failure lower error =
    if not (str_eq error.code "API_ERR")
    then false
    else any_by (λ hint. contains (codes hint) (lower error.msg)) key_failure_hints

-- `nothing` is None or the empty list, `is_found` the test for a result
module _ {S R : Type 0} (out : Outside S R) (lower : Text → Text) (nothing : R)
    (is_found : R → Bool) where
  abbrev pub found_status : R → Status
  found_status r = if is_found r then served else not_found

  abbrev pub of_fallback : Answer R × S → (Status × R) × S
  of_fallback (found r, s) = ((found_status r, r), s)
  of_fallback (failed error, s) = ((unavailable, nothing), s)

  abbrev pub if_allowed : (S → (Status × R) × S) → Bool → S → (Status × R) × S
  if_allowed call false s = ((unavailable, nothing), s)
  if_allowed call true s = call s

  abbrev pub with_fallback : Option (S → Answer R × S) → S → (Status × R) × S
  with_fallback none s = ((unavailable, nothing), s)
  with_fallback (some call) s =
      let granted = out.allowed s in if_allowed (λ t. of_fallback (call t)) granted.0 granted.1

  unfoldable pub odsay_retry_with_fallback : OdsayApiError → S → (Status × R) × S
  odsay_retry_with_fallback error s =
      if not (odsay_is_key_failure lower error)
      then ((unavailable, nothing), s)
      else with_fallback out.fallback s

  abbrev pub of_client : Answer R × S → (Status × R) × S
  of_client (found r, s) = ((found_status r, r), s)
  of_client (failed error, s) = odsay_retry_with_fallback error s

  module _ (ttls : Ttls) where
    abbrev pub ttl_of : Status → ℕ
    ttl_of unavailable = ttls.fail_cache_ttl
    ttl_of _ = ttls.cache_ttl

    abbrev pub remember : (Status × R) × S → (Status × R) × S
    remember (result, s) = (result, out.set_json result (ttl_of result.0) s)

    abbrev pub ask : Option (S → Answer R × S) → S → (Status × R) × S
    ask none s = ((unavailable, nothing), s)
    ask (some call) s =
        let granted = out.allowed s in
        if_allowed (λ t. remember (of_client (call t))) granted.0 granted.1

    abbrev pub unless_cached : Option (Status × R) → S → (Status × R) × S
    unless_cached (some hit) s = (hit, s)
    unless_cached none s = ask out.client s

    -- `stub` is the answer of a deployment without a key
    unfoldable pub route_lookup : Option R → S → (Status × R) × S
    route_lookup (some stub) s = ((served, stub), s)
    route_lookup none s = let cached = out.get_json s in unless_cached cached.0 cached.1

abbrev pub is_some : {R : Type 0} → Option R → Bool
is_some none = false
is_some (some r) = true

-- the two lookups; `stub` is the answer of a deployment without a key
module _ {S R : Type 0} (lower : Text → Text) (ttls : Ttls) where
  unfoldable pub subway_route :
      Outside S (Option R) → Option (Option R) → S → (Status × Option R) × S
  subway_route out stub s = route_lookup out lower none is_some ttls stub s

  unfoldable pub transit_routes : Outside S (List R) → Option (List R) → S → (Status × List R) × S
  transit_routes out stub s = route_lookup out lower [] (λ rs. not (is_empty rs)) ttls stub s

-- a candidate, by what the filter reads of it
pub record Candidate (F : Type 0) : Type 0 where
  pub modes : List String
  pub subway_distance_m : ℤ
  pub bus_distance_ratio : F

pub data Mode : Type 0 where
  all_modes subway bus : Mode

abbrev pub is_one_of : List String → String → Bool
is_one_of names m = any_by (str_eq m) names

-- `_BUS_BUTTON_MODES`
abbrev pub bus_button_modes : List String
bus_button_modes = "walk" ∷ "bus" ∷ "express" ∷ "intercity" ∷ []

-- `_NON_ROAD_MODES`
abbrev pub non_road_modes : List String
non_road_modes = "train" ∷ "air" ∷ []

-- `lt` is the order of floats, `ratio` TRANSIT_BUS_DOMINANCE_RATIO
module _ {F : Type 0} (lt : F → F → Bool) (ratio : F) where
  abbrev pub is_bus : Candidate F → Bool
  is_bus r = all_by (is_one_of bus_button_modes) r.modes

  abbrev pub has_subway : Candidate F → Bool
  has_subway r =
      ltb_ℤ (pos 0) r.subway_distance_m && not (any_by (is_one_of non_road_modes) r.modes)

  abbrev pub is_rail_first : Candidate F → Bool
  is_rail_first r = lt r.bus_distance_ratio ratio

  -- `a or b`
  abbrev pub or_else : List (Candidate F) → List (Candidate F) → List (Candidate F)
  or_else [] others = others
  or_else (r ∷ rs) others = r ∷ rs

  unfoldable pub filter_routes_by_mode : Mode → List (Candidate F) → List (Candidate F)
  filter_routes_by_mode all_modes routes = routes
  filter_routes_by_mode bus routes = filter_by is_bus routes
  filter_routes_by_mode subway routes =
      let with_subway = filter_by has_subway routes in
      or_else (filter_by is_rail_first with_subway) with_subway

  abbrev pub unless_empty : List (Candidate F) → Status × List (Candidate F)
  unless_empty [] = (not_found, [])
  unless_empty (r ∷ rs) = (served, r ∷ rs)

  -- what `get_transit_routes` answers for the result of the lookup; `limit` is ROUTE_OPTIONS_MAX
  unfoldable pub transit_response :
      ℕ → Mode → Status × List (Candidate F) → Status × List (Candidate F)
  transit_response limit mode (served, routes) =
      unless_empty (take limit (filter_routes_by_mode mode routes))
  transit_response limit mode (not_found, routes) = (not_found, routes)
  transit_response limit mode (unavailable, routes) = (unavailable, routes)
