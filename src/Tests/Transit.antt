-- ===== src/Tests/Transit.antt =====
-- A lookup whose first key has run out, and a list of candidates of which some take a train.
use mathlib.Core.Path.{subst}
use mathlib.Core.Option.{some-injective}
use map_service_hub.Base.{
  Option, ℕ, suc, ◌+◌, ◌≡◌, refl, true, none, some, List, [], ◌∷◌, String, arith, ltb,
}
use map_service_hub.Base.Int.{pos}
use map_service_hub.Kma.{Text, codes}
use map_service_hub.Transit.{
  served, OdsayApiError, Answer, found, failed, Outside, Ttls, route_lookup, subway_route,
  transit_routes, odsay_retry_with_fallback, odsay_is_key_failure, Candidate, subway,
  transit_response,
}
use map_service_hub.Transit.Calls.{IsMetered, Spends, lookups-Spend}
use map_service_hub.Transit.Buttons.{Answers, transit_response-Answers}

-- the calls with each key, and the permissions
record Meters : Type 0 where
  first : ℕ
  second : ℕ
  grants : ℕ

abbrev run_out : OdsayApiError
run_out = record { code = "API_ERR"; msg = codes "[limit] daily quota" }

-- a call with each key that is answered so
abbrev by_first : {R : Type 0} → Answer R → Meters → Answer R × Meters
by_first a s = (a, record { first = suc s.first; second = s.second; grants = s.grants })

abbrev by_second : {R : Type 0} → Answer R → Meters → Answer R × Meters
by_second a s = (a, record { first = s.first; second = suc s.second; grants = s.grants })

abbrev outside : {R : Type 0} → Answer R → Answer R → Outside Meters R
outside one two = record {
  allowed = λ s. (true, record { first = s.first; second = s.second; grants = s.grants + 1 });
  client = some (by_first one);
  fallback = some (by_second two);
  get_json = λ s. (none, s);
  set_json = λ v ttl s. s;
}

abbrev any : Outside Meters (List ℕ)
any = outside (failed run_out) (found (7 ∷ []))

-- the first key finds that there is no subway
abbrev rail : Outside Meters (Option ℕ)
rail = outside (found none) (failed run_out)

abbrev lower : Text → Text
lower t = t

abbrev ttls : Ttls
ttls = record { fail_cache_ttl = 60; cache_ttl = 21_600 }

abbrev first_of : Meters → ℕ
first_of s = s.first

abbrev second_of : Meters → ℕ
second_of s = s.second

abbrev grants_of : Meters → ℕ
grants_of s = s.grants

abbrev earlier : Meters
earlier = record { first = 3; second = 2; grants = 9 }

-- both keys are called, and the second one serves
second_serves :
    transit_routes lower ttls any none earlier
    ≡ ((served, 7 ∷ []), record { first = 4; second = 3; grants = 11 })
unfolding transit_routes route_lookup odsay_retry_with_fallback odsay_is_key_failure
second_serves = refl

asked_counts :
    {R : Type 0} (P : (Meters → Answer R × Meters) → Type 0)
    (made call : Meters → Answer R × Meters)
    → some made ≡ some call
    → P made
    → P call
asked_counts {R} P made call e h = subst P (some-injective made call e) h

outside-IsMetered :
    {R : Type 0} (one two : Answer R) → IsMetered (outside one two) first_of second_of grants_of
outside-IsMetered {R} one two = record {
  granted = λ s. (refl, refl, refl);
  by_client = λ call s e.
      asked_counts
        (λ (c : Meters → Answer R × Meters).
          ((c s).1.first ≡ suc s.first) × ((c s).1.second ≡ s.second) × ((c s).1.grants ≡ s.grants))
        (by_first one) call e (refl, refl, refl);
  by_fallback = λ call s e.
      asked_counts
        (λ (c : Meters → Answer R × Meters).
          ((c s).1.first ≡ s.first) × ((c s).1.second ≡ suc s.second) × ((c s).1.grants ≡ s.grants))
        (by_second two) call e (refl, refl, refl);
  by_get = λ s. (refl, refl, refl);
  by_set = λ v ttl s. (refl, refl, refl);
}

lookups-Spend_example :
    Spends first_of second_of grants_of 1 1 earlier (subway_route lower ttls rail none earlier).1
    × Spends first_of second_of grants_of 1 1 earlier (transit_routes lower ttls any none earlier).1
lookups-Spend_example =
    lookups-Spend lower ttls first_of second_of grants_of rail any
      (outside-IsMetered (found none) (failed run_out))
      (outside-IsMetered (failed run_out) (found (7 ∷ []))) none none earlier

abbrev candidate : List String → ℕ → ℕ → Candidate ℕ
candidate modes metres percent = record {
  modes = modes;
  subway_distance_m = pos metres;
  bus_distance_ratio = percent;
}

-- by train, by subway and mostly by bus
abbrev candidates : List (Candidate ℕ)
candidates =
    candidate ("walk" ∷ "train" ∷ []) 900 0
    ∷ candidate ("walk" ∷ "subway" ∷ []) 5_000 0
    ∷ candidate ("bus" ∷ "subway" ∷ []) 800 90
    ∷ []

transit_response-Answers_example :
    Answers ltb 50 8 subway candidates (transit_response ltb 50 8 subway (served, candidates))
transit_response-Answers_example = transit_response-Answers ltb 50 8 subway candidates (omega arith)
