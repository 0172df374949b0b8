-- ===== src/Transit/Calls.antt =====
-- How many calls of the provider a lookup of app/routers/hub_routers.py makes, and under what budget.
use map_service_hub.Base.{
  List, [], is_empty, ℕ, suc, ◌+◌, ◌≡◌, ◌≤◌, refl, Bool, true, false, not, Option, none, some,
  if◌then◌else◌, if-cases, arith,
}
use map_service_hub.Kma.{Text}
use map_service_hub.Transit.{
  is_some, subway_route, transit_routes, Status, unavailable, OdsayApiError, Answer, found, failed,
  Outside, Ttls, odsay_is_key_failure, of_fallback, if_allowed, with_fallback,
  odsay_retry_with_fallback, of_client, remember, ask, unless_cached, ttl_of, route_lookup,
}

-- `first` and `second` count the calls of the provider with each key, `grants` the permissions that the
-- budget gives.
pub record IsMetered {S R : Type 0} (out : Outside S R) (first second grants : S → ℕ) : Type 0 where
  pub granted :
      (s : S)
      → (first (out.allowed s).1 ≡ first s)
        × (second (out.allowed s).1 ≡ second s)
        × (grants (out.allowed s).1 ≡ grants s + (if (out.allowed s).0 then 1 else 0))
  pub by_client :
      (call : S → Answer R × S) (s : S)
      → out.client ≡ some call
      → (first (call s).1 ≡ suc (first s))
        × (second (call s).1 ≡ second s)
        × (grants (call s).1 ≡ grants s)
  pub by_fallback :
      (call : S → Answer R × S) (s : S)
      → out.fallback ≡ some call
      → (first (call s).1 ≡ first s)
        × (second (call s).1 ≡ suc (second s))
        × (grants (call s).1 ≡ grants s)
  pub by_get :
      (s : S)
      → (first (out.get_json s).1 ≡ first s)
        × (second (out.get_json s).1 ≡ second s)
        × (grants (out.get_json s).1 ≡ grants s)
  pub by_set :
      (v : Status × R) (ttl : ℕ) (s : S)
      → (first (out.set_json v ttl s) ≡ first s)
        × (second (out.set_json v ttl s) ≡ second s)
        × (grants (out.set_json v ttl s) ≡ grants s)

-- From one state to another: at most `m` calls with the first key, at most `n` with the second, and as
-- many calls as permissions.
abbrev pub Spends : {S : Type 0} → (S → ℕ) → (S → ℕ) → (S → ℕ) → ℕ → ℕ → S → S → Type 0
Spends first second grants m n s t =
    (first t ≤ first s + m)
    × (second t ≤ second s + n)
    × (first t + second t + grants s ≡ first s + second s + grants t)

module _ {S R : Type 0} (out : Outside S R) (lower : Text → Text) (nothing : R)
    (is_found : R → Bool) (ttls : Ttls) (first second grants : S → ℕ)
    (metered : IsMetered out first second grants) where
  of_fallback-Spends :
      (s : S) (r : Answer R × S)
      → Spends first second grants 0 1 s r.1
      → Spends first second grants 0 1 s (of_fallback out lower nothing is_found r).1
  of_fallback-Spends s (found r, t) h = h
  of_fallback-Spends s (failed e, t) h = h

  if_allowed-Spends :
      (m n : ℕ) (call : S → (Status × R) × S) (ok : Bool) (s t : S)
      → (ok ≡ false → Spends first second grants m n s t)
      → (ok ≡ true → Spends first second grants m n s (call t).1)
      → Spends first second grants m n s (if_allowed out lower nothing is_found call ok t).1
  if_allowed-Spends m n call false s t h k = h refl
  if_allowed-Spends m n call true s t h k = k refl

  with_fallback-Spends :
      (o : Option (S → Answer R × S)) (s : S)
      → out.fallback ≡ o
      → Spends first second grants 0 1 s (with_fallback out lower nothing is_found o s).1
  with_fallback-Spends none s e = (omega arith, omega arith, omega arith)
  with_fallback-Spends (some call) s e =
      let g = metered.granted s in
      let after = (out.allowed s).1 in
      if_allowed-Spends 0 1 (λ t. of_fallback out lower nothing is_found (call t)) (out.allowed s).0
        s after (λ no. ground arith)
        (λ yes_.
          of_fallback-Spends s (call after)
            (let c = metered.by_fallback call after e in ground arith))

  retry-Spends :
      (error : OdsayApiError) (s : S)
      → Spends first second grants 0 1 s
          (odsay_retry_with_fallback out lower nothing is_found error s).1
  unfolding odsay_retry_with_fallback
  retry-Spends error s =
      if-cases (λ (r : (Status × R) × S). Spends first second grants 0 1 s r.1)
        (not (odsay_is_key_failure lower error)) ((unavailable, nothing), s)
        (with_fallback out lower nothing is_found out.fallback s)
        (λ _. (omega arith, omega arith, omega arith))
        (λ _. with_fallback-Spends out.fallback s refl)

  of_client-Spends :
      (s : S) (r : Answer R × S)
      → Spends first second grants 1 0 s r.1
      → Spends first second grants 1 1 s (of_client out lower nothing is_found r).1
  of_client-Spends s (found r, t) h = (omega arith, omega arith, omega arith)
  of_client-Spends s (failed error, t) h =
      let again = retry-Spends error t in (omega arith, omega arith, omega arith)

  remember-Spends :
      (s : S) (r : (Status × R) × S)
      → Spends first second grants 1 1 s r.1
      → Spends first second grants 1 1 s (remember out lower nothing is_found ttls r).1
  remember-Spends s (result, t) h =
      let kept = metered.by_set result (ttl_of out lower nothing is_found ttls result.0) t in
      (omega arith, omega arith, omega arith)

  ask-Spends :
      (o : Option (S → Answer R × S)) (s : S)
      → out.client ≡ o
      → Spends first second grants 1 1 s (ask out lower nothing is_found ttls o s).1
  ask-Spends none s e = (omega arith, omega arith, omega arith)
  ask-Spends (some call) s e =
      let g = metered.granted s in
      let after = (out.allowed s).1 in
      if_allowed-Spends 1 1
        (λ t.
          remember out lower nothing is_found ttls (of_client out lower nothing is_found (call t)))
        (out.allowed s).0 s after (λ no. ground arith)
        (λ yes_. remember-Spends s (of_client out lower nothing is_found (call after)) (
          of_client-Spends s (call after) (let c = metered.by_client call after e in ground arith)))

  unless_cached-Spends :
      (cached : Option (Status × R)) (s : S)
      → Spends first second grants 1 1 s (unless_cached out lower nothing is_found ttls cached s).1
  unless_cached-Spends (some hit) s = (omega arith, omega arith, omega arith)
  unless_cached-Spends none s = ask-Spends out.client s refl

  route_lookup-Spends :
      (stub : Option R) (s : S)
      → Spends first second grants 1 1 s (route_lookup out lower nothing is_found ttls stub s).1
  unfolding route_lookup
  route_lookup-Spends (some stub) s = (omega arith, omega arith, omega arith)
  route_lookup-Spends none s =
      let kept = metered.by_get s in
      let cached = out.get_json s in
      let rest = unless_cached-Spends cached.0 cached.1 in (omega arith, omega arith, omega arith)

-- Where the client calls the provider with the first key and the fallback with the second, a lookup of a
-- subway route, and one of the candidates, calls the provider at most once with each key, and has had a
-- permission of the budget for each of its calls and no permission without a call.
pub lookups-Spend :
    {S R : Type 0} (lower : Text → Text) (ttls : Ttls) (first second grants : S → ℕ)
    (rail : Outside S (Option R)) (any : Outside S (List R))
    → IsMetered rail first second grants
    → IsMetered any first second grants
    → (stub : Option (Option R)) (stubs : Option (List R)) (s : S)
    → Spends first second grants 1 1 s (subway_route lower ttls rail stub s).1
      × Spends first second grants 1 1 s (transit_routes lower ttls any stubs s).1
unfolding subway_route transit_routes
lookups-Spend lower ttls first second grants rail any rail_metered any_metered stub stubs s = (
  route_lookup-Spends rail lower none is_some ttls first second grants rail_metered stub s,
  route_lookup-Spends any lower [] (λ rs. not (is_empty rs)) ttls first second grants any_metered
      stubs s,
)
