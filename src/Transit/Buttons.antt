-- ===== src/Transit/Buttons.antt =====
-- Which candidates the buttons of `get_transit_routes` of app/routers/hub_routers.py show.
use mathlib.Core.Path.{subst}
use map_service_hub.Base.{
  ℕ, zero, suc, ◌≡◌, ◌≤◌, ◌⊎◌, inl, inr, refl, sym, Bool, true, false, List, [], ◌∷◌, if-cases,
  filter_by, take, length, All, All-In, In, In-filter_by, arith,
}
use map_service_hub.Transit.{
  Status, served, not_found, unavailable, Candidate, Mode, all_modes, subway, bus, is_bus,
  has_subway, is_rail_first, or_else, filter_routes_by_mode, unless_empty, transit_response,
}

-- a filter that keeps nothing
filter_by-none :
    {A : Type 0} (p : A → Bool) (xs : List A) → filter_by p xs ≡ [] → All (λ x. p x ≡ false) xs
filter_by-none p [] = λ e. tt
filter_by-none p (x ∷ xs) =
    if-cases (λ ys. ys ≡ [] → All (λ y. p y ≡ false) (x ∷ xs)) (p x) (x ∷ filter_by p xs)
      (filter_by p xs) (λ _ e. absurd (ground arith)) (λ off e. (off, filter_by-none p xs e))

All-take : {A : Type 0} (P : A → Type 0) (n : ℕ) (xs : List A) → All P xs → All P (take n xs)
All-take P zero xs h = tt
All-take P (suc n) [] h = tt
All-take P (suc n) (x ∷ xs) h = (h.0, All-take P n xs h.1)

length-take : {A : Type 0} (n : ℕ) (xs : List A) → length (take n xs) ≤ n
length-take zero xs = omega arith
length-take (suc n) [] = omega arith
length-take (suc n) (x ∷ xs) = let rest = length-take n xs in omega arith

module _ {F : Type 0} (lt : F → F → Bool) (ratio : F) where
  -- what a button asks of a candidate
  abbrev pub wanted : Mode → Candidate F → Bool
  wanted all_modes r = true
  wanted bus r = is_bus lt ratio r
  wanted subway r = has_subway lt ratio r

  -- Under the button for the subway mostly buses are shown only where each candidate is mostly buses.
  abbrev pub Fits : Mode → List (Candidate F) → Candidate F → Type 0
  Fits all_modes routes r = Unit
  Fits bus routes r = Unit
  Fits subway routes r =
      (is_rail_first lt ratio r ≡ true)
      ⊎ All (λ q. is_rail_first lt ratio q ≡ false) (filter_by (has_subway lt ratio) routes)

  abbrev IsShown : Mode → List (Candidate F) → Candidate F → Type 0
  IsShown mode routes r = In r routes × (wanted mode r ≡ true) × Fits mode routes r

  or_else-IsShown :
      (routes kept : List (Candidate F))
      → filter_by (is_rail_first lt ratio) (filter_by (has_subway lt ratio) routes) ≡ kept
      → All (IsShown subway routes) (or_else lt ratio kept (filter_by (has_subway lt ratio) routes))
  or_else-IsShown routes [] e =
      let with_subway = filter_by (has_subway lt ratio) routes in
      All-In (IsShown subway routes) with_subway (λ r i.
        let (there, fits) = In-filter_by (has_subway lt ratio) r routes i in
        (there, fits, inr (filter_by-none (is_rail_first lt ratio) with_subway e)))
  or_else-IsShown routes (k ∷ ks) e =
      let with_subway = filter_by (has_subway lt ratio) routes in
      All-In (IsShown subway routes) (k ∷ ks) (λ r i.
        let (among, rail) =
          In-filter_by (is_rail_first lt ratio) r with_subway (subst (In r) (sym e) i) in
        let (there, fits) = In-filter_by (has_subway lt ratio) r routes among in
        (there, fits, inl rail))

  filter-IsShown :
      (mode : Mode) (routes : List (Candidate F))
      → All (IsShown mode routes) (filter_routes_by_mode lt ratio mode routes)
  unfolding filter_routes_by_mode
  filter-IsShown all_modes routes = All-In (IsShown all_modes routes) routes (λ r i. (i, refl, tt))
  filter-IsShown bus routes =
      All-In (IsShown bus routes) (filter_by (is_bus lt ratio) routes)
        (λ r i. let (there, fits) = In-filter_by (is_bus lt ratio) r routes i in (there, fits, tt))
  filter-IsShown subway routes =
      or_else-IsShown routes
        (filter_by (is_rail_first lt ratio) (filter_by (has_subway lt ratio) routes)) refl

  or_else-none : (xs ys : List (Candidate F)) → or_else lt ratio xs ys ≡ [] → ys ≡ []
  or_else-none [] ys e = e
  or_else-none (x ∷ xs) ys e = absurd (ground arith)

  filter-none :
      (mode : Mode) (routes : List (Candidate F))
      → filter_routes_by_mode lt ratio mode routes ≡ []
      → All (λ q. wanted mode q ≡ false) routes
  unfolding filter_routes_by_mode
  filter-none all_modes routes e = subst (All (λ q. wanted all_modes q ≡ false)) (sym e) tt
  filter-none bus routes e = filter_by-none (is_bus lt ratio) routes e
  filter-none subway routes e = filter_by-none (has_subway lt ratio) routes (
      or_else-none (filter_by (is_rail_first lt ratio) (filter_by (has_subway lt ratio) routes))
        (filter_by (has_subway lt ratio) routes) e)

  abbrev pub Answers : ℕ → Mode → List (Candidate F) → Status × List (Candidate F) → Type 0
  Answers limit mode routes (served, rs) =
      (1 ≤ length rs)
      × (length rs ≤ limit)
      × All (λ r. In r routes × (wanted mode r ≡ true) × Fits mode routes r) rs
  Answers limit mode routes (not_found, rs) = (rs ≡ []) × All (λ q. wanted mode q ≡ false) routes
  Answers limit mode routes (unavailable, rs) = ⊥

  take-none : (n : ℕ) (xs : List (Candidate F)) → 1 ≤ n → take n xs ≡ [] → xs ≡ []
  take-none zero xs h e = absurd (omega arith)
  take-none (suc n) [] h e = refl
  take-none (suc n) (x ∷ xs) h e = absurd (ground arith)

  unless_empty-Answers :
      (limit : ℕ) (mode : Mode) (routes shown : List (Candidate F))
      → 1 ≤ limit
      → take limit (filter_routes_by_mode lt ratio mode routes) ≡ shown
      → Answers limit mode routes (unless_empty lt ratio shown)
  unless_empty-Answers limit mode routes [] h e = (
    refl,
    filter-none mode routes (take-none limit (filter_routes_by_mode lt ratio mode routes) h e),
  )
  unless_empty-Answers limit mode routes (r ∷ rs) h e =
      let all_shown = filter_routes_by_mode lt ratio mode routes in
      (
        omega arith,
        subst (λ ys. length ys ≤ limit) e (length-take limit all_shown),
        subst (All (IsShown mode routes)) e
            (All-take (IsShown mode routes) limit all_shown (filter-IsShown mode routes)),
      )

  -- For candidates that were found and a positive limit, the answer is either one to `limit` of them, each of which the button
  -- asks for, and under the subway's button a mostly-bus one only where all are, or it is that there are
  -- none, and then the button asks for no candidate at all.
  pub transit_response-Answers :
      (limit : ℕ) (mode : Mode) (routes : List (Candidate F))
      → 1 ≤ limit
      → Answers limit mode routes (transit_response lt ratio limit mode (served, routes))
  unfolding transit_response
  transit_response-Answers limit mode routes h =
      unless_empty-Answers limit mode routes
        (take limit (filter_routes_by_mode lt ratio mode routes)) h refl
