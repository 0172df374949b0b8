-- ===== src/Base/Lists.antt =====
-- Lists measured by native numbers, Boolean filters, and how often a number occurs.
use Prim.Native.Nat.{ℕ, zero, suc, ◌+◌, ◌≤◌}
use mathlib.Core.Path.{◌≡◌, refl}
use mathlib.Core.Bool.{Bool, true, false, ◌&&◌, ◌||◌}
use mathlib.Core.List.{List, [], ◌∷◌, ◌++◌}
use mathlib.Core.Option.{Option, none, some}
use native.Mathlib.Omega.{arith}
use map_service_hub.Base.Tests.{◌==◌, if◌then◌else◌}

module _ {ℓ} {A : Type ℓ} where
  abbrev pub length : List A → ℕ
  length [] = 0
  length (x ∷ xs) = suc (length xs)

  abbrev pub is_empty : List A → Bool
  is_empty [] = true
  is_empty (x ∷ xs) = false

  abbrev pub head_opt : List A → Option A
  head_opt [] = none
  head_opt (x ∷ xs) = some x

  abbrev pub take : ℕ → List A → List A
  take zero xs = []
  take (suc n) [] = []
  take (suc n) (x ∷ xs) = x ∷ take n xs

  abbrev pub drop : ℕ → List A → List A
  drop zero xs = xs
  drop (suc n) [] = []
  drop (suc n) (x ∷ xs) = drop n xs

  -- `[x for x in xs if p(x)]`
  abbrev pub filter_by : (A → Bool) → List A → List A
  filter_by p [] = []
  filter_by p (x ∷ xs) = if p x then x ∷ filter_by p xs else filter_by p xs

  abbrev pub any_by : (A → Bool) → List A → Bool
  any_by p [] = false
  any_by p (x ∷ xs) = p x || any_by p xs

  abbrev pub all_by : (A → Bool) → List A → Bool
  all_by p [] = true
  all_by p (x ∷ xs) = p x && all_by p xs

  -- `next((x for x in xs if p(x)), None)`
  abbrev pub find_by : (A → Bool) → List A → Option A
  find_by p [] = none
  find_by p (x ∷ xs) = if p x then some x else find_by p xs

  -- the elements that are not None
  abbrev pub somes : List (Option A) → List A
  somes [] = []
  somes (none ∷ xs) = somes xs
  somes (some x ∷ xs) = x ∷ somes xs

  abbrev pub All {κ} : (A → Type κ) → List A → Type κ
  All P [] = Unit
  All P (x ∷ xs) = P x × All P xs

  -- how many elements pass a test
  abbrev pub count_by : (A → Bool) → List A → ℕ
  count_by p [] = 0
  count_by p (x ∷ xs) = (if p x then 1 else 0) + count_by p xs

  pub length-append : (xs ys : List A) → length (xs ++ ys) ≡ length xs + length ys
  length-append [] ys = omega arith
  length-append (x ∷ xs) ys = omega (arith, length-append xs ys)

  pub count_by-append :
      (p : A → Bool) (xs ys : List A) → count_by p (xs ++ ys) ≡ count_by p xs + count_by p ys
  count_by-append p [] ys = omega arith
  count_by-append p (x ∷ xs) ys = omega (arith, count_by-append p xs ys)

  pub length-filter_by : (p : A → Bool) (xs : List A) → length (filter_by p xs) ≤ length xs
  length-filter_by p [] = omega arith
  length-filter_by p (x ∷ xs) = ground (arith, length-filter_by p xs)

  pub All-append {κ} : (P : A → Type κ) (xs ys : List A) → All P xs → All P ys → All P (xs ++ ys)
  All-append P [] ys h k = k
  All-append P (x ∷ xs) ys h k = (h.0, All-append P xs ys h.1 k)

  -- a predicate of lists that holds on both branches holds of the conditional
  pub if-elim {κ} :
      (P : List A → Type κ) (b : Bool) (xs ys : List A)
      → (b ≡ true → P xs)
      → (b ≡ false → P ys)
      → P (if b then xs else ys)
  if-elim P true xs ys h k = h refl
  if-elim P false xs ys h k = k refl

module _ {ℓ} {A : Type ℓ} where
  pub All-filter_by : (p : A → Bool) (xs : List A) → All (λ x. p x ≡ true) (filter_by p xs)
  All-filter_by p [] = tt
  All-filter_by p (x ∷ xs) =
      let rest = All-filter_by p xs in
      if-elim (All (λ y. p y ≡ true)) (p x) (x ∷ filter_by p xs) (filter_by p xs) (λ e. (e, rest))
        (λ _. rest)

  -- what holds of every element holds of the ones that a filter keeps
  pub All-filter_by_keeps {κ} :
      (P : A → Type κ) (p : A → Bool) (xs : List A) → All P xs → All P (filter_by p xs)
  All-filter_by_keeps P p [] h = tt
  All-filter_by_keeps P p (x ∷ xs) h =
      let rest = All-filter_by_keeps P p xs h.1 in
      if-elim (All P) (p x) (x ∷ filter_by p xs) (filter_by p xs) (λ _. (h.0, rest)) (λ _. rest)

-- how often a number occurs
abbrev pub count : ℕ → List ℕ → ℕ
count a xs = count_by (λ x. x == a) xs
