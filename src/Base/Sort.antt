-- ===== src/Base/Sort.antt =====
-- Python's stable `sort(key=...)` for keys that are numbers, as an insertion sort.
use Prim.Native.Nat.{ℕ, ◌+◌, ◌≤◌}
use mathlib.Core.Path.{◌≡◌, refl}
use mathlib.Core.Bool.{Bool}
use mathlib.Core.List.{List, [], ◌∷◌}
use native.Mathlib.Omega.{arith}
use map_service_hub.Base.Tests.{leb, if◌then◌else◌}
use map_service_hub.Base.Lists.{All, count_by, if-elim}

module _ {ℓ} {A : Type ℓ} (key : A → ℕ) where
  abbrev pub insert_by : A → List A → List A
  insert_by x [] = x ∷ []
  insert_by x (y ∷ ys) = if leb (key x) (key y) then x ∷ y ∷ ys else y ∷ insert_by x ys

  abbrev pub sort_by : List A → List A
  sort_by [] = []
  sort_by (x ∷ xs) = insert_by x (sort_by xs)

  abbrev pub AtLeast : ℕ → List A → Type 0
  AtLeast n [] = Unit
  AtLeast n (x ∷ xs) = (n ≤ key x) × AtLeast n xs

  abbrev pub IsSorted : List A → Type 0
  IsSorted [] = Unit
  IsSorted (x ∷ xs) = AtLeast (key x) xs × IsSorted xs

  pub AtLeast-le : (m n : ℕ) (xs : List A) → m ≤ n → AtLeast n xs → AtLeast m xs
  AtLeast-le m n [] h k = tt
  AtLeast-le m n (x ∷ xs) h k = (omega arith, AtLeast-le m n xs h k.1)

  AtLeast-insert_by :
      (n : ℕ) (x : A) (ys : List A) → n ≤ key x → AtLeast n ys → AtLeast n (insert_by x ys)
  AtLeast-insert_by n x [] h k = (h, tt)
  AtLeast-insert_by n x (y ∷ ys) h k = ground (arith, AtLeast-insert_by n x ys h k.1)

  insert_by-IsSorted : (x : A) (ys : List A) → IsSorted ys → IsSorted (insert_by x ys)
  insert_by-IsSorted x [] h = (tt, tt)
  insert_by-IsSorted x (y ∷ ys) h = ground (
    arith,
    insert_by-IsSorted x ys h.1,
    AtLeast-le (key x) (key y) ys,
    AtLeast-insert_by (key y) x ys,
  )

  pub sort_by-IsSorted : (xs : List A) → IsSorted (sort_by xs)
  sort_by-IsSorted [] = tt
  sort_by-IsSorted (x ∷ xs) = insert_by-IsSorted x (sort_by xs) (sort_by-IsSorted xs)

  count_by-insert_by :
      (p : A → Bool) (x : A) (ys : List A)
      → count_by p (insert_by x ys) ≡ (if p x then 1 else 0) + count_by p ys
  count_by-insert_by p x [] = refl
  count_by-insert_by p x (y ∷ ys) = ground (arith, count_by-insert_by p x ys)

  -- sorting neither loses nor adds an element
  pub count_by-sort_by : (p : A → Bool) (xs : List A) → count_by p (sort_by xs) ≡ count_by p xs
  count_by-sort_by p [] = refl
  count_by-sort_by p (x ∷ xs) =
      omega (arith, count_by-insert_by p x (sort_by xs), count_by-sort_by p xs)

  pub All-insert_by {κ} :
      (P : A → Type κ) (x : A) (ys : List A) → P x → All P ys → All P (insert_by x ys)
  All-insert_by P x [] h k = (h, tt)
  All-insert_by P x (y ∷ ys) h k =
      let rest = All-insert_by P x ys h k.1 in
      if-elim (All P) (leb (key x) (key y)) (x ∷ y ∷ ys) (y ∷ insert_by x ys) (λ _. (h, k))
        (λ _. (k.0, rest))

  pub All-sort_by {κ} : (P : A → Type κ) (xs : List A) → All P xs → All P (sort_by xs)
  All-sort_by P [] h = tt
  All-sort_by P (x ∷ xs) h = All-insert_by P x (sort_by xs) h.0 (All-sort_by P xs h.1)
