-- ===== src/Base/Order.antt =====
-- The order of two keys, as `ORDER BY first, second` and pairs have it, and the sort that gives it.
use Prim.Native.Nat.{ℕ, ◌≤◌, ◌<◌}
use mathlib.Core.Path.{◌≡◌}
use mathlib.Core.Logic.{◌⊎◌}
use mathlib.Core.List.{List, [], ◌∷◌}
use native.Mathlib.Omega.{arith}
use map_service_hub.Base.Tests.{leb}
use map_service_hub.Base.Lists.{All, if-elim}
use map_service_hub.Base.Sort.{
  insert_by, sort_by, AtLeast, IsSorted, sort_by-IsSorted, All-insert_by, All-sort_by,
}
use map_service_hub.Base.Members.{In, In-sort_by, In-sort_by_of}

module _ {A : Type 0} (first second : A → ℕ) where
  -- not after by the first key and then by the second
  abbrev pub Before : A → A → Type 0
  Before a b = (first a < first b) ⊎ ((first a ≡ first b) × (second a ≤ second b))

  abbrev pub IsOrdered : List A → Type 0
  IsOrdered [] = Unit
  IsOrdered (x ∷ xs) = All (Before x) xs × IsOrdered xs

  abbrev pub order_by : List A → List A
  order_by xs = sort_by first (sort_by second xs)

  Before-rank : (a b c : A) → first a ≤ first b → second a ≤ second c → Before b c → Before a c
  Before-rank a b c h k l = ground arith

  AtLeast-All : (n : ℕ) (xs : List A) → AtLeast second n xs → All (λ x. n ≤ second x) xs
  AtLeast-All n [] h = tt
  AtLeast-All n (x ∷ xs) h = (h.0, AtLeast-All n xs h.1)

  All-Before :
      (x y : A) (ys : List A)
      → first x ≤ first y
      → All (λ z. second x ≤ second z) ys
      → All (Before y) ys
      → All (Before x) ys
  All-Before x y [] h k l = tt
  All-Before x y (z ∷ ys) h k l = (Before-rank x y z h k.0 l.0, All-Before x y ys h k.1 l.1)

  insert_by-IsOrdered :
      (x : A) (ys : List A)
      → All (λ y. second x ≤ second y) ys
      → IsOrdered ys
      → IsOrdered (insert_by first x ys)
  insert_by-IsOrdered x [] h k = (tt, tt)
  insert_by-IsOrdered x (y ∷ ys) h k =
      if-elim IsOrdered (leb (first x) (first y)) (x ∷ y ∷ ys) (y ∷ insert_by first x ys)
        (λ e. ((ground arith, All-Before x y ys (ground arith) h.1 k.0), k))
        (λ e. (
          All-insert_by first (Before y) x ys (ground arith) k.0,
          insert_by-IsOrdered x ys h.1 k.1,
        ))

  sort_by-IsOrdered : (xs : List A) → IsSorted second xs → IsOrdered (sort_by first xs)
  sort_by-IsOrdered [] h = tt
  sort_by-IsOrdered (x ∷ xs) h =
      insert_by-IsOrdered x (sort_by first xs)
        (All-sort_by first (λ y. second x ≤ second y) xs (AtLeast-All (second x) xs h.0))
        (sort_by-IsOrdered xs h.1)

  pub order_by-IsOrdered : (xs : List A) → IsOrdered (order_by xs)
  order_by-IsOrdered xs = sort_by-IsOrdered (sort_by second xs) (sort_by-IsSorted second xs)

  pub In-order_by : (a : A) (xs : List A) → In a (order_by xs) → In a xs
  In-order_by a xs i = In-sort_by second a xs (In-sort_by first a (sort_by second xs) i)

  pub In-order_by_of : (a : A) (xs : List A) → In a xs → In a (order_by xs)
  In-order_by_of a xs i = In-sort_by_of first a (sort_by second xs) (In-sort_by_of second a xs i)
