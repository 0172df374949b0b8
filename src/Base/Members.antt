-- ===== src/Base/Members.antt =====
-- Membership in a list, and what filters and maps do to it.
use mathlib.Core.Path.{◌≡◌, refl, sym, ap, ◌∙◌, subst}
use mathlib.Core.Logic.{◌⊎◌, inl, inr}
use mathlib.Core.Bool.{Bool, true}
use mathlib.Core.Option.{some, some-injective}
use native.Mathlib.Omega.{arith}
use mathlib.Core.List.{List, [], ◌∷◌, map}
use Prim.Native.Nat.{ℕ}
use map_service_hub.Base.Tests.{leb, if-cases, Bool-cases}
use map_service_hub.Base.Sort.{insert_by, sort_by, All-sort_by}
use map_service_hub.Base.Lists.{any_by, filter_by, find_by, if-elim, All}

module _ {A : Type 0} where
  abbrev pub In : A → List A → Type 0
  In a [] = ⊥
  In a (x ∷ xs) = (a ≡ x) ⊎ In a xs

  pub In-All {κ} : (P : A → Type κ) (a : A) (xs : List A) → All P xs → In a xs → P a
  In-All P a (x ∷ xs) h (inl q) = subst P (sym q) h.0
  In-All P a (x ∷ xs) h (inr i) = In-All P a xs h.1 i
  In-All P a [] h e = elim e [ ]

  pub All-In {κ} : (P : A → Type κ) (xs : List A) → ((a : A) → In a xs → P a) → All P xs
  All-In P [] h = tt
  All-In P (x ∷ xs) h = (h x (inl refl), All-In P xs (λ a i. h a (inr i)))

-- a filter keeps exactly the elements that pass
module _ {A : Type 0} (p : A → Bool) where
  pub In-filter_by : (a : A) (xs : List A) → In a (filter_by p xs) → In a xs × (p a ≡ true)
  In-filter_by a [] = λ h. elim h [ ]
  In-filter_by a (x ∷ xs) =
      let rest = In-filter_by a xs in
      if-elim (λ ys. In a ys → In a (x ∷ xs) × (p a ≡ true)) (p x) (x ∷ filter_by p xs)
        (filter_by p xs)
        (λ e h. elim h [ inl q ↦ (inl q, ap p q ∙ e) | inr i ↦ (inr (rest i).0, (rest i).1) ])
        (λ e i. (inr (rest i).0, (rest i).1))

  pub In-filter_by_of : (a : A) (xs : List A) → In a xs → p a ≡ true → In a (filter_by p xs)
  In-filter_by_of a [] h e = elim h [ ]
  In-filter_by_of a (x ∷ xs) (inl q) e =
      if-elim (In a) (p x) (x ∷ filter_by p xs) (filter_by p xs) (λ _. inl q) (λ f. cc)
  In-filter_by_of a (x ∷ xs) (inr i) e =
      if-elim (In a) (p x) (x ∷ filter_by p xs) (filter_by p xs)
        (λ _. inr (In-filter_by_of a xs i e)) (λ _. In-filter_by_of a xs i e)

module _ {A : Type 0} (key : A → ℕ) where
  In-insert_by_of : (a x : A) (ys : List A) → In a (x ∷ ys) → In a (insert_by key x ys)
  In-insert_by_of a x [] i = i
  In-insert_by_of a x (y ∷ ys) i =
      if-elim (In a) (leb (key x) (key y)) (x ∷ y ∷ ys) (y ∷ insert_by key x ys) (λ _. i)
        (λ _. elim i [
          | inl q ↦ inr (In-insert_by_of a x ys (inl q))
          | inr (inl q) ↦ inl q
          | inr (inr j) ↦ inr (In-insert_by_of a x ys (inr j))
        ])

  pub In-sort_by_of : (a : A) (xs : List A) → In a xs → In a (sort_by key xs)
  In-sort_by_of a [] i = i
  In-sort_by_of a (x ∷ xs) (inl q) = In-insert_by_of a x (sort_by key xs) (inl q)
  In-sort_by_of a (x ∷ xs) (inr i) =
      In-insert_by_of a x (sort_by key xs) (inr (In-sort_by_of a xs i))

  pub In-sort_by : (a : A) (xs : List A) → In a (sort_by key xs) → In a xs
  In-sort_by a xs =
      In-All (λ b. In b xs) a (sort_by key xs)
        (All-sort_by key (λ b. In b xs) xs (All-In (λ b. In b xs) xs (λ b i. i)))

pub In-map : {A B : Type 0} (f : A → B) (a : A) (xs : List A) → In a xs → In (f a) (map f xs)
In-map f a (x ∷ xs) (inl q) = inl (ap f q)
In-map f a (x ∷ xs) (inr i) = inr (In-map f a xs i)
In-map f a [] i = elim i [ ]

pub mapped_In :
    {A B : Type 0} (f : A → B) (b : B) (xs : List A)
    → In b (map f xs)
    → (a : A) × In a xs × (b ≡ f a)
mapped_In f b [] i = elim i [ ]
mapped_In f b (x ∷ xs) (inl q) = (x, inl refl, q)
mapped_In f b (x ∷ xs) (inr i) = let (a, j, e) = mapped_In f b xs i in (a, inr j, e)

pub In-find_by : {A : Type 0} (p : A → Bool) (a : A) (xs : List A) → find_by p xs ≡ some a → In a xs
In-find_by p a [] = λ h. ground arith
In-find_by p a (x ∷ xs) =
    let rest = In-find_by p a xs in
    if-cases (λ o. o ≡ some a → In a (x ∷ xs)) (p x) (some x) (find_by p xs)
      (λ _ h. inl (sym (some-injective x a h))) (λ _ h. inr (rest h))

pub In-any_by :
    {A : Type 0} (p : A → Bool) (xs : List A)
    → any_by p xs ≡ true
    → (x : A) × In x xs × (p x ≡ true)
In-any_by p [] h = ground arith
In-any_by p (x ∷ xs) h = elim (Bool-cases (p x)) [
  | inl e ↦ (x, inl refl, e)
  | inr e ↦ let (y, i, f) = In-any_by p xs (ground arith) in (y, inr i, f)
]

pub any_by-In :
    {A : Type 0} (p : A → Bool) (a : A) (xs : List A) → In a xs → p a ≡ true → any_by p xs ≡ true
any_by-In p a [] i h = elim i [ ]
any_by-In p a (x ∷ xs) (inl q) h = let e = ap p q in ground arith
any_by-In p a (x ∷ xs) (inr i) h = let rest = any_by-In p a xs i h in ground arith
