-- ===== src/Store/Greatest.antt =====
-- The greatest number of the rows: MAX of SQL, and Python's `max(..., default=None)`.
use map_service_hub.Base.{
  ℕ, ◌≡◌, ◌≤◌, inl, inr, Option, none, some, List, [], ◌∷◌, map, arith, refl, leb, if-cases, All,
  In,
}
use map_service_hub.Weather.Item.{later, choose_of, fold_from}

module _ {A : Type 0} (f : A → ℕ) where
  -- the number of some row and at least that of every row; none only where there is no row
  abbrev pub IsGreatest : List A → Option ℕ → Type 0
  IsGreatest rows none = rows ≡ []
  IsGreatest rows (some b) = ((r : A) × In r rows × (f r ≡ b)) × All (λ r. f r ≤ b) rows

  fold_from-later :
      (best : ℕ) (rows : List A)
      → (best ≤ fold_from later best (map f rows))
        × All (λ r. f r ≤ fold_from later best (map f rows)) rows
  fold_from-later best [] = (omega arith, tt)
  fold_from-later best (r ∷ rs) =
      let rest = fold_from-later (later best (f r)) rs in
      (ground (arith, rest.0), (ground (arith, rest.0), rest.1))

  fold_from-In :
      (s : A) (rows : List A)
      → (r : A) × In r (s ∷ rows) × (f r ≡ fold_from later (f s) (map f rows))
  fold_from-In s [] = (s, inl refl, refl)
  fold_from-In s (r ∷ rs) =
      if-cases (λ m. (x : A) × In x (s ∷ r ∷ rs) × (f x ≡ fold_from later m (map f rs)))
        (leb (f r) (f s)) (f s) (f r)
        (λ _. let (x, i, e) = fold_from-In s rs in (x, skip_second i, e))
        (λ _. let (x, i, e) = fold_from-In r rs in (x, inr i, e))
    where
      skip_second : {x : A} → In x (s ∷ rs) → In x (s ∷ r ∷ rs)
      skip_second (inl q) = inl q
      skip_second (inr i) = inr (inr i)

  pub choose_of-IsGreatest : (rows : List A) → IsGreatest rows (choose_of later (map f rows))
  choose_of-IsGreatest [] = refl
  choose_of-IsGreatest (r ∷ rs) = (fold_from-In r rs, fold_from-later (f r) rs)
