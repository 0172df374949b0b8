-- ===== src/Store/Grids/Choice.antt =====
-- Which grid `pick_serving_grid` of app/db/forecast_repo.py chooses.
use map_service_hub.Base.{
  ℕ, ◌≡◌, ◌≤◌, ◌<◌, ◌⊎◌, inl, inr, refl, Option, none, some, List, [], ◌∷◌, String, str_eq, eq_iff,
  arith, filter_by, In, In-All, All, ◌≢◌, In-filter_by, In-filter_by_of, if◌then◌else◌, Bool-cases,
  ap, ◌∙◌,
}
use map_service_hub.Store.{SubscribedGrid}
use map_service_hub.Store.Grids.{
  square_distance, is_nearer, nearest_from, nearest, pick_serving_grid,
}

module _ (nx ny : ℕ) where
  -- not after in the order of the pairs (distance, grid_id)
  unfoldable pub NotAfter : SubscribedGrid → SubscribedGrid → Type 0
  NotAfter g h =
      (square_distance nx ny g < square_distance nx ny h)
      ⊎ ((square_distance nx ny g ≡ square_distance nx ny h) × (g.grid_id ≤ h.grid_id))

  NotAfter-trans : (g h k : SubscribedGrid) → NotAfter g h → NotAfter h k → NotAfter g k
  unfolding NotAfter
  NotAfter-trans g h k a b = ground arith

  NotAfter-refl : (g : SubscribedGrid) → NotAfter g g
  unfolding NotAfter
  NotAfter-refl g = inr (refl, omega arith)

  better-NotAfter :
      (g best : SubscribedGrid)
      → NotAfter (if is_nearer nx ny g best then g else best) g
        × NotAfter (if is_nearer nx ny g best then g else best) best
  unfolding NotAfter is_nearer
  better-NotAfter g best = ground arith

  better-In :
      (g best : SubscribedGrid) (gs : List SubscribedGrid)
      → ((if is_nearer nx ny g best then g else best) ≡ g)
        ⊎ ((if is_nearer nx ny g best then g else best) ≡ best)
  better-In g best gs = elim (Bool-cases (is_nearer nx ny g best)) [
    | inl e ↦ inl (ap (λ b. if b then g else best) e)
    | inr e ↦ inr (ap (λ b. if b then g else best) e)
  ]

  nearest_from-In :
      (best : SubscribedGrid) (gs : List SubscribedGrid)
      → In (nearest_from nx ny best gs) (best ∷ gs)
  unfolding nearest_from
  nearest_from-In best [] = inl refl
  nearest_from-In best (g ∷ gs) =
      elim (nearest_from-In (if is_nearer nx ny g best then g else best) gs) [
        | inl q ↦ elim (better-In g best gs) [ inl e ↦ inr (inl (q ∙ e)) | inr e ↦ inl (q ∙ e) ]
        | inr i ↦ inr (inr i)
      ]

  nearest_from-NotAfter :
      (best : SubscribedGrid) (gs : List SubscribedGrid)
      → NotAfter (nearest_from nx ny best gs) best × All (NotAfter (nearest_from nx ny best gs)) gs
  unfolding nearest_from
  nearest_from-NotAfter best [] = (NotAfter-refl best, tt)
  nearest_from-NotAfter best (g ∷ gs) =
      let m = if is_nearer nx ny g best then g else best in
      let rest = nearest_from-NotAfter m gs in
      (
        NotAfter-trans (nearest_from nx ny m gs) m best rest.0 (better-NotAfter g best).1,
        (NotAfter-trans (nearest_from nx ny m gs) m g rest.0 (better-NotAfter g best).0, rest.1),
      )

-- What the choice of a grid for a province promises: the grid is one of the province, no other of
-- the province comes before it by distance and then by number, and there is none only where the
-- province has no grid.
abbrev pub Serves : List SubscribedGrid → String → ℕ → ℕ → Option SubscribedGrid → Type 0
Serves grids lv1 nx ny none = (h : SubscribedGrid) → In h grids → h.lv1 ≢ lv1
Serves grids lv1 nx ny (some g) =
    In g grids
    × (g.lv1 ≡ lv1)
    × ((h : SubscribedGrid) → In h grids → h.lv1 ≡ lv1 → NotAfter nx ny g h)

-- the filter by province, as membership
of_province :
    (grids : List SubscribedGrid) (lv1 : String) (h : SubscribedGrid)
    → In h grids
    → h.lv1 ≡ lv1
    → In h (filter_by (λ (g : SubscribedGrid). str_eq g.lv1 lv1) grids)
of_province grids lv1 h i e =
    In-filter_by_of (λ (g : SubscribedGrid). str_eq g.lv1 lv1) h grids i ((eq_iff h.lv1 lv1).1 e)

nearest-Serves :
    (grids gs : List SubscribedGrid) (lv1 : String) (nx ny : ℕ)
    → ((h : SubscribedGrid) → In h grids → h.lv1 ≡ lv1 → In h gs)
    → ((h : SubscribedGrid) → In h gs → In h grids × (h.lv1 ≡ lv1))
    → Serves grids lv1 nx ny (nearest nx ny gs)
nearest-Serves grids [] lv1 nx ny into from = λ h i e. into h i e
nearest-Serves grids (g ∷ gs) lv1 nx ny into from =
    let k = nearest_from-NotAfter nx ny g gs in
    let m = nearest_from nx ny g gs in
    let here = from m (nearest_from-In nx ny g gs) in
    (here.0, here.1, λ h i e. In-All (NotAfter nx ny m) h (g ∷ gs) k (into h i e))

-- The grid that serves a region is one of the region's province, no grid of that province comes
-- before it by distance and then by number, and none is found only where the province has no grid.
pub pick_serving_grid-Serves :
    (grids : List SubscribedGrid) (lv1 : String) (nx ny : ℕ)
    → Serves grids lv1 nx ny (pick_serving_grid grids lv1 nx ny)
unfolding pick_serving_grid
pick_serving_grid-Serves grids lv1 nx ny =
    let test = λ (g : SubscribedGrid). str_eq g.lv1 lv1 in
    nearest-Serves grids (filter_by test grids) lv1 nx ny (of_province grids lv1)
      (λ h i. let both = In-filter_by test h grids i in (both.0, (eq_iff h.lv1 lv1).0 both.1))
