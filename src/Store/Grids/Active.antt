-- ===== src/Store/Grids/Active.antt =====
-- The subscribed grids that the forecasts are served from, by the two tables alone.
use mathlib.Core.Path.{subst}
use map_service_hub.Base.{
  ℕ, ◌≡◌, ◌≢◌, ◌⊎◌, inl, inr, refl, sym, ◌∙◌, ap, true, Option, none, some, List, [], ◌∷◌, String,
  ◌==◌, ◌+◌, false, In, In-map, mapped_In, In-sort_by, In-sort_by_of, In-filter_by, In-filter_by_of,
  map, filter_by, arith, Bool-cases, if◌then◌else◌,
}
use map_service_hub.Store.{SubscribedGrid, GridRow, RegionRow, Tables}
use map_service_hub.Store.Grids.{
  lv1_of, join_region, select_active_grids, pick_serving_grid, square_distance, square_diff,
}
use map_service_hub.Store.Grids.Choice.{NotAfter, Serves, pick_serving_grid-Serves}

-- the province of an admin code, empty where no row of the regions has it
abbrev pub IsProvince : List RegionRow → ℕ → String → Type 0
IsProvince [] code lv1 = lv1 ≡ ""
IsProvince (r ∷ rs) code lv1 =
    ((r.admin_code ≡ code) × (lv1 ≡ r.lv1)) ⊎ ((r.admin_code ≢ code) × IsProvince rs code lv1)

-- a grid that an active row of the table is for
pub record IsActive (t : Tables) (g : SubscribedGrid) : Type 0 where
  pub row : GridRow
  pub subscribed : In row t.subscribed_grids
  pub active : row.is_active ≡ true
  pub grid_id : g.grid_id ≡ row.grid_id
  pub nx : g.nx ≡ row.nx
  pub ny : g.ny ≡ row.ny
  pub mid_land_reg_id : g.mid_land_reg_id ≡ row.mid_land_reg_id
  pub mid_temp_reg_id : g.mid_temp_reg_id ≡ row.mid_temp_reg_id
  pub province : IsProvince t.region_grid row.admin_code g.lv1

-- The active grid of a province that is nearest to a point, the one with the smallest number among
-- several; none where the province has no active grid.
abbrev pub IsNearest : Tables → String → ℕ → ℕ → Option SubscribedGrid → Type 0
IsNearest t lv1 nx ny none = (h : SubscribedGrid) → IsActive t h → h.lv1 ≢ lv1
IsNearest t lv1 nx ny (some g) =
    IsActive t g
    × (g.lv1 ≡ lv1)
    × ((h : SubscribedGrid) → IsActive t h → h.lv1 ≡ lv1 → NotAfter nx ny g h)

lv1_of-IsProvince : (rs : List RegionRow) (code : ℕ) → IsProvince rs code (lv1_of rs code)
lv1_of-IsProvince [] code = refl
lv1_of-IsProvince (r ∷ rs) code =
    let rest = lv1_of-IsProvince rs code in
    elim (Bool-cases (r.admin_code == code)) [
      | inl e ↦ inl (ground arith, ap (λ b. if b then r.lv1 else lv1_of rs code) e)
      | inr e ↦ inr (
        λ q. ground arith,
        subst (IsProvince rs code) (sym (ap (λ b. if b then r.lv1 else lv1_of rs code) e)) rest,
      )
    ]

IsProvince-lv1_of :
    (rs : List RegionRow) (code : ℕ) (lv1 : String) → IsProvince rs code lv1 → lv1 ≡ lv1_of rs code
IsProvince-lv1_of [] code lv1 h = h
IsProvince-lv1_of (r ∷ rs) code lv1 (inl (e, q)) =
    let same : (r.admin_code == code) ≡ true = ground arith in
    q ∙ sym (ap (λ b. if b then r.lv1 else lv1_of rs code) (same))
IsProvince-lv1_of (r ∷ rs) code lv1 (inr (n, h)) =
    let other : (r.admin_code == code) ≡ false = ground arith in
    IsProvince-lv1_of rs code lv1 h ∙ sym (ap (λ b. if b then r.lv1 else lv1_of rs code) (other))

-- the order reads no more of a grid than its cell and its number
moved :
    (nx ny : ℕ) (g h k : SubscribedGrid)
    → h.grid_id ≡ k.grid_id
    → h.nx ≡ k.nx
    → h.ny ≡ k.ny
    → NotAfter nx ny g k
    → NotAfter nx ny g h
unfolding NotAfter
moved nx ny g h k a b c le =
    let e : square_distance nx ny k ≡ square_distance nx ny h = sym (
      ap (λ x. square_diff x nx + square_diff h.ny ny) b
      ∙ ap (λ y. square_diff k.nx nx + square_diff y ny) c) in
    grind arith

module _ (t : Tables) where
  abbrev rows : List GridRow
  rows = filter_by (λ (g : GridRow). g.is_active) t.subscribed_grids

  select-IsActive : (g : SubscribedGrid) → In g (select_active_grids t) → IsActive t g
  unfolding select_active_grids
  select-IsActive g i =
      let (row, j, e) = mapped_In (join_region t.region_grid) g rows (
        In-sort_by (λ (g : SubscribedGrid). g.grid_id) g (map (join_region t.region_grid) rows)
          i) in
      let both = In-filter_by (λ (g : GridRow). g.is_active) row t.subscribed_grids j in
      subst (IsActive t) (sym e) (record {
        row = row;
        subscribed = both.0;
        active = both.1;
        grid_id = refl;
        nx = refl;
        ny = refl;
        mid_land_reg_id = refl;
        mid_temp_reg_id = refl;
        province = lv1_of-IsProvince t.region_grid row.admin_code;
      })

  IsActive-select :
      (g : SubscribedGrid) (a : IsActive t g)
      → In (join_region t.region_grid a.row) (select_active_grids t)
  unfolding select_active_grids
  IsActive-select g a =
      let f = join_region t.region_grid in
      In-sort_by_of (λ (g : SubscribedGrid). g.grid_id) (f a.row) (map f rows)
        (In-map f a.row rows (
          In-filter_by_of (λ (g : GridRow). g.is_active) a.row t.subscribed_grids a.subscribed
            a.active))

  Serves-IsNearest :
      (lv1 : String) (nx ny : ℕ) (o : Option SubscribedGrid)
      → Serves (select_active_grids t) lv1 nx ny o
      → IsNearest t lv1 nx ny o
  Serves-IsNearest lv1 nx ny none h = λ g a e.
      h (join_region t.region_grid a.row) (IsActive-select g a)
        (sym (IsProvince-lv1_of t.region_grid a.row.admin_code g.lv1 a.province) ∙ e)
  Serves-IsNearest lv1 nx ny (some g) (i, own, first) = (
    select-IsActive g i,
    own,
    λ h a e.
        let q = IsProvince-lv1_of t.region_grid a.row.admin_code h.lv1 a.province in
        let before = first (join_region t.region_grid a.row) (IsActive-select h a) (sym q ∙ e) in
        let same_id = a.grid_id in
        let same_nx = a.nx in
        let same_ny = a.ny in
        moved nx ny g h (join_region t.region_grid a.row) same_id same_nx same_ny before,
  )

  pub pick-IsNearest :
      (lv1 : String) (nx ny : ℕ)
      → IsNearest t lv1 nx ny (pick_serving_grid (select_active_grids t) lv1 nx ny)
  pick-IsNearest lv1 nx ny =
      Serves-IsNearest lv1 nx ny (pick_serving_grid (select_active_grids t) lv1 nx ny)
        (pick_serving_grid-Serves (select_active_grids t) lv1 nx ny)
