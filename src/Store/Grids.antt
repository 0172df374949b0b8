-- ===== src/Store/Grids.antt =====
-- `pick_serving_grid`, and the reads of the subscribed grids.
pub mod Choice
pub mod Active
use map_service_hub.Base.{
  ℕ, ◌+◌, ◌-◌, ◌*◌, Bool, true, false, ◌&&◌, ◌||◌, Option, none, some, List, [], ◌∷◌, map, String,
  str_eq, ltb, ◌==◌, if◌then◌else◌, filter_by, find_by, sort_by,
}
use map_service_hub.Store.{SubscribedGrid, GridRow, RegionRow, Tables}

-- the square of a difference
abbrev pub square_diff : ℕ → ℕ → ℕ
square_diff a b = (a - b) * (a - b) + (b - a) * (b - a)

abbrev pub square_distance : ℕ → ℕ → SubscribedGrid → ℕ
square_distance nx ny g = square_diff g.nx nx + square_diff g.ny ny

-- the order of the pairs (distance, grid_id)
unfoldable pub is_nearer : ℕ → ℕ → SubscribedGrid → SubscribedGrid → Bool
is_nearer nx ny g h =
    let dg = square_distance nx ny g in
    let dh = square_distance nx ny h in ltb dg dh || (dg == dh && ltb g.grid_id h.grid_id)

-- `min`: the first of the least
unfoldable pub nearest_from : ℕ → ℕ → SubscribedGrid → List SubscribedGrid → SubscribedGrid
nearest_from nx ny best [] = best
nearest_from nx ny best (g ∷ gs) =
    nearest_from nx ny (if is_nearer nx ny g best then g else best) gs

abbrev pub nearest : ℕ → ℕ → List SubscribedGrid → Option SubscribedGrid
nearest nx ny [] = none
nearest nx ny (g ∷ gs) = some (nearest_from nx ny g gs)

unfoldable pub pick_serving_grid : List SubscribedGrid → String → ℕ → ℕ → Option SubscribedGrid
pick_serving_grid grids lv1 nx ny = nearest nx ny (filter_by (λ g. str_eq g.lv1 lv1) grids)

-- `COALESCE(rg.lv1, '')` of the LEFT JOIN; admin_code is the primary key of region_grid
abbrev pub lv1_of : List RegionRow → ℕ → String
lv1_of [] code = ""
lv1_of (r ∷ rs) code = if r.admin_code == code then r.lv1 else lv1_of rs code

abbrev pub join_region : List RegionRow → GridRow → SubscribedGrid
join_region regions g = record {
  grid_id = g.grid_id;
  label = g.label;
  nx = g.nx;
  ny = g.ny;
  mid_land_reg_id = g.mid_land_reg_id;
  mid_temp_reg_id = g.mid_temp_reg_id;
  lv1 = lv1_of regions g.admin_code;
}

unfoldable pub select_active_grids : Tables → List SubscribedGrid
select_active_grids t =
    sort_by (λ (g : SubscribedGrid). g.grid_id)
      (map (join_region t.region_grid)
        (filter_by (λ (g : GridRow). g.is_active) t.subscribed_grids))
