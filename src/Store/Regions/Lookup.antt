-- ===== src/Store/Regions/Lookup.antt =====
-- Which row names the region, and which grid serves it.
use map_service_hub.Base.{
  ℕ, ◌≡◌, ◌⊎◌, inl, inr, refl, Option, none, some, List, [], ◌∷◌, String, head_opt, filter_by, In,
  In-filter_by, In-filter_by_of,
}
use map_service_hub.Weather.Rows.{RegionLookup}
use map_service_hub.Store.{SubscribedGrid, RegionRow, Tables}
use map_service_hub.Store.Grids.{select_active_grids, pick_serving_grid}
use map_service_hub.Store.Grids.Active.{IsNearest, pick-IsNearest}
use map_service_hub.Store.Regions.{
  first_ranked, grid_rank, name_rank, in_city, on_grid, is_province, build_region_lookup,
  lookup_region_by_name, lookup_region_by_grid, serve_point, serve_named, row_or, region_of_name,
}
use map_service_hub.Store.Regions.Best.{
  IsAt, IsIn, IsWhole, place_level, city_level, IsFirst, first_ranked-IsFirst, grid_rank-level,
  name_rank-level, on_grid-Decides, in_city-Decides, is_province-Decides,
}

-- The result names the region of the row. Its cell and its forecast regions are those of the grid that
-- serves; without one the cell stays and there is no forecast region.
abbrev pub Shows : RegionRow → ℕ → ℕ → Option SubscribedGrid → RegionLookup → Type 0
Shows r nx ny none l =
    ((l.admin_code ≡ r.admin_code) × (l.lv1 ≡ r.lv1) × (l.lv2 ≡ r.lv2))
    × ((l.nx ≡ nx) × (l.ny ≡ ny))
    × ((l.mid_land_reg_id ≡ none) × (l.mid_temp_reg_id ≡ none))
Shows r nx ny (some g) l =
    ((l.admin_code ≡ r.admin_code) × (l.lv1 ≡ r.lv1) × (l.lv2 ≡ r.lv2))
    × ((l.nx ≡ g.nx) × (l.ny ≡ g.ny))
    × ((l.mid_land_reg_id ≡ some g.mid_land_reg_id) × (l.mid_temp_reg_id ≡ some g.mid_temp_reg_id))

build-Shows :
    (r : RegionRow) (nx ny : ℕ) (o : Option SubscribedGrid)
    → Shows r nx ny o (build_region_lookup r.admin_code r.lv1 r.lv2 nx ny o)
build-Shows r nx ny none = ((refl, refl, refl), (refl, refl), (refl, refl))
build-Shows r nx ny (some g) = ((refl, refl, refl), (refl, refl), (refl, refl))

-- The region that a point is in, and the grid that serves it.
abbrev pub Located : Tables → ℕ → ℕ → Option RegionLookup → Type 0
Located t nx ny none = (s : RegionRow) → In s t.region_grid → IsAt nx ny s → ⊥
Located t nx ny (some l) =
    (r : RegionRow) × (grid : Option SubscribedGrid) × IsFirst place_level (IsAt nx ny)
      t.region_grid (some r)
    × IsNearest t r.lv1 nx ny grid
    × Shows r nx ny grid l

serve_point-Located :
    (t : Tables) (nx ny : ℕ) (row : Option RegionRow)
    → IsFirst place_level (IsAt nx ny) t.region_grid row
    → Located t nx ny (serve_point (select_active_grids t) nx ny row)
serve_point-Located t nx ny none h = h
serve_point-Located t nx ny (some r) h =
    let grid = pick_serving_grid (select_active_grids t) r.lv1 nx ny in
    (r, grid, h, pick-IsNearest t r.lv1 nx ny, build-Shows r nx ny grid)

-- A point is located by a row of its own cell: one of a city itself before one of a place inside a city
-- before one of a province, the smallest admin code first. The result names that row's region and has
-- the cell and the forecast regions of the active grid of the row's province that is nearest to the
-- point, the smallest number first; where the province has no active grid, the point itself and no
-- forecast regions. There is no result only where no row has the cell.
pub lookup_region_by_grid-Located :
    (t : Tables) (nx ny : ℕ) → Located t nx ny (lookup_region_by_grid t nx ny)
unfolding lookup_region_by_grid
lookup_region_by_grid-Located t nx ny =
    serve_point-Located t nx ny (first_ranked grid_rank (on_grid nx ny) t.region_grid) (
      first_ranked-IsFirst grid_rank place_level (on_grid nx ny) (IsAt nx ny) grid_rank-level
        (on_grid-Decides nx ny) t.region_grid)

-- The row of a name: the best row of the city, else a row of the province as a whole, else none.
abbrev pub Names : Tables → String → String → Option RegionRow → Type 0
Names t province city none =
    ((s : RegionRow) → In s t.region_grid → IsIn province city s → ⊥)
    × ((s : RegionRow) → In s t.region_grid → IsWhole province s → ⊥)
Names t province city (some r) =
    IsFirst city_level (IsIn province city) t.region_grid (some r)
    ⊎ (((s : RegionRow) → In s t.region_grid → IsIn province city s → ⊥)
        × In r t.region_grid
        × IsWhole province r)

-- an element of a list, none only where it is empty
abbrev FirstOf : List RegionRow → Option RegionRow → Type 0
FirstOf rows none = (s : RegionRow) → In s rows → ⊥
FirstOf rows (some r) = In r rows

head_opt-FirstOf : (rows : List RegionRow) → FirstOf rows (head_opt rows)
head_opt-FirstOf [] = λ s i. i
head_opt-FirstOf (r ∷ rs) = inl refl

row_or-Names :
    (t : Tables) (province city : String) (row whole : Option RegionRow)
    → IsFirst city_level (IsIn province city) t.region_grid row
    → FirstOf (filter_by (is_province province) t.region_grid) whole
    → Names t province city (row_or row whole)
row_or-Names t province city (some r) whole h k = inl h
row_or-Names t province city none none h k = (
  h,
  λ s i e. k s (
      In-filter_by_of (is_province province) s t.region_grid i
        ((is_province-Decides province).complete s e)),
)
row_or-Names t province city none (some r) h k =
    let both = In-filter_by (is_province province) r t.region_grid k in
    inr (h, both.0, (is_province-Decides province).sound r both.1)

-- What the search by name promises of its result.
abbrev pub Found : Tables → String → String → Option RegionLookup → Type 0
Found t province city none = Names t province city none
Found t province city (some l) =
    (r : RegionRow) × (grid : Option SubscribedGrid) × Names t province city (some r)
    × IsNearest t r.lv1 r.nx r.ny grid
    × Shows r r.nx r.ny grid l

serve_named-Found :
    (t : Tables) (province city : String) (row : Option RegionRow)
    → Names t province city row
    → Found t province city (serve_named (select_active_grids t) row)
serve_named-Found t province city none h = h
serve_named-Found t province city (some r) h =
    let grid = pick_serving_grid (select_active_grids t) r.lv1 r.nx r.ny in
    (r, grid, h, pick-IsNearest t r.lv1 r.nx r.ny, build-Shows r r.nx r.ny grid)

-- A search by name finds a row of the city itself before one of a place inside it, the smallest admin
-- code first; else a row of the whole province; else nothing. The result names that row's region and
-- has the cell and the forecast regions of the active grid of the row's province that is nearest to the
-- row's cell, the smallest number first; where the province has no active grid, the row's cell and no
-- forecast regions.
pub lookup_region_by_name-Found :
    (t : Tables) (province city : String)
    → Found t province city (lookup_region_by_name t province city)
unfolding lookup_region_by_name region_of_name
lookup_region_by_name-Found t province city =
    let row = first_ranked name_rank (in_city province city) t.region_grid in
    let whole = head_opt (filter_by (is_province province) t.region_grid) in
    serve_named-Found t province city (row_or row whole) (
      row_or-Names t province city row whole
        (first_ranked-IsFirst name_rank city_level (in_city province city) (IsIn province city)
          name_rank-level (in_city-Decides province city) t.region_grid)
        (head_opt-FirstOf (filter_by (is_province province) t.region_grid)))
