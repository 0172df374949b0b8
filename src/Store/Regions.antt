-- ===== src/Store/Regions.antt =====
-- `build_region_lookup` and the two searches of a region in app/db/forecast_repo.py. `ORDER BY a, b`
-- is the stable sort by b and then by a. The fallback statement has no order; among several rows that
-- match it, the first of the table is taken.
pub mod Best
pub mod Lookup
use map_service_hub.Base.{
  ℕ, Bool, not, ◌&&◌, Option, none, some, List, [], ◌∷◌, map, String, str_eq, ◌==◌, if◌then◌else◌,
  filter_by, sort_by, head_opt, any_by,
}
use map_service_hub.Base.Order.{order_by}
use map_service_hub.Kma.{codes}
use map_service_hub.Weather.Rows.{RegionLookup}
use map_service_hub.Store.{SubscribedGrid, GridRow, RegionRow, Tables}
use map_service_hub.Store.Grids.{select_active_grids, pick_serving_grid, join_region}

abbrev pub build_region_lookup : ℕ → String → String → ℕ → ℕ → Option SubscribedGrid → RegionLookup
build_region_lookup admin_code lv1 lv2 nx ny (some grid) = record {
  admin_code = admin_code;
  lv1 = lv1;
  lv2 = lv2;
  nx = grid.nx;
  ny = grid.ny;
  mid_land_reg_id = some grid.mid_land_reg_id;
  mid_temp_reg_id = some grid.mid_temp_reg_id;
}
build_region_lookup admin_code lv1 lv2 nx ny none = record {
  admin_code = admin_code;
  lv1 = lv1;
  lv2 = lv2;
  nx = nx;
  ny = ny;
  mid_land_reg_id = none;
  mid_temp_reg_id = none;
}

-- `label NOT LIKE '% %'`
abbrev pub has_no_space : String → Bool
has_no_space label = not (any_by (λ c. c == 32) (codes label))

unfoldable pub load_sido_grids : Tables → List SubscribedGrid
load_sido_grids t =
    sort_by (λ (g : SubscribedGrid). g.grid_id)
      (map (join_region t.region_grid)
        (filter_by (λ (g : GridRow). g.is_active && has_no_space g.label) t.subscribed_grids))

abbrev pub admin_code_of : RegionRow → ℕ
admin_code_of r = r.admin_code

-- the first CASE
abbrev pub name_rank : RegionRow → ℕ
name_rank r = if str_eq r.lv3 "" then 0 else 1

-- the second CASE
abbrev pub grid_rank : RegionRow → ℕ
grid_rank r =
    if not (str_eq r.lv2 "") && str_eq r.lv3 "" then 0 else if not (str_eq r.lv2 "") then 1 else 2

abbrev pub in_city : String → String → RegionRow → Bool
in_city province city r = str_eq r.lv1 province && str_eq r.lv2 city

abbrev pub is_province : String → RegionRow → Bool
is_province province r = str_eq r.lv1 province && (str_eq r.lv2 "" && str_eq r.lv3 "")

abbrev pub on_grid : ℕ → ℕ → RegionRow → Bool
on_grid nx ny r = (r.nx == nx) && (r.ny == ny)

-- `WHERE p ORDER BY rank, admin_code LIMIT 1`
abbrev pub first_ranked : (RegionRow → ℕ) → (RegionRow → Bool) → List RegionRow → Option RegionRow
first_ranked rank p rows = head_opt (order_by rank admin_code_of (filter_by p rows))

abbrev pub row_or : Option RegionRow → Option RegionRow → Option RegionRow
row_or (some r) _ = some r
row_or none o = o

unfoldable pub region_of_name : Tables → String → String → Option RegionRow
region_of_name t province city =
    row_or (first_ranked name_rank (in_city province city) t.region_grid)
      (head_opt (filter_by (is_province province) t.region_grid))

abbrev pub serve_named : List SubscribedGrid → Option RegionRow → Option RegionLookup
serve_named grids none = none
serve_named grids (some row) = some (
    build_region_lookup row.admin_code row.lv1 row.lv2 row.nx row.ny
      (pick_serving_grid grids row.lv1 row.nx row.ny))

unfoldable pub lookup_region_by_name : Tables → String → String → Option RegionLookup
lookup_region_by_name t province city =
    serve_named (select_active_grids t) (region_of_name t province city)

-- the grid is the nearest to the requested point, whichever row names the region
abbrev pub serve_point : List SubscribedGrid → ℕ → ℕ → Option RegionRow → Option RegionLookup
serve_point grids nx ny none = none
serve_point grids nx ny (some row) = some (
    build_region_lookup row.admin_code row.lv1 row.lv2 nx ny
      (pick_serving_grid grids row.lv1 nx ny))

unfoldable pub lookup_region_by_grid : Tables → ℕ → ℕ → Option RegionLookup
lookup_region_by_grid t nx ny =
    serve_point (select_active_grids t) nx ny (first_ranked grid_rank (on_grid nx ny) t.region_grid)
