-- ===== src/Store/Regions/Best.antt =====
-- The row that the searches of app/db/forecast_repo.py take, by conditions on its names and its cell.
use map_service_hub.Base.{
  ℕ, ◌≡◌, ◌⊎◌, inl, inr, refl, Bool, true, false, Option, none, some, List, [], ◌∷◌, String, str_eq,
  eq_iff, head_opt, filter_by, In, In-All, In-filter_by, In-filter_by_of, arith, Bool-cases,
}
use map_service_hub.Base.Order.{
  Before, IsOrdered, order_by, order_by-IsOrdered, In-order_by, In-order_by_of,
}
use map_service_hub.Store.{RegionRow}
use map_service_hub.Store.Regions.{
  first_ranked, admin_code_of, grid_rank, name_rank, in_city, on_grid, is_province,
}

-- Whether a name of the second and of the third level is empty: a row is of a city itself, of a place
-- inside one, or of a province as a whole.
abbrev pub level_of : Bool → Bool → ℕ
level_of false true = 0
level_of false false = 1
level_of true _ = 2

-- The rows by which a point and a name are located, and what puts one of them before another.
abbrev pub IsAt : ℕ → ℕ → RegionRow → Type 0
IsAt nx ny r = (r.nx ≡ nx) × (r.ny ≡ ny)

abbrev pub IsIn : String → String → RegionRow → Type 0
IsIn province city r = (r.lv1 ≡ province) × (r.lv2 ≡ city)

abbrev pub IsWhole : String → RegionRow → Type 0
IsWhole province r = (r.lv1 ≡ province) × (r.lv2 ≡ "") × (r.lv3 ≡ "")

abbrev pub place_level : RegionRow → ℕ
place_level r = level_of (str_eq r.lv2 "") (str_eq r.lv3 "")

-- the city itself before the places inside it
abbrev pub detail_of : Bool → ℕ
detail_of true = 0
detail_of false = 1

abbrev pub city_level : RegionRow → ℕ
city_level r = detail_of (str_eq r.lv3 "")

-- A row that matches and that no other matching row comes before by level and then by admin code; no
-- row where none matches.
abbrev pub IsFirst :
    (RegionRow → ℕ) → (RegionRow → Type 0) → List RegionRow → Option RegionRow → Type 0
IsFirst level P rows none = (s : RegionRow) → In s rows → P s → ⊥
IsFirst level P rows (some r) =
    In r rows × P r × ((s : RegionRow) → In s rows → P s → (s ≡ r) ⊎ Before level admin_code_of r s)

-- a Boolean test of the rows decides a condition, and a rank of theirs is a level
pub record Decides (p : RegionRow → Bool) (P : RegionRow → Type 0) : Type 0 where
  pub sound : (r : RegionRow) → p r ≡ true → P r
  pub complete : (r : RegionRow) → P r → p r ≡ true

module _ (rank level : RegionRow → ℕ) (p : RegionRow → Bool) (P : RegionRow → Type 0)
    (same : (r : RegionRow) → rank r ≡ level r) (d : Decides p P) (rows : List RegionRow) where
  by_level : (r s : RegionRow) → Before rank admin_code_of r s → Before level admin_code_of r s
  by_level r s h = ground (arith, same r, same s)

  head-IsFirst :
      (ordered : List RegionRow)
      → IsOrdered rank admin_code_of ordered
      → ((s : RegionRow) → In s rows → p s ≡ true → In s ordered)
      → ((s : RegionRow) → In s ordered → In s rows × (p s ≡ true))
      → IsFirst level P rows (head_opt ordered)
  head-IsFirst [] o into from = λ s i e. into s i (d.complete s e)
  head-IsFirst (r ∷ rs) o into from =
      let here = from r (inl refl) in
      (
        here.0,
        d.sound r here.1,
        λ s i e. elim (into s i (d.complete s e)) [
          | inl q ↦ inl q
          | inr j ↦ inr (by_level r s (In-All (Before rank admin_code_of r) s rs o.0 j))
        ],
      )

  pub first_ranked-IsFirst : IsFirst level P rows (first_ranked rank p rows)
  first_ranked-IsFirst =
      let kept = filter_by p rows in
      head-IsFirst (order_by rank admin_code_of kept) (order_by-IsOrdered rank admin_code_of kept)
        (λ s i e. In-order_by_of rank admin_code_of s kept (In-filter_by_of p s rows i e))
        (λ s i. In-filter_by p s rows (In-order_by rank admin_code_of s kept i))

pub grid_rank-level : (r : RegionRow) → grid_rank r ≡ place_level r
grid_rank-level r = elim (Bool-cases (str_eq r.lv2 "")) [
  | inl e ↦ ground arith
  | inr e ↦ elim (Bool-cases (str_eq r.lv3 "")) [ inl f ↦ ground arith | inr f ↦ ground arith ]
]

pub name_rank-level : (r : RegionRow) → name_rank r ≡ city_level r
name_rank-level r = elim (Bool-cases (str_eq r.lv3 "")) [
  | inl f ↦ ground arith
  | inr f ↦ ground arith
]

pub on_grid-Decides : (nx ny : ℕ) → Decides (on_grid nx ny) (IsAt nx ny)
on_grid-Decides nx ny = record {
  sound = λ r e. (ground arith, ground arith);
  complete = λ r h. ground arith;
}

pub in_city-Decides :
    (province city : String) → Decides (in_city province city) (IsIn province city)
in_city-Decides province city = record {
  sound = λ r e. ((eq_iff r.lv1 province).0 (ground arith), (eq_iff r.lv2 city).0 (ground arith));
  complete = λ r h. ground (arith, (eq_iff r.lv1 province).1 h.0, (eq_iff r.lv2 city).1 h.1);
}

pub is_province-Decides : (province : String) → Decides (is_province province) (IsWhole province)
is_province-Decides province = record {
  sound = λ r e. (
    (eq_iff r.lv1 province).0 (ground arith),
    (eq_iff r.lv2 "").0 (ground arith),
    (eq_iff r.lv3 "").0 (ground arith),
  );
  complete = λ r h.
      ground
        (arith, (eq_iff r.lv1 province).1 h.0, (eq_iff r.lv2 "").1 h.1, (eq_iff r.lv3 "").1 h.2);
}
