-- ===== src/Store/Short/Refinement.antt =====
-- The table of short-term forecasts of app/db/forecast_repo.py as a map from its primary key to a row.
use map_service_hub.Base.{
  ℕ, ◌+◌, ◌≡◌, ◌≤◌, Bool, true, false, ◌&&◌, Option, none, some, List, [], ◌∷◌, arith, leb, ◌==◌,
  if◌then◌else◌, ==_iff, In, In-find_by, if-cases, is_none, count_by, find_by, refl, ap, ◌∙◌,
}
use map_service_hub.Weather.Rows.{same_category, rank}
use map_service_hub.Store.{ShortStored}
use map_service_hub.Store.Short.{same_key, upsert_row, upsert_rows}

-- the row of a key, which is given by a row that has it
abbrev pub stored : ShortStored → List ShortStored → Option ShortStored
stored k table = find_by (λ r. same_key r k) table

-- the row that stays when a new one comes to a key
abbrev pub newest : Option ShortStored → ShortStored → ShortStored
newest none new = new
newest (some old) new = if leb old.base_at new.base_at then new else old

-- the row of a key after the new rows
abbrev pub after : ShortStored → List ShortStored → Option ShortStored → Option ShortStored
after k [] o = o
after k (new ∷ news) o = after k news (if same_key new k then some (newest o new) else o)

and_parts : (a b : Bool) → (a && b) ≡ true → (a ≡ true) × (b ≡ true)
and_parts true b h = (refl, h)
and_parts false b h = (h, ground arith)

eq_of_test : (m n : ℕ) → (m == n) ≡ true → m ≡ n
eq_of_test m n h = (==_iff m n).0 h

same_key_trans : (a b c : ShortStored) → same_key a b ≡ true → same_key a c ≡ same_key b c
unfolding same_key
same_key_trans a b c h =
    let p =
      and_parts (a.nx == b.nx)
        ((a.ny == b.ny) && ((a.fcst_at == b.fcst_at) && same_category a.category b.category)) h in
    let q =
      and_parts (a.ny == b.ny) ((a.fcst_at == b.fcst_at) && same_category a.category b.category)
        p.1 in
    let r = and_parts (a.fcst_at == b.fcst_at) (same_category a.category b.category) q.1 in
    let nx = eq_of_test a.nx b.nx p.0 in
    let ny = eq_of_test a.ny b.ny q.0 in
    let at = eq_of_test a.fcst_at b.fcst_at r.0 in
    let cat = eq_of_test (rank a.category) (rank b.category) r.1 in cc

-- rows of one key are of one cell
pub same_key_cell : (a b : ShortStored) → same_key a b ≡ true → (a.nx ≡ b.nx) × (a.ny ≡ b.ny)
unfolding same_key
same_key_cell a b h =
    let p =
      and_parts (a.nx == b.nx)
        ((a.ny == b.ny) && ((a.fcst_at == b.fcst_at) && same_category a.category b.category)) h in
    let q =
      and_parts (a.ny == b.ny) ((a.fcst_at == b.fcst_at) && same_category a.category b.category)
        p.1 in
    (eq_of_test a.nx b.nx p.0, eq_of_test a.ny b.ny q.0)

==_comm : (m n : ℕ) → (m == n) ≡ (n == m)
==_comm m n = ground arith

==_refl : (n : ℕ) → (n == n) ≡ true
==_refl n = ground arith

same_key_sym : (a b : ShortStored) → same_key a b ≡ same_key b a
unfolding same_key
same_key_sym a b =
    let nx = ==_comm a.nx b.nx in
    let ny = ==_comm a.ny b.ny in
    let at = ==_comm a.fcst_at b.fcst_at in
    let cat = ==_comm (rank a.category) (rank b.category) in cc

same_key_right :
    (a b c : ShortStored) → same_key a c ≡ true → same_key b c ≡ true → same_key a b ≡ true
same_key_right a b c h k = same_key_trans a c b h ∙ same_key_sym c b ∙ k

upsert_row-stored :
    (k new : ShortStored) (table : List ShortStored)
    → stored k (upsert_row new table)
      ≡ (if same_key new k then some (newest (stored k table) new) else stored k table)
unfolding upsert_row
upsert_row-stored k new [] = refl
upsert_row-stored k new (r ∷ rs) =
    let goal =
      if same_key new k then some (newest (stored k (r ∷ rs)) new) else stored k (r ∷ rs) in
    let rest = upsert_row-stored k new rs in
    if-cases (λ ys. stored k ys ≡ goal) (same_key r new)
      ((if leb r.base_at new.base_at then new else r) ∷ rs) (r ∷ upsert_row new rs)
      (λ e.
        let same = same_key_trans r new k e in
        if-cases (λ x. stored k (x ∷ rs) ≡ goal) (leb r.base_at new.base_at) new r
          (λ f. ground arith) (λ f. ground arith))
      (λ e. let other = same_key_right r new k in ground arith)

upsert_row-count :
    (k new : ShortStored) (table : List ShortStored)
    → count_by (λ r. same_key r k) (upsert_row new table)
      ≡ (if same_key new k && is_none (stored k table) then 1 else 0)
        + count_by (λ r. same_key r k) table
unfolding upsert_row
upsert_row-count k new [] = ground arith
upsert_row-count k new (r ∷ rs) =
    let count_of = λ (ys : List ShortStored). count_by (λ r. same_key r k) ys in
    let goal =
      (if same_key new k && is_none (stored k (r ∷ rs)) then 1 else 0) + count_of (r ∷ rs) in
    let rest = upsert_row-count k new rs in
    if-cases (λ ys. count_of ys ≡ goal) (same_key r new)
      ((if leb r.base_at new.base_at then new else r) ∷ rs) (r ∷ upsert_row new rs)
      (λ e.
        let same = same_key_trans r new k e in
        if-cases (λ x. count_of (x ∷ rs) ≡ goal) (leb r.base_at new.base_at) new r
          (λ f. ground arith) (λ f. ground arith))
      (λ e. let other = same_key_right r new k in ground arith)

stored-count :
    (k : ShortStored) (table : List ShortStored)
    → is_none (stored k table) ≡ true
    → count_by (λ r. same_key r k) table ≡ 0
stored-count k [] h = refl
stored-count k (r ∷ rs) h = ground (arith, stored-count k rs)

pub upsert_rows-stored :
    (k : ShortStored) (news table : List ShortStored)
    → stored k (upsert_rows news table) ≡ after k news (stored k table)
unfolding upsert_rows
upsert_rows-stored k [] table = refl
upsert_rows-stored k (new ∷ news) table =
    upsert_rows-stored k news (upsert_row new table)
    ∙ ap (after k news) (upsert_row-stored k new table)

-- no row of the key, or a row that is not from an older publication
abbrev pub NoOlder : Option ShortStored → Option ShortStored → Type 0
NoOlder none o = Unit
NoOlder (some a) none = ⊥
NoOlder (some a) (some b) = a.base_at ≤ b.base_at

NoOlder-refl : (o : Option ShortStored) → NoOlder o o
NoOlder-refl none = tt
NoOlder-refl (some a) = omega arith

NoOlder-trans : (a b c : Option ShortStored) → NoOlder a b → NoOlder b c → NoOlder a c
NoOlder-trans none b c h k = tt
NoOlder-trans (some a) none c h k = elim h [ ]
NoOlder-trans (some a) (some b) none h k = elim k [ ]
NoOlder-trans (some a) (some b) (some c) h k = omega arith

newest-NoOlder : (o : Option ShortStored) (new : ShortStored) → NoOlder o (some (newest o new))
newest-NoOlder none new = tt
newest-NoOlder (some old) new = ground arith

pub after-NoOlder :
    (k : ShortStored) (news : List ShortStored) (o : Option ShortStored)
    → NoOlder o (after k news o)
after-NoOlder k [] o = NoOlder-refl o
after-NoOlder k (new ∷ news) o =
    let next = if same_key new k then some (newest o new) else o in
    NoOlder-trans o next (after k news next)
      (if-cases (NoOlder o) (same_key new k) (some (newest o new)) o (λ _. newest-NoOlder o new)
        (λ _. NoOlder-refl o))
      (after-NoOlder k news next)

newest-same :
    (o : Option ShortStored) (new : ShortStored) → NoOlder o (some new) → newest o new ≡ new
newest-same none new h = refl
newest-same (some old) new h =
    if-cases (λ x. x ≡ new) (leb old.base_at new.base_at) new old (λ _. refl) (λ e. ground arith)

same_key_refl : (a : ShortStored) → same_key a a ≡ true
unfolding same_key
same_key_refl a =
    let nx = ==_refl a.nx in
    let ny = ==_refl a.ny in
    let at = ==_refl a.fcst_at in let cat = ==_refl (rank a.category) in ground arith

-- a row that comes after no newer one of its key is in the table
pub upsert_row-In :
    (new : ShortStored) (table : List ShortStored)
    → NoOlder (stored new table) (some new)
    → In new (upsert_row new table)
upsert_row-In new table h =
    In-find_by (λ r. same_key r new) new (upsert_row new table)
      (upsert_row-stored new new table
        ∙ ap (λ b. if b then some (newest (stored new table) new) else stored new table)
            (same_key_refl new)
        ∙ ap some (newest-same (stored new table) new h))

-- the primary key: no two rows have the same
abbrev pub IsKeyed : List ShortStored → Type 0
IsKeyed table = (k : ShortStored) → count_by (λ r. same_key r k) table ≤ 1

upsert_row-IsKeyed :
    (new : ShortStored) (table : List ShortStored) → IsKeyed table → IsKeyed (upsert_row new table)
upsert_row-IsKeyed new table h k =
    ground (arith, h k, upsert_row-count k new table, stored-count k table)

pub upsert_rows-IsKeyed :
    (news table : List ShortStored) → IsKeyed table → IsKeyed (upsert_rows news table)
unfolding upsert_rows
upsert_rows-IsKeyed [] table h = h
upsert_rows-IsKeyed (new ∷ news) table h =
    upsert_rows-IsKeyed news (upsert_row new table) (upsert_row-IsKeyed new table h)
