-- ===== src/Polling/Short/Loaded.antt =====
-- What the short-term loop leaves in the table where it returns with nothing left.
use map_service_hub.Base.{
  ℕ, ◌≡◌, ◌≤◌, inl, inr, refl, ap, ◌∙◌, Bool, true, Option, none, some, List, [], ◌∷◌, arith, leb,
  if◌then◌else◌, if-cases, is_empty, ◌||◌, ltb, ◌+◌, In, All, String,
}
use map_service_hub.Weather.Rows.{Category, midnight}
use map_service_hub.Store.{ShortStored, Tables}
use map_service_hub.Store.Grids.{select_active_grids}
use map_service_hub.Store.Short.Refinement.{same_key_cell}
use map_service_hub.Base.Json.{Json, Fields, get}
use map_service_hub.Kma.{Calendar}
use map_service_hub.Polling.{stored_some}
use map_service_hub.Store.Short.{
  Membership, known, unknown, type_error, category_of, fcst_at_of, append_row,
  short_term_expires_at, short_ttl, collect_item, rows_of_items, store_rows,
  upsert_short_term_items, same_key, upsert_row, upsert_rows,
}

-- the table has a forecast of the publication, or of a later one, for the cell
abbrev pub HasForecast : ℕ → ℕ → ℕ → List ShortStored → Type 0
HasForecast base_at nx ny table =
    (r : ShortStored) × In r table × (r.nx ≡ nx) × (r.ny ≡ ny) × (base_at ≤ r.base_at)

upsert_row-HasForecast :
    (base_at nx ny : ℕ) (new : ShortStored) (table : List ShortStored)
    → HasForecast base_at nx ny table
    → HasForecast base_at nx ny (upsert_row new table)
unfolding upsert_row
upsert_row-HasForecast base_at nx ny new [] (r, i, x, y, b) = elim i [ ]
upsert_row-HasForecast base_at nx ny new (s ∷ rows) (r, i, x, y, b) =
    if-cases (HasForecast base_at nx ny) (same_key s new)
      ((if leb s.base_at new.base_at then new else s) ∷ rows) (s ∷ upsert_row new rows)
      (λ e.
        if-cases (λ kept. HasForecast base_at nx ny (kept ∷ rows)) (leb s.base_at new.base_at) new s
          (λ newer.
            let cell = same_key_cell s new e in
            elim i [
              | inl q ↦
                  let qx = ap (λ (z : ShortStored). z.nx) q in
                  let qy = ap (λ (z : ShortStored). z.ny) q in
                  let qb = ap (λ (z : ShortStored). z.base_at) q in
                  (new, inl refl, omega arith, omega arith, ground arith)
              | inr j ↦ (r, inr j, x, y, b)
            ])
          (λ _. (r, i, x, y, b)))
      (λ e. elim i [
        | inl q ↦ (r, inl q, x, y, b)
        | inr j ↦
            let (r', i', x', y', b') =
              upsert_row-HasForecast base_at nx ny new rows (r, j, x, y, b) in
            (r', inr i', x', y', b')
      ])

-- the row itself, or a later one of its key, is in the table after it
upsert_row-adds :
    (new : ShortStored) (table : List ShortStored)
    → HasForecast new.base_at new.nx new.ny (upsert_row new table)
unfolding upsert_row
upsert_row-adds new [] = (new, inl refl, refl, refl, omega arith)
upsert_row-adds new (s ∷ rows) =
    if-cases (HasForecast new.base_at new.nx new.ny) (same_key s new)
      ((if leb s.base_at new.base_at then new else s) ∷ rows) (s ∷ upsert_row new rows)
      (λ e.
        let cell = same_key_cell s new e in
        if-cases (λ kept. HasForecast new.base_at new.nx new.ny (kept ∷ rows))
          (leb s.base_at new.base_at) new s (λ _. (new, inl refl, refl, refl, omega arith))
          (λ older. (s, inl refl, cell.0, cell.1, ground arith)))
      (λ _. let (r, i, x, y, b) = upsert_row-adds new rows in (r, inr i, x, y, b))

upsert_rows-HasForecast :
    (base_at nx ny : ℕ) (news table : List ShortStored)
    → HasForecast base_at nx ny table
    → HasForecast base_at nx ny (upsert_rows news table)
unfolding upsert_rows
upsert_rows-HasForecast base_at nx ny [] table h = h
upsert_rows-HasForecast base_at nx ny (new ∷ news) table h =
    upsert_rows-HasForecast base_at nx ny news (upsert_row new table)
      (upsert_row-HasForecast base_at nx ny new table h)

abbrev IsFor : ℕ → ℕ → ℕ → ShortStored → Type 0
IsFor base_at nx ny r = (r.nx ≡ nx) × (r.ny ≡ ny) × (r.base_at ≡ base_at)

upsert_rows-adds :
    {base_at nx ny : ℕ} (new : ShortStored) (news table : List ShortStored)
    → IsFor base_at nx ny new
    → HasForecast base_at nx ny (upsert_rows (new ∷ news) table)
unfolding upsert_rows
upsert_rows-adds {base_at} {nx} {ny} new news table (x, y, b) =
    let (r, i, rx, ry, rb) =
      upsert_rows-HasForecast new.base_at new.nx new.ny news (upsert_row new table)
        (upsert_row-adds new table) in
    (r, i, rx ∙ x, ry ∙ y, omega arith)

abbrev AreFor : ℕ → ℕ → ℕ → Option (List ShortStored) → Type 0
AreFor base_at nx ny none = Unit
AreFor base_at nx ny (some rows) = All (IsFor base_at nx ny) rows

-- What storing does to the tables, whether it raises or not.
pub record Writes (base_at nx ny : ℕ) (t : Tables) (result : Bool × Tables) : Type 0 where
  pub grids : select_active_grids result.1 ≡ select_active_grids t
  pub kept : (b x y : ℕ) → HasForecast b x y t.short_term → HasForecast b x y result.1.short_term
  pub done : result.0 ≡ true → HasForecast base_at nx ny result.1.short_term

module _ {F : Type 0} (cal : Calendar) (show : Json F → String) (nx ny base_at now : ℕ) where
  append_row-AreFor :
      (it : Fields F) (c : Category) (at : ℕ) (e : Option ℕ) (o : Option (List ShortStored))
      → AreFor base_at nx ny o
      → AreFor base_at nx ny (append_row cal show nx ny base_at now it c at e o)
  append_row-AreFor it c at none o h = tt
  append_row-AreFor it c at (some e) none h = h
  append_row-AreFor it c at (some e) (some rows) h = ((refl, refl, refl), h)

  collect_item-AreFor :
      (it : Fields F) (m : Membership) (at : Option ℕ) (o : Option (List ShortStored))
      → AreFor base_at nx ny o
      → AreFor base_at nx ny (collect_item cal show nx ny base_at now it m at o)
  collect_item-AreFor it type_error at o h = tt
  collect_item-AreFor it unknown at o h = h
  collect_item-AreFor it (known c) none o h = h
  collect_item-AreFor it (known c) (some a) o h =
      append_row-AreFor it c a (short_term_expires_at cal c a (base_at + short_ttl)) o h

  rows_of_items-AreFor :
      (items : List (Fields F))
      → AreFor base_at nx ny (rows_of_items cal show nx ny base_at now items)
  unfolding rows_of_items
  rows_of_items-AreFor [] = tt
  rows_of_items-AreFor (it ∷ items) =
      collect_item-AreFor it (category_of (get "category" it))
        (fcst_at_of cal show (get "fcstDate" it) (get "fcstTime" it))
        (rows_of_items cal show nx ny base_at now items) (rows_of_items-AreFor items)

  store_rows-Writes :
      (t : Tables) (o : Option (List ShortStored))
      → AreFor base_at nx ny o
      → Writes base_at nx ny t (stored_some t (store_rows cal show t o))
  unfolding select_active_grids
  store_rows-Writes t none h = record {
    grids = refl;
    kept = λ b x y k. k;
    done = λ e. ground arith;
  }
  store_rows-Writes t (some []) h = record {
    grids = refl;
    kept = λ b x y k. upsert_rows-HasForecast b x y [] t.short_term k;
    done = λ e. ground arith;
  }
  store_rows-Writes t (some (new ∷ news)) h = record {
    grids = refl;
    kept = λ b x y k. upsert_rows-HasForecast b x y (new ∷ news) t.short_term k;
    done = λ e. upsert_rows-adds new news t.short_term h.0;
  }

  pub upsert-Writes :
      (t : Tables) (items : List (Fields F))
      → Writes base_at nx ny t
          (stored_some t (upsert_short_term_items cal show t nx ny base_at now items))
  unfolding upsert_short_term_items
  upsert-Writes t items =
      if-cases (λ o. Writes base_at nx ny t (stored_some t (store_rows cal show t o)))
        (is_empty items || ltb (base_at + short_ttl) (midnight (cal.last_day + 1)))
        (rows_of_items cal show nx ny base_at now items) none
        (λ _.
          store_rows-Writes t (rows_of_items cal show nx ny base_at now items)
            (rows_of_items-AreFor items))
        (λ _. store_rows-Writes t none tt)
