-- ===== src/Store/Short/Fetch.antt =====
-- What `fetch_short_term_range` reads from the table, and how long a stored row is read.
use mathlib.Core.Path.{subst}
use map_service_hub.Base.{
  ℕ, ◌+◌, ◌≡◌, ◌≤◌, ◌<◌, ◌⊎◌, inl, inr, true, Option, some, List, map, String, arith, refl, sym,
  filter_by, In, In-map, In-filter_by, In-filter_by_of,
}
use map_service_hub.Base.Order.{IsOrdered, order_by-IsOrdered, In-order_by, In-order_by_of}
use map_service_hub.Kma.{Calendar, day_of}
use map_service_hub.Weather.Rows.{Category, rank, midnight, ShortRow}
use map_service_hub.Store.{ShortStored, Tables}
use map_service_hub.Store.Greatest.{IsGreatest, choose_of-IsGreatest}
use map_service_hub.Store.Short.Refinement.{NoOlder, stored, upsert_row-In}
use map_service_hub.Store.Short.{
  is_selected, selected, fetch_short_term_range, short_row_of, short_term_expires_at, row_of,
  is_extreme, short_ttl, with_short, upsert_row,
}

-- the times and the place of a row that is read
pub record IsRead (now nx ny date_start date_end : ℕ) (r : ShortStored) : Type 0 where
  pub on_grid : (r.nx ≡ nx) × (r.ny ≡ ny)
  pub in_range : (date_start ≤ day_of r.fcst_at) × (day_of r.fcst_at ≤ date_end)
  pub live : now < r.expires_at

IsRead-of :
    (now nx ny date_start date_end : ℕ) (r : ShortStored)
    → is_selected now nx ny date_start date_end r ≡ true
    → IsRead now nx ny date_start date_end r
IsRead-of now nx ny a b r h = record {
  on_grid = (ground arith, ground arith);
  in_range = (ground arith, ground arith);
  live = ground arith;
}

is_selected_of :
    (now nx ny date_start date_end : ℕ) (r : ShortStored)
    → IsRead now nx ny date_start date_end r
    → is_selected now nx ny date_start date_end r ≡ true
is_selected_of now nx ny a b r h = ground (arith, h.on_grid, h.in_range, h.live)

-- What a read promises: the rows of the table on the grid, in the range and not expired, all of them
-- and no other, in the order of the time and of the category's name, with the newest publication.
pub record Reads (t : Tables) (now nx ny date_start date_end : ℕ)
    (result : List ShortRow × Option ℕ) : Type 0 where
  pub rows : List ShortStored
  pub shown : result.0 ≡ map short_row_of rows
  pub sound :
      (r : ShortStored) → In r rows → In r t.short_term × IsRead now nx ny date_start date_end r
  pub complete :
      (r : ShortStored) → In r t.short_term → IsRead now nx ny date_start date_end r → In r rows
  pub ordered :
      IsOrdered (λ (r : ShortStored). r.fcst_at) (λ (r : ShortStored). rank r.category) rows
  pub newest : IsGreatest (λ (r : ShortStored). r.base_at) rows result.1

-- A read of a grid and of a range of days returns the rows of the table that have this grid, a
-- forecast time on one of these days and an expiry after the moment of the read, all of them and no
-- other, in the order of the forecast time and then of the category's name, and with them the newest
-- publication among them, or none where there is no row.
pub fetch_short_term_range-Reads :
    (t : Tables) (now nx ny date_start date_end : ℕ)
    → Reads t now nx ny date_start date_end (fetch_short_term_range t now nx ny date_start date_end)
unfolding fetch_short_term_range
fetch_short_term_range-Reads t now nx ny a b =
    let test = is_selected now nx ny a b in
    let time = λ (r : ShortStored). r.fcst_at in
    let name = λ (r : ShortStored). rank r.category in
    let kept = filter_by test t.short_term in
    record {
      rows = selected t now nx ny a b;
      shown = refl;
      sound = λ r i.
          let both = In-filter_by test r t.short_term (In-order_by time name r kept i) in
          (both.0, IsRead-of now nx ny a b r both.1);
      complete = λ r i h.
          In-order_by_of time name r kept
            (In-filter_by_of test r t.short_term i (is_selected_of now nx ny a b r h));
      ordered = order_by-IsOrdered time name kept;
      newest = choose_of-IsGreatest (λ (r : ShortStored). r.base_at) (selected t now nx ny a b);
    }

short_term_expires_at-after :
    (cal : Calendar) (c : Category) (fcst_at default_expires_at expires_at now : ℕ)
    → short_term_expires_at cal c fcst_at default_expires_at ≡ some expires_at
    → (now < default_expires_at) ⊎ ((is_extreme c ≡ true) × (now < midnight (day_of fcst_at + 1)))
    → now < expires_at
unfolding short_term_expires_at
short_term_expires_at-after cal c f d e now h (inl live) = ground arith
short_term_expires_at-after cal c f d e now h (inr (x, live)) = ground arith

-- A row that an upsert stores under the time of expiry that its rule gives, where the key has no row of
-- a later publication, is read back, on its grid and on its day, for six hours after its publication,
-- and a minimum or a maximum temperature for as long as the day of the forecast lasts.
pub upsert_row-read :
    (cal : Calendar) (t : Tables) (nx ny base_at stored_at fcst_at expires_at now : ℕ)
    (c : Category) (value : String)
    → short_term_expires_at cal c fcst_at (base_at + short_ttl) ≡ some expires_at
    → let row = row_of nx ny base_at stored_at c fcst_at expires_at value in
      NoOlder (stored row t.short_term) (some row)
      → (now < base_at + short_ttl)
        ⊎ ((is_extreme c ≡ true) × (now < midnight (day_of fcst_at + 1)))
      → In
          (short_row_of row)
          (fetch_short_term_range
            (with_short t (upsert_row row t.short_term))
            now
            nx
            ny
            (day_of fcst_at)
            (day_of fcst_at)).0
upsert_row-read cal t nx ny base_at stored_at fcst_at expires_at now c value e h live =
    let row = row_of nx ny base_at stored_at c fcst_at expires_at value in
    let u = with_short t (upsert_row row t.short_term) in
    let day = day_of fcst_at in
    let reads = fetch_short_term_range-Reads u now nx ny day day in
    let read : IsRead now nx ny day day row = record {
      on_grid = (refl, refl);
      in_range = (omega arith, omega arith);
      live = short_term_expires_at-after cal c fcst_at (base_at + short_ttl) expires_at now e live;
    } in
    subst (In (short_row_of row)) (sym reads.shown) (
      In-map short_row_of row reads.rows
        (reads.complete row (upsert_row-In row t.short_term h) read))
