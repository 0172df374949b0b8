-- ===== src/Store/Short.antt =====
-- The short-term forecasts of app/db/forecast_repo.py: `_short_term_expires_at`,
-- `upsert_short_term_items`, `fetch_short_term_range`, `loaded_short_term_grids`. An item of the agency
-- is a dictionary of JSON values; Python's `str` of a value is the parameter `show`.
pub mod Refinement
pub mod Upsert
pub mod Fetch
use map_service_hub.Base.{
  ℕ, zero, suc, ◌+◌, ◌*◌, Bool, true, false, ◌&&◌, ◌||◌, Option, none, some, List, [], ◌∷◌, map,
  String, str_eq, ◌==◌, ltb, leb, if◌then◌else◌, filter_by, length, is_empty, any_by,
}
use map_service_hub.Base.Json.{Json, null, bool, int, float, str, list, dict, Fields, get}
use map_service_hub.Base.Order.{order_by}
use map_service_hub.Kma.{Calendar, parse_kma_fcst_at, codes, day_of}
use map_service_hub.Weather.Rows.{
  Category, pcp, pop, pty, reh, sky, sno, tmn, tmp, tmx, uuu, vec, vvv, wav, wsd, rank,
  same_category, ShortRow, midnight, hour_us,
}
use map_service_hub.Weather.Item.{later, choose_of}
use map_service_hub.Store.{ShortStored, Tables}

-- `_SHORT_TTL`
abbrev pub short_ttl : ℕ
short_ttl = 6 * hour_us

-- the names of `_SHORT_TERM_CATEGORIES`
abbrev pub category_names : List (String × Category)
category_names =
    ("PCP", pcp)
    ∷ ("POP", pop)
    ∷ ("PTY", pty)
    ∷ ("REH", reh)
    ∷ ("SKY", sky)
    ∷ ("SNO", sno)
    ∷ ("TMN", tmn)
    ∷ ("TMP", tmp)
    ∷ ("TMX", tmx)
    ∷ ("UUU", uuu)
    ∷ ("VEC", vec)
    ∷ ("VVV", vvv)
    ∷ ("WAV", wav)
    ∷ ("WSD", wsd)
    ∷ []

abbrev pub name_in : List (String × Category) → String → Option Category
name_in [] s = none
name_in ((name, c) ∷ names) s = if str_eq name s then some c else name_in names s

-- `category not in _SHORT_TERM_CATEGORIES`: a list or a dictionary has no hash
pub data Membership : Type 0 where
  known : Category → Membership
  unknown : Membership
  type_error : Membership

abbrev pub known_or : Option Category → Membership
known_or none = unknown
known_or (some c) = known c

abbrev pub category_of : {F : Type 0} → Json F → Membership
category_of (str s) = known_or (name_in category_names s)
category_of (list xs) = type_error
category_of (dict d) = type_error
category_of _ = unknown

abbrev pub is_extreme : Category → Bool
is_extreme c = same_category c tmn || same_category c tmx

-- `_short_term_expires_at`: the day after the last one of the calendar raises an OverflowError, none
unfoldable pub short_term_expires_at : Calendar → Category → ℕ → ℕ → Option ℕ
short_term_expires_at cal category fcst_at default_expires_at =
    if is_extreme category
    then (if ltb (day_of fcst_at) cal.last_day
        then some (later default_expires_at (midnight (day_of fcst_at + 1)))
        else none)
    else some default_expires_at

-- a row to insert; `updated_at` is the `now()` of the statement
abbrev pub row_of : ℕ → ℕ → ℕ → ℕ → Category → ℕ → ℕ → String → ShortStored
row_of nx ny base_at now category fcst_at expires_at value = record {
  nx = nx;
  ny = ny;
  fcst_at = fcst_at;
  category = category;
  base_at = base_at;
  fcst_value = value;
  expires_at = expires_at;
  updated_at = now;
}

unfoldable pub same_key : ShortStored → ShortStored → Bool
same_key a b =
    (a.nx == b.nx)
    && ((a.ny == b.ny) && ((a.fcst_at == b.fcst_at) && same_category a.category b.category))

-- INSERT … ON CONFLICT DO UPDATE … WHERE EXCLUDED.base_at >= short_term_forecast.base_at
unfoldable pub upsert_row : ShortStored → List ShortStored → List ShortStored
upsert_row new [] = new ∷ []
upsert_row new (r ∷ rs) =
    let rest = upsert_row new rs in
    if same_key r new then (if leb r.base_at new.base_at then new else r) ∷ rs else r ∷ rest

-- the statement for each row in turn
unfoldable pub upsert_rows : List ShortStored → List ShortStored → List ShortStored
upsert_rows [] table = table
upsert_rows (new ∷ news) table = upsert_rows news (upsert_row new table)

abbrev pub with_short : Tables → List ShortStored → Tables
with_short t rows = record {
  region_grid = t.region_grid;
  subscribed_grids = t.subscribed_grids;
  short_term = rows;
  mid_land = t.mid_land;
  mid_temp = t.mid_temp;
  nowcast = t.nowcast;
  air = t.air;
}

module _ {F : Type 0} (cal : Calendar) (show : Json F → String) where
  -- a date and a time that are not texts raise a TypeError inside the `try`
  abbrev pub fcst_at_of : Json F → Json F → Option ℕ
  fcst_at_of (str d) (str h) = parse_kma_fcst_at cal (codes d) (codes h)
  fcst_at_of _ _ = none

  -- the row of an item, where its time of expiry could be computed
  abbrev pub append_row :
      ℕ
      → ℕ
      → ℕ
      → ℕ
      → Fields F
      → Category
      → ℕ
      → Option ℕ
      → Option (List ShortStored)
      → Option (List ShortStored)
  append_row nx ny base_at now it c fcst_at none rows = none
  append_row nx ny base_at now it c fcst_at (some expires_at) none = none
  append_row nx ny base_at now it c fcst_at (some expires_at) (some rows) =
      some (row_of nx ny base_at now c fcst_at expires_at (show (get "fcstValue" it)) ∷ rows)

  -- an item that is not accepted is skipped
  abbrev pub collect_item :
      ℕ
      → ℕ
      → ℕ
      → ℕ
      → Fields F
      → Membership
      → Option ℕ
      → Option (List ShortStored)
      → Option (List ShortStored)
  collect_item nx ny base_at now it type_error fcst_at rows = none
  collect_item nx ny base_at now it unknown fcst_at rows = rows
  collect_item nx ny base_at now it (known c) none rows = rows
  collect_item nx ny base_at now it (known c) (some fcst_at) rows =
      append_row nx ny base_at now it c fcst_at
        (short_term_expires_at cal c fcst_at (base_at + short_ttl)) rows

  -- the loop over the items; none is a TypeError or an OverflowError
  unfoldable pub rows_of_items : ℕ → ℕ → ℕ → ℕ → List (Fields F) → Option (List ShortStored)
  rows_of_items nx ny base_at now [] = some []
  rows_of_items nx ny base_at now (it ∷ items) =
      collect_item nx ny base_at now it (category_of (get "category" it))
        (fcst_at_of (get "fcstDate" it) (get "fcstTime" it)) (rows_of_items nx ny base_at now items)

  -- Before the loop, `base_at + _SHORT_TTL` raises where the calendar ends before it.
  abbrev pub rows_to_store : ℕ → ℕ → ℕ → ℕ → List (Fields F) → Option (List ShortStored)
  rows_to_store nx ny base_at now items =
      if is_empty items || ltb (base_at + short_ttl) (midnight (cal.last_day + 1))
      then rows_of_items nx ny base_at now items
      else none

  abbrev pub store_rows : Tables → Option (List ShortStored) → Option (Tables × ℕ)
  store_rows t none = none
  store_rows t (some rows) = some (with_short t (upsert_rows rows t.short_term), length rows)

  unfoldable pub upsert_short_term_items :
      Tables → ℕ → ℕ → ℕ → ℕ → List (Fields F) → Option (Tables × ℕ)
  upsert_short_term_items t nx ny base_at now items =
      store_rows t (rows_to_store nx ny base_at now items)

abbrev pub short_row_of : ShortStored → ShortRow
short_row_of r = record {
  date = day_of r.fcst_at;
  category = r.category;
  fcst_value = r.fcst_value;
  fcst_at = r.fcst_at;
  base_at = r.base_at;
  updated_at = r.updated_at;
  expires_at = r.expires_at;
}

-- the WHERE of the range
abbrev pub is_selected : ℕ → ℕ → ℕ → ℕ → ℕ → ShortStored → Bool
is_selected now nx ny date_start date_end r =
    (r.nx == nx)
    && ((r.ny == ny)
        && (leb (midnight date_start) r.fcst_at
            && (ltb r.fcst_at (midnight (date_end + 1)) && ltb now r.expires_at)))

abbrev pub selected : Tables → ℕ → ℕ → ℕ → ℕ → ℕ → List ShortStored
selected t now nx ny date_start date_end =
    order_by (λ (r : ShortStored). r.fcst_at) (λ (r : ShortStored). rank r.category)
      (filter_by (is_selected now nx ny date_start date_end) t.short_term)

unfoldable pub fetch_short_term_range : Tables → ℕ → ℕ → ℕ → ℕ → ℕ → List ShortRow × Option ℕ
fetch_short_term_range t now nx ny date_start date_end =
    let rows = selected t now nx ny date_start date_end in
    (map short_row_of rows, choose_of later (map (λ (r : ShortStored). r.base_at) rows))

-- the set of grids whose rows of one publication are stored, as its test of membership
unfoldable pub loaded_short_term_grids : Tables → ℕ → ℕ → ℕ → Bool
loaded_short_term_grids t base_at nx ny =
    any_by (λ (r : ShortStored). (r.base_at == base_at) && ((r.nx == nx) && (r.ny == ny)))
      t.short_term
