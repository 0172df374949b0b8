-- ===== src/Store/Short/Upsert.antt =====
-- What `upsert_short_term_items` stores, for every list of items.
use mathlib.Core.Path.{subst}
use mathlib.Core.Option.{some-injective}
use map_service_hub.Base.{
  ℕ, ◌+◌, ◌≡◌, Bool, true, false, ◌||◌, Option, none, some, List, [], ◌∷◌, map, String, arith, refl,
  sym, ap, ◌∙◌, length, any_by, somes, leb, if◌then◌else◌, Bool-cases, inl, inr,
}
use map_service_hub.Base.Json.{Json, null, bool, int, float, str, list, dict, Fields, get}
use map_service_hub.Kma.{Calendar, day_of}
use map_service_hub.Weather.Rows.{
  Category, pcp, pop, pty, reh, sky, sno, tmn, tmp, tmx, uuu, vec, vvv, wav, wsd, midnight,
}
use map_service_hub.Weather.Item.{later}
use map_service_hub.Store.{ShortStored, Tables}
use map_service_hub.Store.Short.{
  known_or, category_of, category_names, name_in, short_ttl, short_term_expires_at, fcst_at_of,
  append_row, collect_item, row_of, upsert_rows, rows_of_items, rows_to_store, store_rows,
  upsert_short_term_items, with_short,
}
use map_service_hub.Store.Short.Refinement.{
  stored, after, NoOlder, IsKeyed, upsert_rows-stored, after-NoOlder, upsert_rows-IsKeyed,
}

or_assoc : (a b c : Bool) → (a || b || c) ≡ ((a || b) || c)
or_assoc true b c = refl
or_assoc false b c = refl

-- a value that a set cannot hold
abbrev pub is_unhashable : {F : Type 0} → Json F → Bool
is_unhashable (list xs) = true
is_unhashable (dict d) = true
is_unhashable _ = false

-- the category that a value names
abbrev pub named : {F : Type 0} → Json F → Option Category
named (str s) = name_in category_names s
named _ = none

-- a daily temperature of the last day of the calendar
abbrev pub is_past_end : Calendar → Category → ℕ → Bool
is_past_end cal tmn fcst_at = leb cal.last_day (day_of fcst_at)
is_past_end cal tmx fcst_at = leb cal.last_day (day_of fcst_at)
is_past_end cal _ fcst_at = false

-- when a row expires: a daily temperature not before the end of its day
abbrev pub expiry_of : Category → ℕ → ℕ → ℕ
expiry_of tmn fcst_at expires_at = later expires_at (midnight (day_of fcst_at + 1))
expiry_of tmx fcst_at expires_at = later expires_at (midnight (day_of fcst_at + 1))
expiry_of _ fcst_at expires_at = expires_at

expires_lem :
    (cal : Calendar) (c : Category) (fcst_at expires_at : ℕ)
    → short_term_expires_at cal c fcst_at expires_at
      ≡ (if is_past_end cal c fcst_at then none else some (expiry_of c fcst_at expires_at))
unfolding short_term_expires_at
expires_lem cal pcp fcst_at expires_at = refl
expires_lem cal pop fcst_at expires_at = refl
expires_lem cal pty fcst_at expires_at = refl
expires_lem cal reh fcst_at expires_at = refl
expires_lem cal sky fcst_at expires_at = refl
expires_lem cal sno fcst_at expires_at = refl
expires_lem cal tmn fcst_at expires_at = ground arith
expires_lem cal tmp fcst_at expires_at = refl
expires_lem cal tmx fcst_at expires_at = ground arith
expires_lem cal uuu fcst_at expires_at = refl
expires_lem cal vec fcst_at expires_at = refl
expires_lem cal vvv fcst_at expires_at = refl
expires_lem cal wav fcst_at expires_at = refl
expires_lem cal wsd fcst_at expires_at = refl

module _ {F : Type 0} (cal : Calendar) (show : Json F → String) (nx ny base_at now : ℕ) where
  abbrev pub is_late : Option Category → Option ℕ → Bool
  is_late (some c) (some fcst_at) = is_past_end cal c fcst_at
  is_late _ _ = false

  -- a category that cannot be looked up, or a daily temperature of the calendar's last day
  abbrev pub raises : Fields F → Bool
  raises it =
      is_unhashable (get "category" it)
      || is_late (named (get "category" it))
          (fcst_at_of cal show (get "fcstDate" it) (get "fcstTime" it))

  -- the expiry of the publication does not fall within the calendar
  abbrev pub is_out_of_range : Bool
  is_out_of_range = leb (midnight (cal.last_day + 1)) (base_at + short_ttl)

  abbrev pub accepted_at : Fields F → Option Category → Option ℕ → Option ShortStored
  accepted_at it (some c) (some fcst_at) = some (
      row_of nx ny base_at now c fcst_at (expiry_of c fcst_at (base_at + short_ttl))
        (show (get "fcstValue" it)))
  accepted_at it _ _ = none

  -- the row of an item of a known category with a readable forecast time
  abbrev pub accepted : Fields F → Option ShortStored
  accepted it =
      accepted_at it (named (get "category" it))
        (fcst_at_of cal show (get "fcstDate" it) (get "fcstTime" it))

  abbrev pub call_raises : List (Fields F) → Bool
  call_raises [] = false
  call_raises (it ∷ items) = is_out_of_range || any_by raises (it ∷ items)

  -- What a call promises: where it does not raise, the rows of the accepted items reach the table in
  -- turn, and their number is returned.
  abbrev pub Stores : Tables → List (Fields F) → Option (Tables × ℕ) → Type 0
  Stores t items none = call_raises items ≡ true
  Stores t items (some (after_call, n)) =
      (call_raises items ≡ false)
      × (n ≡ length (somes (map accepted items)))
      × (after_call ≡ with_short t after_call.short_term)
      × ((k : ShortStored)
          → stored k after_call.short_term
            ≡ after k (somes (map accepted items)) (stored k t.short_term))

  abbrev rows_or_raise : Bool → List ShortStored → Option (List ShortStored)
  rows_or_raise true rows = none
  rows_or_raise false rows = some rows

  append_row-accepted :
      (it : Fields F) (c : Category) (at e : ℕ) (late b : Bool) (xs : List (Option ShortStored))
      → append_row cal show nx ny base_at now it c at
          (if late then none else some e)
          (rows_or_raise b (somes xs))
        ≡ rows_or_raise
            (late || b)
            (row_of nx ny base_at now c at e (show (get "fcstValue" it)) ∷ somes xs)
  append_row-accepted it c at e true b xs = refl
  append_row-accepted it c at e false true xs = refl
  append_row-accepted it c at e false false xs = refl

  -- an item by the category that its value names
  collect_named :
      (it : Fields F) (o : Option Category) (at : Option ℕ) (b : Bool)
      (xs : List (Option ShortStored))
      → collect_item cal show nx ny base_at now it (known_or o) at (rows_or_raise b (somes xs))
        ≡ rows_or_raise (is_late o at || b) (somes (accepted_at it o at ∷ xs))
  collect_named it none at b xs = refl
  collect_named it (some c) none b xs = refl
  collect_named it (some c) (some at) b xs =
      ap (λ e. append_row cal show nx ny base_at now it c at e (rows_or_raise b (somes xs)))
        (expires_lem cal c at (base_at + short_ttl))
      ∙ append_row-accepted it c at (expiry_of c at (base_at + short_ttl)) (is_past_end cal c at) b
          xs

  collect_item-accepted :
      (it : Fields F) (v : Json F) (at : Option ℕ) (b : Bool) (xs : List (Option ShortStored))
      → collect_item cal show nx ny base_at now it (category_of v) at (rows_or_raise b (somes xs))
        ≡ rows_or_raise
            (is_unhashable v || is_late (named v) at || b)
            (somes (accepted_at it (named v) at ∷ xs))
  collect_item-accepted it null at b xs = refl
  collect_item-accepted it (bool v) at b xs = refl
  collect_item-accepted it (int z) at b xs = refl
  collect_item-accepted it (float x) at b xs = refl
  collect_item-accepted it (str s) at b xs = collect_named it (name_in category_names s) at b xs
  collect_item-accepted it (list vs) at b xs = refl
  collect_item-accepted it (dict d) at b xs = refl

  rows_of_items_lem :
      (items : List (Fields F))
      → rows_of_items cal show nx ny base_at now items
        ≡ rows_or_raise (any_by raises items) (somes (map accepted items))
  unfolding rows_of_items
  rows_of_items_lem [] = refl
  rows_of_items_lem (it ∷ items) =
      let v = get "category" it in
      let at = fcst_at_of cal show (get "fcstDate" it) (get "fcstTime" it) in
      ap (collect_item cal show nx ny base_at now it (category_of v) at) (rows_of_items_lem items)
      ∙ collect_item-accepted it v at (any_by raises items) (map accepted items)
      ∙ ap (λ b. rows_or_raise b (somes (map accepted (it ∷ items))))
          (or_assoc (is_unhashable v) (is_late (named v) at) (any_by raises items))

  rows_to_store_lem :
      (items : List (Fields F))
      → rows_to_store cal show nx ny base_at now items
        ≡ rows_or_raise (call_raises items) (somes (map accepted items))
  rows_to_store_lem [] = rows_of_items_lem []
  rows_to_store_lem (it ∷ items) = elim (Bool-cases is_out_of_range) [
    | inl e ↦ ground arith
    | inr e ↦ rw e (ground (arith, rows_of_items_lem (it ∷ items)))
  ]

  store_rows-Stores :
      (t : Tables) (items : List (Fields F)) (b : Bool)
      → call_raises items ≡ b
      → Stores t items (store_rows cal show t (rows_or_raise b (somes (map accepted items))))
  store_rows-Stores t items true e = e
  store_rows-Stores t items false e =
      let rows = somes (map accepted items) in
      (e, refl, refl, λ k. upsert_rows-stored k rows t.short_term)

  -- A call with items raises, and then stores nothing, exactly where the expiry of the publication lies
  -- beyond the calendar, or the category of some item is a list or a dictionary, or some item is a daily
  -- minimum or maximum of the calendar's last day. Else it returns the number of items that have a known
  -- category and a readable forecast time, changes no other table, and leaves for each key the row that
  -- the rows of these items, one after the other, make of it, where a row replaces one that is not from
  -- a later publication.
  pub upsert_short_term_items-Stores :
      (t : Tables) (items : List (Fields F))
      → Stores t items (upsert_short_term_items cal show t nx ny base_at now items)
  unfolding upsert_short_term_items
  upsert_short_term_items-Stores t items =
      subst (λ o. Stores t items (store_rows cal show t o)) (sym (rows_to_store_lem items))
        (store_rows-Stores t items (call_raises items) refl)

  -- what an upsert keeps of a table
  abbrev Keeps : List ShortStored → List ShortStored → Type 0
  Keeps old new =
      ((k : ShortStored) → NoOlder (stored k old) (stored k new)) × (IsKeyed old → IsKeyed new)

  upsert_rows-Keeps : (rows table : List ShortStored) → Keeps table (upsert_rows rows table)
  upsert_rows-Keeps rows table = (
    λ k.
        subst (NoOlder (stored k table)) (sym (upsert_rows-stored k rows table))
          (after-NoOlder k rows (stored k table)),
    upsert_rows-IsKeyed rows table,
  )

  store_rows-Keeps :
      (t u : Tables) (n : ℕ) (o : Option (List ShortStored))
      → store_rows cal show t o ≡ some (u, n)
      → Keeps t.short_term u.short_term
  store_rows-Keeps t u n none h = ground arith
  store_rows-Keeps t u n (some rows) h =
      let stored_all : Tables × ℕ = (with_short t (upsert_rows rows t.short_term), length rows) in
      subst (λ (v : Tables). Keeps t.short_term v.short_term)
        (ap (λ (p : Tables × ℕ). p.0) (some-injective stored_all (u, n) h))
        (upsert_rows-Keeps rows t.short_term)

  -- After a call that stores, no key has a row of an older publication than it had, and the table still
  -- has at most one row for each primary key.
  pub upsert_short_term_items-NoOlder :
      (t after_call : Tables) (n : ℕ) (items : List (Fields F))
      → IsKeyed t.short_term
      → upsert_short_term_items cal show t nx ny base_at now items ≡ some (after_call, n)
      → ((k : ShortStored) → NoOlder (stored k t.short_term) (stored k after_call.short_term))
        × IsKeyed after_call.short_term
  unfolding upsert_short_term_items
  upsert_short_term_items-NoOlder t u n items one h =
      let keeps = store_rows-Keeps t u n (rows_to_store cal show nx ny base_at now items) h in
      (keeps.0, keeps.1 one)
