-- ===== src/Provider/Client.antt =====
-- The calls of `KMAClient` of app/clients/hub_clients.py over a transport: `send` answers a request,
-- `pause` is the sleep after a 429.
use map_service_hub.Base.{
  ℕ, Bool, true, false, not, ◌&&◌, List, [], ◌∷◌, ◌++◌, Option, none, some, String, ◌==◌, str_eq,
  if◌then◌else◌, leb, length, all_by, any_by,
}
use map_service_hub.Base.Json.{Json, null, bool, int, float, str, list, dict, Fields, get}
use map_service_hub.Kma.{Text}
use map_service_hub.Provider.{
  transport, http, non_json, empty_items, invalid_total, duplicate_items, truncated_items,
  type_error, Fetched, ok, error, Reply, no_reply, reply, Request, short_page, mid_land, mid_temp,
  nowcast, Python, int_of, int_eq, total_of, or_invalid, is_null, ◌>>=◌, check,
}

module _ {F : Type 0} (py : Python F) where
  -- `==` of two values of a key of three; a list or a dict has no hash
  abbrev pub value_eq : Json F → Json F → Bool
  value_eq null null = true
  value_eq (bool a) (bool b) = int_eq (int_of a) (int_of b)
  value_eq (bool a) (int b) = int_eq (int_of a) b
  value_eq (bool a) (float b) = py.float_is b (int_of a)
  value_eq (int a) (bool b) = int_eq a (int_of b)
  value_eq (int a) (int b) = int_eq a b
  value_eq (int a) (float b) = py.float_is b a
  value_eq (float a) (bool b) = py.float_is a (int_of b)
  value_eq (float a) (int b) = py.float_is a b
  value_eq (float a) (float b) = py.float_eq a b
  value_eq (str a) (str b) = str_eq a b
  value_eq _ _ = false

  abbrev pub same_key : Fields F → Fields F → Bool
  same_key a b =
      value_eq (get "fcstDate" a) (get "fcstDate" b)
      && (value_eq (get "fcstTime" a) (get "fcstTime" b)
          && value_eq (get "category" a) (get "category" b))

  abbrev pub is_hashable : Json F → Bool
  is_hashable (list vs) = false
  is_hashable (dict d) = false
  is_hashable _ = true

  abbrev pub has_key : Fields F → Bool
  has_key it =
      is_hashable (get "fcstDate" it)
      && (is_hashable (get "fcstTime" it) && is_hashable (get "category" it))

  -- the set of the keys of the items, an item for each key
  abbrev pub keys : List (Fields F) → List (Fields F)
  keys [] = []
  keys (it ∷ items) = let rest = keys items in if any_by (same_key it) rest then rest else it ∷ rest

  -- the test for repeated rows at the end of an edition
  abbrev pub unrepeated : List (Fields F) → Fetched (List (Fields F))
  unrepeated items =
      if not (all_by has_key items)
      then error type_error
      else if length (keys items) == length items
      then ok items
      else error duplicate_items

  module _ {S : Type 0} (send : Request → S → Reply F × S) (pause : S → S) where
    abbrev pub read_reply : Reply F → Fetched (Json F)
    read_reply no_reply = error transport
    read_reply (reply status json) =
        if not (status == 200) then error (http status) else or_invalid non_json json

    -- at 429 the second answer, after a pause
    abbrev pub or_again : Request → Reply F → S → Fetched (Json F) × S
    or_again r no_reply s = (error transport, s)
    or_again r (reply status json) s =
        if status == 429
        then (let second = send r (pause s) in (read_reply second.0, second.1))
        else (read_reply (reply status json), s)

    -- `_get_json`
    unfoldable pub get_json : Request → S → Fetched (Json F) × S
    get_json r s = let first = send r s in or_again r first.0 first.1

    unfoldable pub answer : Request → S → Fetched (Fields F × List (Fields F)) × S
    answer r s = let got = get_json r s in (got.0 >>= check py, got.1)

    -- One page: its items join those before it. `again` is the rest of the loop.
    abbrev pub Rest : Type 0
    Rest = List (Fields F) → Option ℕ → S → Fetched (List (Fields F)) × S

    abbrev pub close_page : Rest → List (Fields F) → ℕ → S → Fetched (List (Fields F)) × S
    close_page again items total s =
        if not (leb total (length items))
        then again items (some total) s
        else if not (total == length items)
        then (error invalid_total, s)
        else (unrepeated items, s)

    abbrev pub agrees : Option ℕ → ℕ → Bool
    agrees none total = true
    agrees (some expected) total = total == expected

    abbrev pub with_total :
        Rest → List (Fields F) → Option ℕ → Option ℕ → S → Fetched (List (Fields F)) × S
    with_total again items expected none s = (error invalid_total, s)
    with_total again items expected (some total) s =
        if not (agrees expected total)
        then (error invalid_total, s)
        else close_page again items total s

    abbrev pub add_page :
        Rest
        → List (Fields F)
        → Option ℕ
        → Fetched (Fields F × List (Fields F))
        → S
        → Fetched (List (Fields F)) × S
    add_page again items expected (error p) s = (error p, s)
    add_page again items expected (ok (body, [])) s = (error empty_items, s)
    add_page again items expected (ok (body, it ∷ batch)) s =
        with_total again (items ++ (it ∷ batch)) expected (total_of (get "totalCount" body)) s

    unfoldable pub fetch_pages :
        (ℕ → Request) → List ℕ → List (Fields F) → Option ℕ → S → Fetched (List (Fields F)) × S
    fetch_pages request [] items expected s = (error truncated_items, s)
    fetch_pages request (page ∷ pages) items expected s =
        let got = answer (request page) s in
        add_page (fetch_pages request pages) items expected got.0 got.1

    -- `range(1, 6)`
    abbrev pub page_budget : List ℕ
    page_budget = 1 ∷ 2 ∷ 3 ∷ 4 ∷ 5 ∷ []

    unfoldable pub fetch_short_term : ℕ → ℕ → Text → Text → S → Fetched (List (Fields F)) × S
    fetch_short_term nx ny base_date base_time s =
        fetch_pages (short_page nx ny base_date base_time) page_budget [] none s

    abbrev pub first_item : Fields F × List (Fields F) → Fetched (Fields F)
    first_item (body, []) = error empty_items
    first_item (body, it ∷ items) = ok it

    unfoldable pub fetch_mid_land : String → Text → S → Fetched (Fields F) × S
    fetch_mid_land reg_id tm_fc s =
        let got = answer (mid_land reg_id tm_fc) s in (got.0 >>= first_item, got.1)

    unfoldable pub fetch_mid_temp : String → Text → S → Fetched (Fields F) × S
    fetch_mid_temp reg_id tm_fc s =
        let got = answer (mid_temp reg_id tm_fc) s in (got.0 >>= first_item, got.1)

    -- the value that the dict of observations has for a category: that of its last item
    abbrev pub or_this : String → Fields F → Option String → Option String
    or_this category it (some v) = some v
    or_this category it none =
        if not (is_null (get "category" it)) && str_eq (py.show (get "category" it)) category
        then some (py.show (get "obsrValue" it))
        else none

    abbrev pub observed : List (Fields F) → String → Option String
    observed [] category = none
    observed (it ∷ items) category = or_this category it (observed items category)

    abbrev pub observations : Fields F × List (Fields F) → Fetched (String → Option String)
    observations (body, []) = error empty_items
    observations (body, it ∷ items) = ok (observed (it ∷ items))

    unfoldable pub fetch_nowcast : ℕ → ℕ → Text → Text → S → Fetched (String → Option String) × S
    fetch_nowcast nx ny base_date base_time s =
        let got = answer (nowcast nx ny base_date base_time) s in (got.0 >>= observations, got.1)
