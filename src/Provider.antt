-- ===== src/Provider.antt =====
-- `KMAClient` of app/clients/hub_clients.py. Here are its answers and `_check`; the child modules have
-- the calls. The transport is a parameter of those, which answers a request.
pub mod Client
pub mod Repeats
pub mod Pages
pub mod Requests
use map_service_hub.Base.{
  ℕ, zero, suc, ◌+◌, ◌-◌, ◌*◌, ◌^◌, Bool, true, false, not, ◌&&◌, ◌||◌, List, [], ◌∷◌, ◌++◌, Option,
  none, some, String, ◌==◌, str_eq, if◌then◌else◌, leb, ltb, length, all_by, any_by, is_empty,
}
use map_service_hub.Base.Int.{ℤ, pos, negsuc}
use map_service_hub.Base.Json.{
  Json, null, bool, int, float, str, list, dict, Items, nil, cons, Fields, end, field, get,
}
use map_service_hub.Kma.{Text, codes}

-- `KMAApiError` by its code, and the TypeError of a key that no set takes
pub data Problem : Type 0 where
  transport : Problem
  http : ℕ → Problem
  non_json invalid_envelope invalid_items : Problem
  provider : String → Problem
  empty_items invalid_total duplicate_items truncated_items type_error : Problem

pub data Fetched (A : Type 0) : Type 0 where
  ok : A → Fetched A
  error : Problem → Fetched A

-- an answer of the transport: an httpx.HTTPError, or a status with what `r.json()` reads
pub data Reply (F : Type 0) : Type 0 where
  no_reply : Reply F
  reply : ℕ → Option (Json F) → Reply F

-- a GET by its endpoint and its parameters
pub data Request : Type 0 where
  short_page : ℕ → ℕ → Text → Text → ℕ → Request
  mid_land mid_temp : String → Text → Request
  nowcast : ℕ → ℕ → Text → Text → Request

-- equality of Python's numbers where a float is one of them, and `str.isdigit`
pub record Python (F : Type 0) : Type 0 where
  pub float_eq : F → F → Bool
  pub float_is : F → ℤ → Bool
  pub show : Json F → String
  pub is_digit : String → Bool

abbrev pub int_of : Bool → ℤ
int_of false = pos 0
int_of true = pos 1

abbrev pub int_eq : ℤ → ℤ → Bool
int_eq (pos m) (pos n) = m == n
int_eq (negsuc m) (negsuc n) = m == n
int_eq _ _ = false

abbrev pub is_ascii_digit : ℕ → Bool
is_ascii_digit c = leb 48 c && leb c 57

-- the number of a text of digits
abbrev pub decimal_from : ℕ → Text → ℕ
decimal_from n [] = n
decimal_from n (c ∷ cs) = decimal_from (n * 10 + (c - 48)) cs

-- `re.fullmatch(r"[0-9]{1,10}", text)`, and `int` of a match
abbrev pub match_total : Text → Option ℕ
match_total t =
    if all_by is_ascii_digit t && (leb 1 (length t) && leb (length t) 10)
    then some (decimal_from 0 t)
    else none

-- the row count of `raw_total`; a natural number of at most ten digits matches
unfoldable pub total_of : {F : Type 0} → Json F → Option ℕ
total_of (int (pos n)) = if ltb n (10 ^ 10) then some n else none
total_of (str s) = match_total (codes s)
total_of _ = none

-- the dicts of a list, none where some element is not one
abbrev pub add_dict : {F : Type 0} → Json F → Option (List (Fields F)) → Option (List (Fields F))
add_dict (dict d) (some ds) = some (d ∷ ds)
add_dict _ _ = none

abbrev pub dicts : {F : Type 0} → Items F → Option (List (Fields F))
dicts nil = some []
dicts (cons v vs) = add_dict v (dicts vs)

-- `container.get("item", [])`
abbrev pub item_or_empty : {F : Type 0} → Fields F → Json F
item_or_empty end = list nil
item_or_empty (field k v r) = if str_eq k "item" then v else item_or_empty r

-- `body.get("items") or {}`, and its items: all but a dict give none
abbrev pub items_of : {F : Type 0} → Json F → Json F
items_of (dict container) = item_or_empty container
items_of _ = list nil

abbrev pub or_invalid : {A : Type 0} → Problem → Option A → Fetched A
or_invalid p none = error p
or_invalid p (some a) = ok a

abbrev pub normalized : {F : Type 0} → Json F → Fetched (List (Fields F))
normalized (dict d) = ok (d ∷ [])
normalized (list vs) = or_invalid invalid_items (dicts vs)
normalized _ = error invalid_items

abbrev pub dict_or : {F : Type 0} → Json F → Fetched (Fields F)
dict_or (dict d) = ok d
dict_or _ = error invalid_envelope

abbrev pub is_success : {F : Type 0} → Json F → Bool
is_success (str s) = str_eq s "00"
is_success _ = false

abbrev pub is_null : {F : Type 0} → Json F → Bool
is_null null = true
is_null _ = false

infixl 5 ◌>>=◌
abbrev pub ◌>>=◌ : {A B : Type 0} → Fetched A → (A → Fetched B) → Fetched B
error p >>= f = error p
ok a >>= f = f a

module _ {F : Type 0} (py : Python F) where
  -- the code that the error of a failed call carries
  abbrev pub provider_code : Json F → String
  provider_code code =
      let text = py.show code in
      if py.is_digit text && leb (length (codes text)) 3 then text else "PROVIDER_ERROR"

  abbrev pub unless_success : Json F → Fetched Bool
  unless_success code = if is_success code then ok true else error (provider (provider_code code))

  -- the body and the items of an envelope
  unfoldable pub check : Json F → Fetched (Fields F × List (Fields F))
  check data_ = do
    envelope ← dict_or data_
    response ← dict_or (get "response" envelope)
    header ← dict_or (get "header" response)
    passed ← unless_success (get "resultCode" header)
    body ← dict_or (get "body" response)
    items ← normalized (items_of (get "items" body))
    ok (body, items)
