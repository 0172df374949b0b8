-- ===== src/Sealing/Params.antt =====
-- The locations of requests in app/routers/location_params.py: sealed where a key is configured, else
-- as plain values. A refusal is the answer 400.
pub mod Chain
pub mod Sealed
use map_service_hub.Base.{
  ℕ, zero, suc, ◌+◌, Bool, true, false, not, ◌&&◌, ◌||◌, List, [], ◌∷◌, Option, none, some, String,
  if◌then◌else◌, leb, is_empty,
}
use map_service_hub.Base.Int.{ℤ, pos, negsuc}
use map_service_hub.Base.Json.{
  Json, null, bool, int, float, str, list, dict, Items, nil, cons, Fields, get, Floats,
}
use map_service_hub.Kma.{Text}
use map_service_hub.Provider.{int_of}
use map_service_hub.Sealing.{Wire, Opened, opened, seal_error, escaped, open_seal}

pub data Resolved (A : Type 0) : Type 0 where
  resolved : A → Resolved A
  rejected : Resolved A
  broken : Resolved A

infixl 5 ◌>>=◌
abbrev pub ◌>>=◌ : {A B : Type 0} → Resolved A → (A → Resolved B) → Resolved B
resolved a >>= f = f a
rejected >>= f = rejected
broken >>= f = broken

abbrev pub given : {A : Type 0} → Option A → Resolved A
given none = rejected
given (some a) = resolved a

abbrev pub or_broken : {A : Type 0} → Option A → Resolved A
or_broken none = broken
or_broken (some a) = resolved a

-- the payload, a SealError being a refusal
abbrev pub payload_of : {F : Type 0} → Opened F → Resolved (Fields F)
payload_of (opened payload) = resolved payload
payload_of seal_error = rejected
payload_of escaped = broken

-- a point as latitude and longitude
pub record Point (F : Type 0) : Type 0 where
  pub lat : F
  pub lng : F

abbrev pub items_length : {F : Type 0} → Items F → ℕ
items_length nil = 0
items_length (cons v vs) = suc (items_length vs)

abbrev pub list_of : {F : Type 0} → Json F → Resolved (Items F)
list_of (list vs) = resolved vs
list_of _ = rejected

abbrev pub dict_of : {F : Type 0} → Json F → Resolved (Fields F)
dict_of (dict d) = resolved d
dict_of _ = rejected

module _ {F : Type 0} (fl : Floats F) (wire : Wire F) where
  abbrev pub in_korea : Point F → Bool
  in_korea p =
      (fl.le (fl.lit (pos 33)) p.lat && fl.le p.lat (fl.lit (pos 43)))
      && (fl.le (fl.lit (pos 124)) p.lng && fl.le p.lng (fl.lit (pos 132)))

  -- `float(value)` of a number; one too large for a float is an OverflowError
  abbrev pub number_of : Json F → Resolved F
  number_of (bool b) = or_broken (fl.of_int (int_of b))
  number_of (int z) = or_broken (fl.of_int z)
  number_of (float x) = resolved x
  number_of _ = rejected

  -- `now` is the time, `raw` the configured key
  module _ (now : F) (raw : Text) where
    abbrev pub sealing_required : Bool
    sealing_required = not (is_empty raw)

    abbrev pub opened_payload : Option Text → Resolved (Fields F)
    opened_payload none = rejected
    opened_payload (some loc) = payload_of (open_seal fl wire now raw loc)

    -- `_opened` for the two fields of one point
    abbrev pub opened_point : String → String → Fields F → Resolved (Point F)
    opened_point lat_name lng_name payload = do
      lat ← number_of (get lat_name payload)
      lng ← number_of (get lng_name payload)
      resolved (record { lat = lat; lng = lng })

    abbrev pub plain_point : Option F → Option F → Resolved (Point F)
    plain_point lat lng = do x ← given lat; y ← given lng; resolved (record { lat = x; lng = y })

    abbrev pub check_point : Point F → Resolved (Point F)
    check_point p = if not (in_korea p) then rejected else resolved p

    unfoldable pub resolve_point : Option Text → Option F → Option F → Resolved (Point F)
    resolve_point loc lat lng =
        (if sealing_required
          then opened_payload loc >>= opened_point "lat" "lng"
          else plain_point lat lng)
        >>= check_point

    abbrev pub opened_pair : Fields F → Resolved (Point F × Point F)
    opened_pair payload = do
      start ← opened_point "start_lat" "start_lng" payload
      end ← opened_point "end_lat" "end_lng" payload
      resolved (start, end)

    abbrev pub plain_pair : Option F → Option F → Option F → Option F → Resolved (Point F × Point F)
    plain_pair start_lat start_lng end_lat end_lng = do
      start ← plain_point start_lat start_lng
      end ← plain_point end_lat end_lng
      resolved (start, end)

    abbrev pub check_pair : Point F × Point F → Resolved (Point F × Point F)
    check_pair (start, end) =
        if not (in_korea start) || not (in_korea end) then rejected else resolved (start, end)

    unfoldable pub resolve_pair :
        Option Text → Option F → Option F → Option F → Option F → Resolved (Point F × Point F)
    resolve_pair loc start_lat start_lng end_lat end_lng =
        (if sealing_required
          then opened_payload loc >>= opened_pair
          else plain_pair start_lat start_lng end_lat end_lng)
        >>= check_pair

    abbrev pub check_legs : Items F → Resolved (Items F)
    check_legs legs =
        if not (leb 1 (items_length legs) && leb (items_length legs) 20)
        then rejected
        else resolved legs

    unfoldable pub resolve_legs : Option Text → Items F → Resolved (Items F)
    resolve_legs loc legs =
        (if sealing_required
          then opened_payload loc >>= (λ payload. list_of (get "legs" payload))
          else resolved legs)
        >>= check_legs

    abbrev pub opened_origin : Fields F → Resolved (Fields F × Items F)
    opened_origin payload = do
      origin ← dict_of (get "origin" payload)
      candidates ← list_of (get "candidates" payload)
      resolved (origin, candidates)

    unfoldable pub resolve_origin_and_candidates :
        Option Text → Option (Fields F) → Items F → Resolved (Fields F × Items F)
    resolve_origin_and_candidates loc origin candidates =
        if sealing_required
        then opened_payload loc >>= opened_origin
        else (given origin >>= (λ o. resolved (o, candidates)))
