-- ===== src/Sealing.antt =====
-- The sealed locations of app/crypto/location_seal.py. A text is the list of its code points. AES-GCM
-- with the fixed AAD, base64 and JSON are the record `Wire`; the configured key and the time are
-- arguments.
pub mod Params
pub mod Opening
pub mod RoundTrip
use map_service_hub.Base.{
  ℕ, zero, suc, ◌+◌, ◌-◌, ◌%◌, Bool, true, false, not, ◌&&◌, ◌||◌, List, [], ◌∷◌, ◌++◌, Option,
  none, some, String, ◌==◌, str_eq, if◌then◌else◌, length, count, is_empty,
}
use map_service_hub.Base.Int.{ℤ, pos, negsuc}
use map_service_hub.Base.Json.{
  Json, null, bool, int, float, str, list, dict, Fields, end, field, get, Floats,
}
use map_service_hub.Kma.{Text}

abbrev pub Bytes : Type 0
Bytes = List ℕ

-- what `json.loads` gives: a value, a JSONDecodeError, or another exception
pub data Loaded (F : Type 0) : Type 0 where
  read : Json F → Loaded F
  not_json : Loaded F
  escapes : Loaded F

-- `none` is an exception: of any kind for `b64decode`, a ValueError for `urlsafe_b64decode`, a
-- ValueError or an InvalidTag for `decrypt`, whose arguments are the key, the iv and the text.
pub record Wire (F : Type 0) : Type 0 where
  pub b64decode : Text → Option Bytes
  pub urlsafe_b64decode : Text → Option Bytes
  pub urlsafe_b64encode : Bytes → Text
  pub encrypt : Bytes → Bytes → Bytes → Bytes
  pub decrypt : Bytes → Bytes → Bytes → Option Bytes
  pub dumps : Fields F → Bytes
  pub loads : Bytes → Loaded F
  pub int_of_time : F → ℤ

-- how `open_seal` ends: with the payload, with a SealError, with an exception that callers do not catch
pub data Opened (F : Type 0) : Type 0 where
  opened : Fields F → Opened F
  seal_error : Opened F
  escaped : Opened F

abbrev pub dot : ℕ
dot = 46

abbrev pub equals : ℕ
equals = 61

-- `VERSION + "."`
abbrev pub version_dot : Text
version_dot = 118 ∷ 49 ∷ dot ∷ []

abbrev pub starts_with : Text → Text → Bool
starts_with [] t = true
starts_with (c ∷ cs) [] = false
starts_with (c ∷ cs) (d ∷ ds) = (c == d) && starts_with cs ds

unfoldable pub is_sealed : Text → Bool
is_sealed value = not (is_empty value) && (starts_with version_dot value && (count dot value == 2))

-- what is before the first dot and what is after it
abbrev pub split_dot : Text → Text × Text
split_dot [] = ([], [])
split_dot (c ∷ cs) = let rest = split_dot cs in if c == dot then ([], cs) else (c ∷ rest.0, rest.1)

abbrev pub repeated : ℕ → ℕ → Text
repeated zero c = []
repeated (suc n) c = c ∷ repeated n c

-- `"=" * (-len(text) % 4)`
abbrev pub padding : Text → Text
padding text = repeated ((4 - length text % 4) % 4) equals

-- `text.rstrip("=")`
abbrev pub rstrip : Text → Text
rstrip [] = []
rstrip (c ∷ cs) = let rest = rstrip cs in if is_empty rest && (c == equals) then [] else c ∷ rest

-- `{**payload, key: value}`
abbrev pub put : {F : Type 0} → String → Json F → Fields F → Fields F
put k v end = field k v end
put k v (field j u r) = if str_eq j k then field j v r else field j u (put k v r)

module _ {F : Type 0} (fl : Floats F) (wire : Wire F) where
  abbrev pub b64url_decode : Text → Option Bytes
  b64url_decode text = wire.urlsafe_b64decode (text ++ padding text)

  abbrev pub of_length : ℕ → Option Bytes → Option Bytes
  of_length n none = none
  of_length n (some key) = if length key == n then some key else none

  -- `_key`: none is the SealError
  unfoldable pub wire_key : Text → Option Bytes
  wire_key raw = if is_empty raw then none else of_length 32 (wire.b64decode raw)

  -- `iat` as a float: none where it is no number, or one that no float holds
  pub data Issued : Type 0 where
    at : F → Issued
    no_time : Issued
    too_large : Issued

  abbrev pub finite_or_none : F → Issued
  finite_or_none x = if fl.is_finite x then at x else no_time

  abbrev pub of_integer : Option F → Issued
  of_integer none = too_large
  of_integer (some x) = finite_or_none x

  abbrev pub issued_of : Json F → Issued
  issued_of (int z) = of_integer (fl.of_int z)
  issued_of (float x) = finite_or_none x
  issued_of _ = no_time

  -- `age > MAX_AGE_SECONDS or age < -60`
  abbrev pub expired : F → F → Bool
  expired now issued =
      let age = fl.sub now issued in fl.lt (fl.lit (pos 300)) age || fl.lt age (fl.lit (negsuc 59))

  abbrev pub in_time : F → Fields F → Issued → Opened F
  in_time now payload no_time = seal_error
  in_time now payload too_large = escaped
  in_time now payload (at issued) = if expired now issued then seal_error else opened payload

  abbrev pub read_payload : F → Loaded F → Opened F
  read_payload now not_json = seal_error
  read_payload now escapes = escaped
  read_payload now (read (dict payload)) = in_time now payload (issued_of (get "iat" payload))
  read_payload now (read _) = seal_error

  abbrev pub open_plain : F → Option Bytes → Opened F
  open_plain now none = seal_error
  open_plain now (some plain) = read_payload now (wire.loads plain)

  abbrev pub decrypted : Option Bytes → Option Bytes → Option Bytes → Option Bytes
  decrypted (some key) (some iv) (some ciphertext) = wire.decrypt key iv ciphertext
  decrypted _ _ _ = none

  abbrev pub open_parts : F → Text → Text × Text → Opened F
  open_parts now raw parts =
      open_plain now (decrypted (wire_key raw) (b64url_decode parts.0) (b64url_decode parts.1))

  unfoldable pub open_seal : F → Text → Text → Opened F
  open_seal now raw token =
      if not (is_sealed token)
      then seal_error
      else open_parts now raw (split_dot (split_dot token).1)

  abbrev pub encode : Bytes → Text
  encode value = rstrip (wire.urlsafe_b64encode value)

  abbrev pub seal_with : F → Bytes → Fields F → Bytes → Text
  seal_with now iv payload key =
      let plain = wire.dumps (put "iat" (int (wire.int_of_time now)) payload) in
      version_dot ++ (encode iv ++ (dot ∷ encode (wire.encrypt key iv plain)))

  abbrev pub seal_if : F → Bytes → Fields F → Option Bytes → Option Text
  seal_if now iv payload none = none
  seal_if now iv payload (some key) = some (seal_with now iv payload key)

  -- `iv` is what `os.urandom(12)` gave; none is the SealError of the key
  unfoldable pub seal : F → Text → Bytes → Fields F → Option Text
  seal now raw iv payload = seal_if now iv payload (wire_key raw)
