-- ===== src/Tests/Sealing.antt =====
-- Sealed locations over floats that are integers, with an encoding of four characters for each byte and
-- a cipher that is the identity.
use map_service_hub.Base.{
  ℕ, ◌+◌, ◌-◌, ◌%◌, ◌≡◌, refl, ap, ◌∙◌, false, Option, none, some, [], ◌∷◌, ◌++◌, arith, ◌==◌,
  length, count, All,
}
use map_service_hub.Base.Int.{ℤ, pos}
use map_service_hub.Base.Json.{int, float, dict, field, end, Fields, nil}
use map_service_hub.Kma.{Text}
use map_service_hub.Tests.Numbers.{whole}
use map_service_hub.Sealing.{
  Bytes, Loaded, read, not_json, Wire, opened, repeated, equals, dot, wire_key, open_seal,
  is_sealed, seal, version_dot,
}
use map_service_hub.Sealing.RoundTrip.{IsWire, stamped, open_seal-seal}
use map_service_hub.Sealing.Params.{resolved, resolve_point, resolve_pair, resolve_legs}
use map_service_hub.Sealing.Params.Chain.{Holds}
use map_service_hub.Sealing.Params.Sealed.{FromPayload, IsPlace, IsPair, AreLegs, resolve-FromSeal}

abbrev add_byte : ℕ → Option Bytes → Option Bytes
add_byte n none = none
add_byte n (some ns) = some (n ∷ ns)

abbrev body : Bytes → Text
body [] = []
body (n ∷ ns) = (100 + n) ∷ 100 ∷ 100 ∷ 100 ∷ body ns

abbrev decode : Text → Option Bytes
decode [] = some []
decode (a ∷ []) = none
decode (a ∷ b ∷ []) = none
decode (a ∷ b ∷ c ∷ []) = none
decode (a ∷ b ∷ c ∷ d ∷ t) = add_byte (a - 100) (decode t)

-- Seoul's city hall
abbrev payload : Fields ℤ
payload = field "lat" (float (pos 37)) (field "lng" (float (pos 127)) end)

abbrev key : Bytes
key = repeated 32 7

abbrev iv : Bytes
iv = repeated 12 9

abbrev loads : Bytes → Loaded ℤ
loads [] = not_json
loads (n ∷ ns) = read (
    dict (
      field "lat" (float (pos 37)) (field "lng" (float (pos 127)) (field "iat" (int (pos n)) end))))

abbrev wire : Wire ℤ
wire = record {
  b64decode = λ t. some key;
  urlsafe_b64decode = decode;
  urlsafe_b64encode = body;
  encrypt = λ k v p. p;
  decrypt = λ k v p. some p;
  dumps = λ f. 1_000 ∷ [];
  loads = loads;
  int_of_time = λ x. pos 1_000;
}

decode-body : (b : Bytes) → decode (body b) ≡ some b
decode-body [] = refl
decode-body (n ∷ ns) =
    ap (add_byte (100 + n - 100)) (decode-body ns) ∙ ap (λ m. some (m ∷ ns)) (omega arith)

body-whole : (b : Bytes) → (length (body b) + 0) % 4 ≡ 0
body-whole [] = refl
body-whole (n ∷ ns) = let rest = body-whole ns in omega arith

body-plain : (b : Bytes) → All (λ c. (c == equals) ≡ false) (body b)
body-plain [] = tt
body-plain (n ∷ ns) = (ground arith, (refl, (refl, (refl, body-plain ns))))

body-count : (b : Bytes) → count dot (body b) ≡ 0
body-count [] = refl
body-count (n ∷ ns) = let rest = body-count ns in ground arith

append-nil : (t : Text) → t ≡ t ++ []
append-nil [] = refl
append-nil (c ∷ cs) = ap (λ r. c ∷ r) (append-nil cs)

wire-IsWire : IsWire wire
wire-IsWire = record {
  body = body;
  fill = λ b. 0;
  encoding = λ b. append-nil (body b);
  no_equals = body-plain;
  no_dot = body-count;
  whole = body-whole;
  short = λ b. omega arith;
  decode_encode = decode-body;
  decrypt_encrypt = λ k v p h l. refl;
}

keyed : wire_key whole wire (1 ∷ []) ≡ some key
unfolding wire_key
keyed = refl

-- a hundred seconds later
open_seal-seal_example :
    (token : Text) × (seal whole wire (pos 1_000) (1 ∷ []) iv payload ≡ some token)
    × (open_seal whole wire (pos 1_100) (1 ∷ []) token
        ≡ opened (stamped whole wire wire-IsWire (pos 1_000) payload))
open_seal-seal_example =
    open_seal-seal whole wire wire-IsWire (pos 1_000) (pos 1_100) (1 ∷ []) key iv payload
      (pos 1_000) keyed refl refl refl refl refl

abbrev token : Text
token = version_dot ++ (body iv ++ (dot ∷ body (1_000 ∷ [])))

-- the point of the token, not the one in the plain values beside it
from_token :
    resolve_point whole wire (pos 1_100) (1 ∷ []) (some token) (some (pos 33)) (some (pos 124))
    ≡ resolved (record { lat = pos 37; lng = pos 127 })
unfolding resolve_point open_seal is_sealed wire_key
from_token = refl

resolve-FromSeal_example :
    Holds
      (FromPayload whole wire
        (pos 1_100)
        (1 ∷ [])
        (some token)
        (IsPlace whole wire (pos 1_100) (1 ∷ []) "lat" "lng"))
      (resolve_point whole wire (pos 1_100) (1 ∷ []) (some token) (some (pos 33)) (some (pos 124)))
    × Holds
        (FromPayload whole wire
          (pos 1_100)
          (1 ∷ [])
          (some token)
          (IsPair whole wire (pos 1_100) (1 ∷ [])))
        (resolve_pair whole wire (pos 1_100) (1 ∷ []) (some token) none none none none)
    × Holds
        (FromPayload whole wire
          (pos 1_100)
          (1 ∷ [])
          (some token)
          (AreLegs whole wire (pos 1_100) (1 ∷ [])))
        (resolve_legs whole wire (pos 1_100) (1 ∷ []) (some token) nil)
resolve-FromSeal_example =
    resolve-FromSeal whole wire (pos 1_100) (1 ∷ []) refl (some token) (some (pos 33))
      (some (pos 124)) none none none none nil
