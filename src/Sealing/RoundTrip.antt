-- ===== src/Sealing/RoundTrip.antt =====
-- What `open_seal` gives for what `seal` of app/crypto/location_seal.py made.
use map_service_hub.Base.{
  ℕ, zero, suc, ◌+◌, ◌%◌, ◌≡◌, ◌<◌, refl, sym, ap, ◌∙◌, true, false, not, ◌&&◌, [], ◌∷◌, ◌++◌, some,
  String, str_eq, eq_refl, ◌==◌, if◌then◌else◌, if-cases, length, count, count_by-append, arith,
  is_empty, All,
}
use map_service_hub.Base.Json.{Json, null, int, dict, Fields, end, field, get, Floats}
use map_service_hub.Kma.{Text}
use map_service_hub.Sealing.Opening.{wire_key-length}
use map_service_hub.Sealing.{
  Bytes, read, Wire, opened, seal_error, dot, equals, version_dot, is_sealed, split_dot, repeated,
  padding, rstrip, put, b64url_decode, wire_key, at, no_time, issued_of, of_integer, expired,
  in_time, read_payload, open_plain, decrypted, open_parts, open_seal, encode, seal_with, seal_if,
  seal,
}

-- Base64 and AES-GCM as documented: an encoding is a text without dots and equals signs, filled to a
-- multiple of four by at most three of them, and decodes to what it encodes; under a key of 32 bytes
-- and an iv of 12 what was encrypted decrypts.
pub record IsWire {F : Type 0} (wire : Wire F) : Type 0 where
  pub body : Bytes → Text
  pub fill : Bytes → ℕ
  pub encoding : (b : Bytes) → wire.urlsafe_b64encode b ≡ body b ++ repeated (fill b) equals
  pub no_equals : (b : Bytes) → All (λ c. (c == equals) ≡ false) (body b)
  pub no_dot : (b : Bytes) → count dot (body b) ≡ 0
  pub whole : (b : Bytes) → (length (body b) + fill b) % 4 ≡ 0
  pub short : (b : Bytes) → fill b < 4
  pub decode_encode : (b : Bytes) → wire.urlsafe_b64decode (wire.urlsafe_b64encode b) ≡ some b
  pub decrypt_encrypt :
      (key iv plain : Bytes)
      → length key ≡ 32
      → length iv ≡ 12
      → wire.decrypt key iv (wire.encrypt key iv plain) ≡ some plain

rstrip-repeated : (n : ℕ) → rstrip (repeated n equals) ≡ []
rstrip-repeated zero = refl
rstrip-repeated (suc n) =
    ap (λ (r : Text). if is_empty r && true then [] else equals ∷ r) (rstrip-repeated n)

rstrip-append :
    (body : Text) (n : ℕ)
    → All (λ c. (c == equals) ≡ false) body
    → rstrip (body ++ repeated n equals) ≡ body
rstrip-append [] n h = rstrip-repeated n
rstrip-append (c ∷ cs) n h =
    let rest = rstrip-append cs n h.1 in
    let tail = rstrip (cs ++ repeated n equals) in
    if-cases (λ r. r ≡ c ∷ cs) (is_empty tail && (c == equals)) [] (c ∷ tail)
      (λ e. absurd (ground arith)) (λ _. ap (λ (r : Text). c ∷ r) rest)

split_dot-append : (a b : Text) → count dot a ≡ 0 → split_dot (a ++ (dot ∷ b)) ≡ (a, b)
split_dot-append [] b e = refl
split_dot-append (c ∷ cs) b e =
    let tail = split_dot (cs ++ (dot ∷ b)) in
    if-cases (λ r. r ≡ (c ∷ cs, b)) (c == dot) ([], cs ++ (dot ∷ b)) (c ∷ tail.0, tail.1)
      (λ here. absurd (ground arith))
      (λ there. ap (λ (r : Text × Text). (c ∷ r.0, r.1)) (split_dot-append cs b (ground arith)))

get-put : {F : Type 0} (k : String) (v : Json F) (payload : Fields F) → get k (put k v payload) ≡ v
get-put k v end =
    if-cases (λ w. w ≡ v) (str_eq k k) v null (λ _. refl)
      (λ e. let same = eq_refl k in absurd (ground arith))
get-put k v (field j u r) =
    if-cases (λ p. get k p ≡ v) (str_eq j k) (field j v r) (field j u (put k v r))
      (λ e. ground arith) (λ e. let rest = get-put k v r in ground arith)

module _ {F : Type 0} (fl : Floats F) (wire : Wire F) (lawful : IsWire wire) where
  encode-body : (b : Bytes) → encode fl wire b ≡ lawful.body b
  encode-body b =
      ap rstrip (lawful.encoding b)
      ∙ rstrip-append (lawful.body b) (lawful.fill b) (lawful.no_equals b)

  padding-body : (b : Bytes) → padding (lawful.body b) ≡ repeated (lawful.fill b) equals
  padding-body b =
      let whole = lawful.whole b in
      let short = lawful.short b in ap (λ n. repeated n equals) (omega arith)

  b64url_decode-encode : (b : Bytes) → b64url_decode fl wire (encode fl wire b) ≡ some b
  b64url_decode-encode b =
      ap (b64url_decode fl wire) (encode-body b)
      ∙ ap (λ t. wire.urlsafe_b64decode (lawful.body b ++ t)) (padding-body b)
      ∙ ap wire.urlsafe_b64decode (sym (lawful.encoding b))
      ∙ lawful.decode_encode b

  count-encode : (b : Bytes) → count dot (encode fl wire b) ≡ 0
  count-encode b = ap (count dot) (encode-body b) ∙ lawful.no_dot b

  abbrev two_parts : Bytes → Bytes → Text
  two_parts iv ciphertext = version_dot ++ (encode fl wire iv ++ (dot ∷ encode fl wire ciphertext))

  two_parts-IsSealed : (iv ciphertext : Bytes) → is_sealed (two_parts iv ciphertext) ≡ true
  unfolding is_sealed
  two_parts-IsSealed iv ciphertext =
      let first = count-encode iv in
      let second = count-encode ciphertext in
      let both =
        count_by-append (λ c. c == dot) (encode fl wire iv) (dot ∷ encode fl wire ciphertext) in
      let dots : count dot (two_parts iv ciphertext) ≡ 2 = omega arith in ap (λ n. n == 2) dots

  split-two_parts :
      (iv ciphertext : Bytes)
      → split_dot (split_dot (two_parts iv ciphertext)).1
        ≡ (encode fl wire iv, encode fl wire ciphertext)
  split-two_parts iv ciphertext =
      split_dot-append (encode fl wire iv) (encode fl wire ciphertext) (count-encode iv)

  -- a token made of an iv and of what a key made of a text opens to what the text reads as
  open-sealed :
      (later : F) (raw : Text) (key iv plain : Bytes)
      → wire_key fl wire raw ≡ some key
      → length iv ≡ 12
      → open_seal fl wire later raw (two_parts iv (wire.encrypt key iv plain))
        ≡ read_payload fl wire later (wire.loads plain)
  unfolding open_seal
  open-sealed later raw key iv plain keyed iv_bytes =
      let ciphertext = wire.encrypt key iv plain in
      let token = two_parts iv ciphertext in
      ap
        (λ b.
          if not b
          then seal_error
          else open_parts fl wire later raw (split_dot (split_dot token).1))
        (two_parts-IsSealed iv ciphertext)
      ∙ ap (open_parts fl wire later raw) (split-two_parts iv ciphertext)
      ∙ ap
          (λ k. open_plain fl wire later (
            decrypted fl wire k (b64url_decode fl wire (encode fl wire iv))
              (b64url_decode fl wire (encode fl wire ciphertext))))
          keyed
      ∙ ap
          (λ v.
            open_plain fl wire later
              (decrypted fl wire (some key) v (b64url_decode fl wire (encode fl wire ciphertext))))
          (b64url_decode-encode iv)
      ∙ ap (λ c. open_plain fl wire later (decrypted fl wire (some key) (some iv) c))
          (b64url_decode-encode ciphertext)
      ∙ ap (open_plain fl wire later)
          (lawful.decrypt_encrypt key iv plain (wire_key-length fl wire raw key keyed) iv_bytes)

  abbrev pub stamped : F → Fields F → Fields F
  stamped now payload = put "iat" (int (wire.int_of_time now)) payload

  -- With a configured key, a lawful wire format and an iv of 12 bytes, a payload that JSON carries, sealed
  -- at a time that is a finite float, becomes a token, and
  -- the token opens under the key to the payload with its time of issue, as long as that is at most 300
  -- seconds ago and at most 60 ahead.
  pub open_seal-seal :
      (now later : F) (raw : Text) (key iv : Bytes) (payload : Fields F) (issued : F)
      → wire_key fl wire raw ≡ some key
      → length iv ≡ 12
      → wire.loads (wire.dumps (stamped now payload)) ≡ read (dict (stamped now payload))
      → fl.of_int (wire.int_of_time now) ≡ some issued
      → fl.is_finite issued ≡ true
      → expired fl wire later issued ≡ false
      → (token : Text) × (seal fl wire now raw iv payload ≡ some token)
        × (open_seal fl wire later raw token ≡ opened (stamped now payload))
  unfolding seal
  open_seal-seal now later raw key iv payload issued keyed iv_bytes carries counted finite fresh =
      let sent = stamped now payload in
      (
        seal_with fl wire now iv payload key,
        ap (seal_if fl wire now iv payload) keyed,
        open-sealed later raw key iv (wire.dumps sent) keyed iv_bytes
            ∙ ap (read_payload fl wire later) carries
            ∙ ap (λ v. in_time fl wire later sent (issued_of fl wire v))
                (get-put "iat" (int (wire.int_of_time now)) payload)
            ∙ ap (λ o. in_time fl wire later sent (of_integer fl wire o)) counted
            ∙ ap (λ b. in_time fl wire later sent (if b then at issued else no_time)) finite
            ∙ ap (λ b. if b then seal_error else opened sent) fresh,
      )
