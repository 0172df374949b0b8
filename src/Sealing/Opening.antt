-- ===== src/Sealing/Opening.antt =====
-- What `open_seal` of app/crypto/location_seal.py has checked of a payload that it returns.
use mathlib.Core.Path.{subst}
use map_service_hub.Base.{
  ℕ, ◌≡◌, refl, true, false, not, Option, none, some, ◌==◌, if-cases, length, arith, is_empty,
}
use map_service_hub.Base.Json.{null, bool, int, float, str, list, dict, Fields, get, Floats}
use map_service_hub.Kma.{Text}
use map_service_hub.Sealing.{
  Bytes, Loaded, read, not_json, escapes, Wire, opened, seal_error, is_sealed, split_dot,
  b64url_decode, of_length, wire_key, Issued, at, no_time, too_large, issued_of, expired, in_time,
  read_payload, open_plain, decrypted, open_parts, open_seal,
}

module _ {F : Type 0} (fl : Floats F) (wire : Wire F) where
  -- The two parts of the token decrypt under the configured key of 32 bytes to the payload, which was issued at most 300 seconds ago and
  -- at most 60 seconds ahead.
  pub record IsAuthentic (now : F) (raw token : Text) (payload : Fields F) : Type 0 where
    pub key : Bytes
    pub iv : Bytes
    pub ciphertext : Bytes
    pub plain : Bytes
    pub issued : F
    pub configured : wire_key fl wire raw ≡ some key
    pub key_bytes : length key ≡ 32
    pub iv_read : b64url_decode fl wire (split_dot (split_dot token).1).0 ≡ some iv
    pub ciphertext_read : b64url_decode fl wire (split_dot (split_dot token).1).1 ≡ some ciphertext
    pub decrypts : wire.decrypt key iv ciphertext ≡ some plain
    pub reads : wire.loads plain ≡ read (dict payload)
    pub has_time : issued_of fl wire (get "iat" payload) ≡ at issued
    pub in_window : expired fl wire now issued ≡ false

  of_length-length :
      (n : ℕ) (o : Option Bytes) (key : Bytes) → of_length fl wire n o ≡ some key → length key ≡ n
  of_length-length n none key = λ e. absurd (ground arith)
  of_length-length n (some k) key =
      if-cases (λ o. o ≡ some key → length key ≡ n) (length k == n) (some k) none
        (λ same e. ground arith) (λ _ e. absurd (ground arith))

  pub wire_key-length :
      (raw : Text) (key : Bytes) → wire_key fl wire raw ≡ some key → length key ≡ 32
  unfolding wire_key
  wire_key-length raw key =
      if-cases (λ o. o ≡ some key → length key ≡ 32) (is_empty raw) none
        (of_length fl wire 32 (wire.b64decode raw)) (λ _ e. absurd (ground arith))
        (λ _. of_length-length 32 (wire.b64decode raw) key)

  -- what is known of a payload that is read and in time
  abbrev IsInTime : F → Bytes → Fields F → Type 0
  IsInTime now plain payload =
      (wire.loads plain ≡ read (dict payload))
      × (issued : F) × (issued_of fl wire (get "iat" payload) ≡ at issued)
      × (expired fl wire now issued ≡ false)

  in_time-IsInTime :
      (now : F) (plain : Bytes) (found payload : Fields F) (issue : Issued fl wire)
      → wire.loads plain ≡ read (dict found)
      → issued_of fl wire (get "iat" found) ≡ issue
      → in_time fl wire now found issue ≡ opened payload
      → IsInTime now plain payload
  in_time-IsInTime now plain found payload no_time reads at_time = λ e. absurd (ground arith)
  in_time-IsInTime now plain found payload too_large reads at_time = λ e. absurd (ground arith)
  in_time-IsInTime now plain found payload (at issued) reads at_time =
      if-cases (λ r. r ≡ opened payload → IsInTime now plain payload) (expired fl wire now issued)
        seal_error (opened found) (λ _ e. absurd (ground arith))
        (λ fresh e.
          let same : found ≡ payload = ground arith in
          subst (IsInTime now plain) same (reads, issued, at_time, fresh))

  read_payload-IsInTime :
      (now : F) (plain : Bytes) (loaded : Loaded F) (payload : Fields F)
      → wire.loads plain ≡ loaded
      → read_payload fl wire now loaded ≡ opened payload
      → IsInTime now plain payload
  read_payload-IsInTime now plain not_json payload reads e = absurd (ground arith)
  read_payload-IsInTime now plain escapes payload reads e = absurd (ground arith)
  read_payload-IsInTime now plain (read null) payload reads e = absurd (ground arith)
  read_payload-IsInTime now plain (read (bool b)) payload reads e = absurd (ground arith)
  read_payload-IsInTime now plain (read (int z)) payload reads e = absurd (ground arith)
  read_payload-IsInTime now plain (read (float x)) payload reads e = absurd (ground arith)
  read_payload-IsInTime now plain (read (str s)) payload reads e = absurd (ground arith)
  read_payload-IsInTime now plain (read (list vs)) payload reads e = absurd (ground arith)
  read_payload-IsInTime now plain (read (dict found)) payload reads e =
      in_time-IsInTime now plain found payload (issued_of fl wire (get "iat" found)) reads refl e

  decrypted-IsAuthentic :
      (now : F) (raw token : Text) (payload : Fields F) (key iv ciphertext : Bytes)
      (plain : Option Bytes)
      → wire_key fl wire raw ≡ some key
      → b64url_decode fl wire (split_dot (split_dot token).1).0 ≡ some iv
      → b64url_decode fl wire (split_dot (split_dot token).1).1 ≡ some ciphertext
      → wire.decrypt key iv ciphertext ≡ plain
      → open_plain fl wire now plain ≡ opened payload
      → IsAuthentic now raw token payload
  decrypted-IsAuthentic now raw token payload key iv ciphertext none keyed iv_read ct_read decrypts
        e =
      absurd (ground arith)
  decrypted-IsAuthentic now raw token payload key iv ciphertext (some plain) keyed iv_read ct_read
        decrypts e =
      let (reads, issued, has_time, in_window) =
        read_payload-IsInTime now plain (wire.loads plain) payload refl e in
      record {
        key = key;
        iv = iv;
        ciphertext = ciphertext;
        plain = plain;
        issued = issued;
        configured = keyed;
        key_bytes = wire_key-length raw key keyed;
        iv_read = iv_read;
        ciphertext_read = ct_read;
        decrypts = decrypts;
        reads = reads;
        has_time = has_time;
        in_window = in_window;
      }

  open_plain-IsAuthentic :
      (now : F) (raw token : Text) (payload : Fields F) (key iv ciphertext : Option Bytes)
      → wire_key fl wire raw ≡ key
      → b64url_decode fl wire (split_dot (split_dot token).1).0 ≡ iv
      → b64url_decode fl wire (split_dot (split_dot token).1).1 ≡ ciphertext
      → open_plain fl wire now (decrypted fl wire key iv ciphertext) ≡ opened payload
      → IsAuthentic now raw token payload
  open_plain-IsAuthentic now raw token payload none iv ciphertext keyed iv_read ct_read e =
      absurd (ground arith)
  open_plain-IsAuthentic now raw token payload (some k) none ciphertext keyed iv_read ct_read e =
      absurd (ground arith)
  open_plain-IsAuthentic now raw token payload (some k) (some v) none keyed iv_read ct_read e =
      absurd (ground arith)
  open_plain-IsAuthentic now raw token payload (some k) (some v) (some c) keyed iv_read ct_read e =
      decrypted-IsAuthentic now raw token payload k v c (wire.decrypt k v c) keyed iv_read ct_read
        refl e

  pub open_seal-IsAuthentic :
      (now : F) (raw token : Text) (payload : Fields F)
      → open_seal fl wire now raw token ≡ opened payload
      → (is_sealed token ≡ true) × IsAuthentic now raw token payload
  unfolding open_seal
  open_seal-IsAuthentic now raw token payload =
      let parts = split_dot (split_dot token).1 in
      if-cases
        (λ r. r ≡ opened payload → (is_sealed token ≡ true) × IsAuthentic now raw token payload)
        (not (is_sealed token)) seal_error (open_parts fl wire now raw parts)
        (λ _ e. absurd (ground arith))
        (λ shaped e. (
          ground arith,
          open_plain-IsAuthentic now raw token payload (wire_key fl wire raw)
              (b64url_decode fl wire parts.0) (b64url_decode fl wire parts.1) refl refl refl e,
        ))
