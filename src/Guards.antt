-- ===== src/Guards.antt =====
-- The three guards of the routers: `public_guard` of app/routers/guards.py, `internal_guard` and
-- `internal_admin_guard` of app/routers/internal_router.py. Whether an address lies in a trusted
-- network is the parameter `is_trusted`. `hmac.compare_digest` of two encoded texts is their equality.
pub mod Exclusive
use map_service_hub.Base.{
  ℕ, Bool, true, false, not, ◌&&◌, ◌||◌, List, [], ◌∷◌, Option, none, some, String, ◌==◌, str_eq,
  if◌then◌else◌, leb, all_by, is_none,
}
use map_service_hub.Kma.{codes}

-- the settings that the guards read
pub record Tokens : Type 0 where
  pub auth_enforced : Bool
  pub internal_service_token : String
  pub hub_admin_internal_token : String

-- the client's address, "" where there is none, and the header X-Internal-Token
pub record Caller : Type 0 where
  pub client : String
  pub token : Option String

pub data Verdict : Type 0 where
  passes unauthorized forbidden : Verdict

-- the white space that `str.strip` removes
abbrev pub is_space : ℕ → Bool
is_space c =
    (leb 9 c && leb c 13)
    || (leb 28 c && leb c 32)
    || (c == 133)
    || (c == 160)
    || (c == 5760)
    || (leb 8192 c && leb c 8202)
    || (c == 8232)
    || (c == 8233)
    || (c == 8239)
    || (c == 8287)
    || (c == 12288)

-- `not text.strip()`
unfoldable pub is_blank : String → Bool
is_blank text = all_by is_space (codes text)

abbrev pub is_token : String → Option String → Bool
is_token expected none = false
is_token expected (some token) = str_eq token expected

unfoldable pub public_guard : Tokens → Caller → Verdict
public_guard t c =
    if not t.auth_enforced
    then passes
    else if is_token t.internal_service_token c.token
    then passes
    else unauthorized

module _ (is_trusted : String → Bool) where
  unfoldable pub check_token : String → Caller → Verdict
  check_token expected c =
      if not (is_trusted c.client) || is_blank expected || not (is_token expected c.token)
      then forbidden
      else passes

  unfoldable pub internal_guard : Tokens → Caller → Verdict
  internal_guard t c = check_token t.internal_service_token c

  unfoldable pub internal_admin_guard : Tokens → Caller → Verdict
  internal_admin_guard t c =
      if is_blank t.hub_admin_internal_token
        || str_eq t.hub_admin_internal_token t.internal_service_token
      then forbidden
      else check_token t.hub_admin_internal_token c
