-- ===== src/Guards/Exclusive.antt =====
-- Which callers the guards of app/routers/internal_router.py let through.
use map_service_hub.Base.{
  ◌≡◌, ap, ◌∙◌, Bool, true, false, not, ◌||◌, Option, none, some, String, str_eq, eq_iff,
  if◌then◌else◌, if-cases, arith,
}
use map_service_hub.Guards.{
  Tokens, Caller, passes, unauthorized, forbidden, is_blank, is_token, public_guard, check_token,
  internal_guard, internal_admin_guard,
}

is_token-some :
    (expected : String) (o : Option String) → is_token expected o ≡ true → o ≡ some expected
is_token-some expected none e = absurd (ground arith)
is_token-some expected (some token) e = ap some ((eq_iff token expected).0 e)

module _ (is_trusted : String → Bool) where
  -- the caller is in a trusted network and has the token, which is not blank
  abbrev pub Knows : String → Caller → Type 0
  Knows expected c =
      (is_trusted c.client ≡ true) × (is_blank expected ≡ false) × (c.token ≡ some expected)

  check_token-Knows :
      (expected : String) (c : Caller)
      → check_token is_trusted expected c ≡ passes
      → Knows expected c
  unfolding check_token
  check_token-Knows expected c =
      if-cases (λ v. v ≡ passes → Knows expected c)
        (not (is_trusted c.client) || is_blank expected || not (is_token expected c.token))
        forbidden passes (λ _ e. absurd (ground arith))
        (λ met _. (ground arith, ground arith, is_token-some expected c.token (ground arith)))

  admin-Knows :
      (t : Tokens) (c : Caller)
      → internal_admin_guard is_trusted t c ≡ passes
      → (str_eq t.hub_admin_internal_token t.internal_service_token ≡ false)
        × Knows t.hub_admin_internal_token c
  unfolding internal_admin_guard
  admin-Knows t c =
      if-cases
        (λ v.
          v ≡ passes
          → (str_eq t.hub_admin_internal_token t.internal_service_token ≡ false)
            × Knows t.hub_admin_internal_token c)
        (is_blank t.hub_admin_internal_token
          || str_eq t.hub_admin_internal_token t.internal_service_token)
        forbidden (check_token is_trusted t.hub_admin_internal_token c)
        (λ _ e. absurd (ground arith))
        (λ apart e. (ground arith, check_token-Knows t.hub_admin_internal_token c e))

  -- Whatever the two tokens are configured to be, a caller that the guard of the management routes lets
  -- through comes from a trusted network with the management token, which is not blank; the guard of the
  -- ordinary internal routes refuses it, and so does that of the public routes where it is enforced.
  pub internal_admin_guard-Knows :
      (t : Tokens) (c : Caller)
      → internal_admin_guard is_trusted t c ≡ passes
      → Knows t.hub_admin_internal_token c
        × (internal_guard is_trusted t c ≡ forbidden)
        × (public_guard t c ≡ (if t.auth_enforced then unauthorized else passes))
  unfolding internal_guard public_guard check_token
  internal_admin_guard-Knows t c e =
      let (apart, knows) = admin-Knows t c e in
      let (trusted, filled, has) = knows in
      let refused : is_token t.internal_service_token c.token ≡ false =
        ap (is_token t.internal_service_token) has ∙ apart in
      (knows, ground arith, ground arith)
