-- ===== src/Tests/Guards.antt =====
-- The guards for a caller of the network of the containers who has the management token.
use map_service_hub.Base.{◌≡◌, refl, Bool, true, some, String, str_eq}
use map_service_hub.Guards.{
  Tokens, Caller, passes, unauthorized, forbidden, is_blank, check_token, internal_guard,
  internal_admin_guard, public_guard,
}
use map_service_hub.Guards.Exclusive.{Knows, internal_admin_guard-Knows}

abbrev tokens : Tokens
tokens = record {
  auth_enforced = true;
  internal_service_token = "ordinary";
  hub_admin_internal_token = "management";
}

abbrev operator : Caller
operator = record { client = "172.18.0.5"; token = some "management" }

abbrev is_trusted : String → Bool
is_trusted ip = str_eq ip "172.18.0.5"

operator_passes : internal_admin_guard is_trusted tokens operator ≡ passes
unfolding internal_admin_guard check_token is_blank
operator_passes = refl

internal_admin_guard-Knows_example :
    Knows is_trusted "management" operator
    × (internal_guard is_trusted tokens operator ≡ forbidden)
    × (public_guard tokens operator ≡ unauthorized)
internal_admin_guard-Knows_example =
    internal_admin_guard-Knows is_trusted tokens operator operator_passes
