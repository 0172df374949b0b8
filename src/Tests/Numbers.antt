-- ===== src/Tests/Numbers.antt =====
-- A concrete type of floats, the integers, for the examples: `parse` reads a few literals.
use map_service_hub.Base.{◌+◌, true, Option, none, some, String, arith, str_eq, if◌then◌else◌}
use map_service_hub.Base.Int.{ℤ, pos, negsuc, pos_part, neg_part, sub_ℕ, ltb_ℤ, leb_ℤ}
use map_service_hub.Base.Json.{Floats, RoundsWithin}

abbrev pub parse_literal : String → Option ℤ
parse_literal s =
    if str_eq s "21"
    then some (pos 21)
    else if str_eq s "-3"
    then some (negsuc 2)
    else if str_eq s "60"
    then some (pos 60)
    else none

abbrev pub whole : Floats ℤ
whole = record {
  parse = parse_literal;
  of_int = λ z. some z;
  lit = λ z. z;
  lt = ltb_ℤ;
  le = leb_ℤ;
  sub = λ a b. sub_ℕ (pos_part a + neg_part b) (neg_part a + pos_part b);
  round = λ z. some z;
  is_finite = λ z. true;
}

pub whole-RoundsWithin : RoundsWithin whole
whole-RoundsWithin x z lo hi e = ground arith
