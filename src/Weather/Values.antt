-- ===== src/Weather/Values.antt =====
-- `_coerce_int` and `_valid_pop` of app/routers/hub_routers.py, `label_sky` of
-- app/codes/kma_codes.py.
use map_service_hub.Base.{
  zero, suc, ◌≡◌, Bool, true, false, not, ◌&&◌, Option, none, some, String, arith, str_eq,
  if◌then◌else◌,
}
use map_service_hub.Base.Int.{ℤ, pos, negsuc, ◌≤ℤ◌, leb_ℤ}
use map_service_hub.Base.Json.{Json, null, bool, int, float, str, list, dict, Floats, RoundsWithin}

abbrev pub pop_min : ℤ
pop_min = pos 0

abbrev pub pop_max : ℤ
pop_max = pos 100

-- `value is None or value == ""`
abbrev pub is_absent : {F : Type 0} → Json F → Bool
is_absent null = true
is_absent (str s) = str_eq s ""
is_absent _ = false

abbrev pub is_bool : {F : Type 0} → Json F → Bool
is_bool (bool b) = true
is_bool _ = false

module _ {F : Type 0} (fl : Floats F) where
  -- `float(value)`: `none` is a TypeError, ValueError or OverflowError
  abbrev pub to_float : Json F → Option F
  to_float null = none
  to_float (bool true) = fl.of_int (pos 1)
  to_float (bool false) = fl.of_int (pos 0)
  to_float (int z) = fl.of_int z
  to_float (float x) = some x
  to_float (str s) = fl.parse s
  to_float (list xs) = none
  to_float (dict d) = none

  abbrev pub round_within : Bool → F → Option ℤ
  round_within is_a_bool numeric =
      if not is_a_bool && fl.lt (fl.lit (negsuc 899)) numeric && fl.lt numeric (fl.lit (pos 900))
      then fl.round numeric
      else none

  abbrev pub round_opt : Bool → Option F → Option ℤ
  round_opt is_a_bool none = none
  round_opt is_a_bool (some numeric) = round_within is_a_bool numeric

  unfoldable pub coerce_int : Json F → Option ℤ
  coerce_int value = if is_absent value then none else round_opt (is_bool value) (to_float value)

  round_opt-within :
      RoundsWithin fl
      → (b : Bool) (o : Option F) (z : ℤ) → round_opt b o ≡ some z
      → (negsuc 899 ≤ℤ z) × (z ≤ℤ pos 900)
  round_opt-within law b none z h = ground arith
  round_opt-within law b (some x) z h = ground (arith, law x z)

  -- A value that is served lies between -900 and 900.
  pub coerce_int-within :
      RoundsWithin fl
      → (value : Json F) (z : ℤ) → coerce_int value ≡ some z
      → (negsuc 899 ≤ℤ z) × (z ≤ℤ pos 900)
  unfolding coerce_int
  coerce_int-within law value z h =
      ground (arith, round_opt-within law (is_bool value) (to_float value) z)

unfoldable pub valid_pop : Option ℤ → Option ℤ
valid_pop none = none
valid_pop (some value) = if leb_ℤ pop_min value && leb_ℤ value pop_max then some value else none

pub valid_pop-within : (o : Option ℤ) (z : ℤ) → valid_pop o ≡ some z → (pos 0 ≤ℤ z) × (z ≤ℤ pos 100)
unfolding valid_pop
valid_pop-within none z h = ground arith
valid_pop-within (some v) z h = ground arith

-- `SKY_LABEL.get`
unfoldable pub sky_label : String → Option String
sky_label code =
    if str_eq code "1"
    then some "맑음"
    else if str_eq code "3"
    then some "구름많음"
    else if str_eq code "4"
    then some "흐림"
    else none

-- `str(n)` is a key of the table for 1, 3 and 4 only
abbrev pub sky_label_int : ℤ → Option String
sky_label_int (pos (suc zero)) = some "맑음"
sky_label_int (pos (suc (suc (suc zero)))) = some "구름많음"
sky_label_int (pos (suc (suc (suc (suc zero))))) = some "흐림"
sky_label_int _ = none

-- The `str` of a float, a Boolean, a list or a dict is no key of the table.
unfoldable pub label_sky : {F : Type 0} → Json F → Option String
label_sky null = none
label_sky (str s) = if str_eq s "" then none else sky_label s
label_sky (int z) = sky_label_int z
label_sky _ = none
