-- ===== src/Base/Json.antt =====
-- The values of Python that requests, payloads and rows carry. `F` is the type of floats, which is
-- a parameter: the program's arithmetic on them is the interface `Floats`.
use Prim.Native.String.{String}
use mathlib.Core.Path.{◌≡◌}
use mathlib.Core.Bool.{Bool, true}
use mathlib.Core.Option.{Option, some}
use text.Mathlib.Text.{◌==◌}
use map_service_hub.Base.Tests.{if◌then◌else◌}
use map_service_hub.Base.Int.{ℤ, pos, negsuc, ◌≤ℤ◌}

mutual
  pub data Json (F : Type 0) : Type 0 where
    null : Json F
    bool : Bool → Json F
    int : ℤ → Json F
    float : F → Json F
    str : String → Json F
    list : Items F → Json F
    dict : Fields F → Json F

  pub data Items (F : Type 0) : Type 0 where
    nil : Items F
    cons : Json F → Items F → Items F

  pub data Fields (F : Type 0) : Type 0 where
    end : Fields F
    field : String → Json F → Fields F → Fields F

-- `d.get(k)`: a missing key is None, as a key with the value null is.
abbrev pub get : {F : Type 0} → String → Fields F → Json F
get k end = null
get k (field j v r) = if j == k then v else get k r

-- What the program asks of floats: `float(s)`, `float(n)`, literals, `<`, `<=`, `-`, `round`,
-- `math.isfinite`. `none` is the exception that Python raises.
pub record Floats (F : Type 0) : Type 0 where
  pub parse : String → Option F
  pub of_int : ℤ → Option F
  pub lit : ℤ → F
  pub lt : F → F → Bool
  pub le : F → F → Bool
  pub sub : F → F → F
  pub round : F → Option ℤ
  pub is_finite : F → Bool

-- Rounding a float strictly between -900 and 900 gives an integer from -900 to 900.
abbrev pub RoundsWithin : {F : Type 0} → Floats F → Type 0
RoundsWithin {F} fl =
    (x : F) (z : ℤ)
    → fl.lt (fl.lit (negsuc 899)) x ≡ true
    → fl.lt x (fl.lit (pos 900)) ≡ true
    → fl.round x ≡ some z
    → (negsuc 899 ≤ℤ z) × (z ≤ℤ pos 900)
