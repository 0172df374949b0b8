-- ===== src/Rules.antt =====
-- app/rules/rule_engine.py: `filter_by_radius` and `estimate_dwell`. The great-circle distance
-- `haversine_m` is floating-point trigonometry: it goes through the record `Trig`, whose operations are
-- none where Python's math module raises a ValueError.
pub mod Radius
pub mod Dwell
use map_service_hub.Base.{
  ℕ, Bool, true, false, ◌&&◌, ◌||◌, Option, none, some, List, [], ◌∷◌, String, str_eq,
  if◌then◌else◌,
}
use map_service_hub.Base.Int.{ℤ, pos, ltb_ℤ}
use map_service_hub.Base.Json.{Json, null, bool, int, float, str, list, dict, Fields, get, Floats}

abbrev pub radius_m : List (String × Option ℕ)
radius_m =
    ("foot", some 3000)
    ∷ ("walk", some 3000)
    ∷ ("bicycle", some 10000)
    ∷ ("kickboard", some 10000)
    ∷ ("scooter", some 10000)
    ∷ ("car", none)
    ∷ ("transit", none)
    ∷ []

-- `RADIUS_M.get(mobility)`: an unknown name and an unlimited one are both None
abbrev pub radius_in : List (String × Option ℕ) → String → Option ℕ
radius_in [] mobility = none
radius_in ((name, r) ∷ rest) mobility = if str_eq name mobility then r else radius_in rest mobility

abbrev pub dwell_minutes : List (String × ℕ)
dwell_minutes =
    ("FD6", 60)
    ∷ ("CE7", 45)
    ∷ ("CT1", 90)
    ∷ ("AT4", 60)
    ∷ ("MT1", 60)
    ∷ ("AD5", 0)
    ∷ ("PO3", 30)
    ∷ ("SW8", 5)
    ∷ ("PK6", 5)
    ∷ ("OL7", 5)
    ∷ ("CS2", 10)
    ∷ ("PM9", 10)
    ∷ ("BK9", 15)
    ∷ ("HP8", 30)
    ∷ ("SC4", 30)
    ∷ []

abbrev pub minutes_in : List (String × ℕ) → String → Option ℕ
minutes_in [] code = none
minutes_in ((name, m) ∷ rest) code = if str_eq name code then some m else minutes_in rest code

pub record Trig (F : Type 0) : Type 0 where
  pub radians : F → F
  pub sin : F → Option F
  pub cos : F → Option F
  pub asin : F → Option F
  pub sqrt : F → Option F
  pub add : F → F → F
  pub mul : F → F → F
  pub half : F → F
  pub square : F → F

infixl 5 ◌>>=◌
abbrev pub ◌>>=◌ {ℓ κ} : {A : Type ℓ} {B : Type κ} → Option A → (A → Option B) → Option B
none >>= f = none
some a >>= f = f a

-- what reading a coordinate gives: a number, an exception that is caught, or an OverflowError
pub data Reading (F : Type 0) : Type 0 where
  number : F → Reading F
  caught : Reading F
  overflow : Reading F

-- whether a candidate is kept, left out, or ends the call with an exception
pub data Verdict : Type 0 where
  keep skip raise : Verdict

abbrev pub is_null : {F : Type 0} → Json F → Bool
is_null null = true
is_null _ = false

module _ {F : Type 0} (fl : Floats F) (trig : Trig F) where
  unfoldable pub haversine_m : F → F → F → F → Option F
  haversine_m lat1 lng1 lat2 lng2 =
      let phi1 = trig.radians lat1 in
      let phi2 = trig.radians lat2 in
      let dphi = trig.radians (fl.sub lat2 lat1) in
      let dlambda = trig.radians (fl.sub lng2 lng1) in
      do
        s ← trig.sin (trig.half dphi)
        c1 ← trig.cos phi1
        c2 ← trig.cos phi2
        t ← trig.sin (trig.half dlambda)
        root ← trig.sqrt (trig.add (trig.square s) (trig.mul (trig.mul c1 c2) (trig.square t)))
        angle ← trig.asin root
        some (trig.mul (fl.lit (pos 12742000)) angle)

  abbrev pub parsed : Option F → Reading F
  parsed none = caught
  parsed (some x) = number x

  abbrev pub converted : Option F → Reading F
  converted none = overflow
  converted (some x) = number x

  -- `float(value)`
  abbrev pub read : Json F → Reading F
  read (bool true) = converted (fl.of_int (pos 1))
  read (bool false) = converted (fl.of_int (pos 0))
  read (int z) = converted (fl.of_int z)
  read (float x) = number x
  read (str s) = parsed (fl.parse s)
  read _ = caught

  abbrev pub within : ℕ → Option F → Verdict
  within radius none = skip
  within radius (some dist) = if fl.le dist (fl.lit (pos radius)) then keep else skip

  abbrev pub judge_point : F × F → ℕ → Reading F → Reading F → Verdict
  judge_point origin radius overflow b = raise
  judge_point origin radius caught b = skip
  judge_point origin radius (number lat) overflow = raise
  judge_point origin radius (number lat) caught = skip
  judge_point origin radius (number lat) (number lng) =
      within radius (haversine_m origin.0 origin.1 lat lng)

  abbrev pub judge_values : F × F → ℕ → Json F → Json F → Verdict
  judge_values origin radius lat lng =
      if is_null lat || is_null lng then skip else judge_point origin radius (read lat) (read lng)

  unfoldable pub judge : F × F → ℕ → Fields F → Verdict
  judge origin radius c = judge_values origin radius (get "lat" c) (get "lng" c)

  abbrev pub add_kept : Verdict → Fields F → Option (List (Fields F)) → Option (List (Fields F))
  add_kept raise c rest = none
  add_kept skip c rest = rest
  add_kept keep c none = none
  add_kept keep c (some cs) = some (c ∷ cs)

  unfoldable pub keep_near : F × F → ℕ → List (Fields F) → Option (List (Fields F))
  keep_near origin radius [] = some []
  keep_near origin radius (c ∷ cs) = add_kept (judge origin radius c) c (keep_near origin radius cs)

  abbrev pub with_radius : ℕ → Option (List (Fields F)) → Option (List (Fields F) × Option ℕ)
  with_radius r none = none
  with_radius r (some cs) = some (cs, some r)

  abbrev pub filter_within :
      F × F → Option ℕ → List (Fields F) → Option (List (Fields F) × Option ℕ)
  filter_within origin none candidates = some (candidates, none)
  filter_within origin (some r) candidates = with_radius r (keep_near origin r candidates)

  unfoldable pub filter_by_radius :
      F × F → String → List (Fields F) → Option (List (Fields F) × Option ℕ)
  filter_by_radius origin mobility candidates =
      filter_within origin (radius_in radius_m mobility) candidates
