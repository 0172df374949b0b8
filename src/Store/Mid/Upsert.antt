-- ===== src/Store/Mid/Upsert.antt =====
-- What the upserts of the mid-term forecasts leave in the tables.
use mathlib.Core.Path.{subst}
use mathlib.Core.Option.{some-injective}
use map_service_hub.Base.{
  ℕ, ◌≡◌, ◌≤◌, Bool, false, ◌&&◌, Option, none, some, List, [], ◌∷◌, String, str_eq, arith,
  if-cases, is_none, length, All,
}
use map_service_hub.Base.Int.{ℤ, pos, negsuc, ◌≤ℤ◌, ltb_ℤ, leb_ℤ}
use map_service_hub.Base.Json.{Json, null, bool, int, float, str, list, dict, Fields, get}
use map_service_hub.Store.{LandStored, TempStored, Tables}
use map_service_hub.Store.Mid.{
  Ints, within_900, within_100, safe_int, safe_pop, put_row, put_rows, land_rows, put_bound,
  store_land, upsert_mid_land, land_keys, LandKeys, temp_row, temp_rows, temp_keys, TempKeys,
  upsert_mid_temp, same_land, same_temp, with_land, is_null,
}

abbrev pub IsWithin : ℤ → ℤ → Option ℤ → Type 0
IsWithin lo hi none = Unit
IsWithin lo hi (some z) = (lo ≤ℤ z) × (z ≤ℤ hi)

within_900-IsWithin : (o : Option ℤ) → IsWithin (negsuc 898) (pos 899) (within_900 o)
within_900-IsWithin none = tt
within_900-IsWithin (some z) =
    if-cases (IsWithin (negsuc 898) (pos 899)) (ltb_ℤ (negsuc 899) z && ltb_ℤ z (pos 900)) (some z)
      none (λ e. ground arith) (λ _. tt)

within_100-IsWithin : (o : Option ℤ) → IsWithin (pos 0) (pos 100) (within_100 o)
within_100-IsWithin none = tt
within_100-IsWithin (some z) =
    if-cases (IsWithin (pos 0) (pos 100)) (leb_ℤ (pos 0) z && leb_ℤ z (pos 100)) (some z) none
      (λ e. ground arith) (λ _. tt)

-- the land row has a probability of rain from 0 to 100, or none
abbrev pub IsLandRow : LandStored → Type 0
IsLandRow r = IsWithin (pos 0) (pos 100) r.rain_prob_pct

-- each temperature is between -899 and 899 or missing, and the lowest and the highest are not both
abbrev pub IsTempRow : TempStored → Type 0
IsTempRow r =
    ((is_none r.ta_min && is_none r.ta_max) ≡ false)
    × IsWithin (negsuc 898) (pos 899) r.ta_min
    × IsWithin (negsuc 898) (pos 899) r.ta_min_low
    × IsWithin (negsuc 898) (pos 899) r.ta_min_high
    × IsWithin (negsuc 898) (pos 899) r.ta_max
    × IsWithin (negsuc 898) (pos 899) r.ta_max_low
    × IsWithin (negsuc 898) (pos 899) r.ta_max_high

module _ {A : Type 0} (same : A → A → Bool) (P : A → Type 0) where
  put_row-All : (new : A) (table : List A) → P new → All P table → All P (put_row same new table)
  put_row-All new [] h k = (h, tt)
  put_row-All new (r ∷ rs) h k =
      if-cases (All P) (same r new) (new ∷ rs) (r ∷ put_row same new rs) (λ _. (h, k.1))
        (λ _. (k.0, put_row-All new rs h k.1))

  put_rows-All : (news table : List A) → All P news → All P table → All P (put_rows same news table)
  put_rows-All [] table h k = k
  put_rows-All (new ∷ news) table h k =
      put_rows-All news (put_row same new table) h.1 (put_row-All new table h.0 k)

module _ {F : Type 0} (ints : Ints F) (bind_text : Json F → Option (Option String)) where
  safe_int-IsWithin : (v : Json F) → IsWithin (negsuc 898) (pos 899) (safe_int ints bind_text v)
  unfolding safe_int
  safe_int-IsWithin null = tt
  safe_int-IsWithin (bool b) = tt
  safe_int-IsWithin (int z) = within_900-IsWithin (some z)
  safe_int-IsWithin (float x) = within_900-IsWithin (ints.trunc x)
  safe_int-IsWithin (str s) =
      if-cases (IsWithin (negsuc 898) (pos 899)) (str_eq s "") none (within_900 (ints.of_text s))
        (λ _. tt) (λ _. within_900-IsWithin (ints.of_text s))
  safe_int-IsWithin (list xs) = tt
  safe_int-IsWithin (dict d) = tt

  temp_rows-All :
      (reg_id : String) (tm_fc now : ℕ) (payload : Fields F) (ks : List TempKeys)
      → All IsTempRow (temp_rows ints bind_text reg_id tm_fc now payload ks)
        × (length (temp_rows ints bind_text reg_id tm_fc now payload ks) ≤ length ks)
  unfolding temp_rows
  temp_rows-All reg_id tm_fc now payload [] = (tt, omega arith)
  temp_rows-All reg_id tm_fc now payload (k ∷ ks) =
      let rest = temp_rows-All reg_id tm_fc now payload ks in
      let rows = temp_rows ints bind_text reg_id tm_fc now payload ks in
      let row = temp_row ints bind_text reg_id tm_fc now payload k in
      let bound = λ (name : String). safe_int-IsWithin (get name payload) in
      if-cases (λ (xs : List TempStored). All IsTempRow xs × (length xs ≤ length (k ∷ ks)))
        (is_none row.ta_min && is_none row.ta_max) rows (row ∷ rows)
        (λ _. (rest.0, omega (arith, rest.1)))
        (λ e. (
          (
            (
              e,
              bound k.ta_min,
              bound k.ta_min_low,
              bound k.ta_min_high,
              bound k.ta_max,
              bound k.ta_max_low,
              bound k.ta_max_high,
            ),
            rest.0,
          ),
          omega (arith, rest.1),
        ))

  -- A call for the temperatures stores at most seven rows and says how many. A table whose rows all have
  -- a lowest or a highest temperature, and no value out of -899 to 899, stays so, whatever the payload.
  pub upsert_mid_temp-IsTempRow :
      (t : Tables) (reg_id : String) (tm_fc now : ℕ) (payload : Fields F)
      → All IsTempRow t.mid_temp
      → let result = upsert_mid_temp ints bind_text t reg_id tm_fc now payload in
        All IsTempRow result.0.mid_temp × (result.1 ≤ 7)
  unfolding upsert_mid_temp
  upsert_mid_temp-IsTempRow t reg_id tm_fc now payload h =
      let rows = temp_rows-All reg_id tm_fc now payload temp_keys in
      (
        put_rows-All same_temp IsTempRow
            (temp_rows ints bind_text reg_id tm_fc now payload temp_keys) t.mid_temp rows.0 h,
        rows.1,
      )

  -- What the rows of a land payload are, where the driver binds them all.
  abbrev AreLandRows : List LandKeys → Option (List LandStored) → Type 0
  AreLandRows ks none = Unit
  AreLandRows ks (some rows) = All IsLandRow rows × (length rows ≤ length ks)

  add_land-AreLandRows :
      (reg_id : String) (tm_fc now : ℕ) (k : LandKeys) (weather : Json F) (rain : Option ℤ)
      (bound : Option (Option String)) (rest : Option (List LandStored)) (ks : List LandKeys)
      → IsWithin (pos 0) (pos 100) rain
      → AreLandRows ks rest
      → AreLandRows (k ∷ ks) (put_bound reg_id tm_fc now k rain bound rest)
  add_land-AreLandRows reg_id tm_fc now k weather rain none rest ks h r = tt
  add_land-AreLandRows reg_id tm_fc now k weather rain (some b) none ks h r = tt
  add_land-AreLandRows reg_id tm_fc now k weather rain (some b) (some rows) ks h r =
      ((h, r.0), omega (arith, r.1))

  AreLandRows-more :
      (k : LandKeys) (ks : List LandKeys) (o : Option (List LandStored))
      → AreLandRows ks o
      → AreLandRows (k ∷ ks) o
  AreLandRows-more k ks none h = tt
  AreLandRows-more k ks (some rows) h = (h.0, omega (arith, h.1))

  land_rows-AreLandRows :
      (reg_id : String) (tm_fc now : ℕ) (payload : Fields F) (ks : List LandKeys)
      → AreLandRows ks (land_rows ints bind_text reg_id tm_fc now payload ks)
  unfolding land_rows safe_pop
  land_rows-AreLandRows reg_id tm_fc now payload [] = (tt, omega arith)
  land_rows-AreLandRows reg_id tm_fc now payload (k ∷ ks) =
      let rest = land_rows-AreLandRows reg_id tm_fc now payload ks in
      let rows = land_rows ints bind_text reg_id tm_fc now payload ks in
      let weather = get k.wf payload in
      let rain = safe_pop ints bind_text (get k.rn_st payload) in
      if-cases (AreLandRows (k ∷ ks)) (is_null weather && is_none rain) rows
        (put_bound reg_id tm_fc now k rain (bind_text weather) rows)
        (λ _. AreLandRows-more k ks rows rest)
        (λ _.
          add_land-AreLandRows reg_id tm_fc now k weather rain (bind_text weather) rows ks
            (within_100-IsWithin (safe_int ints bind_text (get k.rn_st payload))) rest)

  store_land-IsLandRow :
      (t u : Tables) (n : ℕ) (o : Option (List LandStored))
      → AreLandRows land_keys o
      → All IsLandRow t.mid_land
      → store_land ints bind_text t o ≡ some (u, n)
      → All IsLandRow u.mid_land × (n ≤ 11)
  store_land-IsLandRow t u n none a h e = ground arith
  store_land-IsLandRow t u n (some rows) a h e =
      let result : Tables × ℕ = (with_land t (put_rows same_land rows t.mid_land), length rows) in
      subst (λ (p : Tables × ℕ). All IsLandRow p.0.mid_land × (p.1 ≤ 11))
        (some-injective result (u, n) e)
        (put_rows-All same_land IsLandRow rows t.mid_land a.0 h, a.1)

  -- A call for the land forecast that stores stores at most eleven rows and says how many. A table whose
  -- probabilities of rain are all from 0 to 100 or missing stays so, whatever the payload.
  pub upsert_mid_land-IsLandRow :
      (t after_call : Tables) (reg_id : String) (tm_fc now n : ℕ) (payload : Fields F)
      → All IsLandRow t.mid_land
      → upsert_mid_land ints bind_text t reg_id tm_fc now payload ≡ some (after_call, n)
      → All IsLandRow after_call.mid_land × (n ≤ 11)
  unfolding upsert_mid_land
  upsert_mid_land-IsLandRow t u reg_id tm_fc now n payload h e =
      store_land-IsLandRow t u n (land_rows ints bind_text reg_id tm_fc now payload land_keys)
        (land_rows-AreLandRows reg_id tm_fc now payload land_keys) h e
