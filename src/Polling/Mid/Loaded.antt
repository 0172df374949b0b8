-- ===== src/Polling/Mid/Loaded.antt =====
-- What storing a payload of a region does to the two mid-term tables of app/db/forecast_repo.py.
use mathlib.Core.Path.{subst}
use map_service_hub.Base.{
  ℕ, ◌≡◌, inl, inr, refl, sym, ◌∙◌, Bool, true, false, not, ◌&&◌, Option, none, some, List, [], ◌∷◌,
  arith, ◌==◌, if-cases, In, All, In-any_by, String, str_eq, eq_iff, length, is_none,
}
use map_service_hub.Base.Int.{ℤ}
use map_service_hub.Base.Json.{Json, Fields, get}
use map_service_hub.Store.{LandStored, TempStored, Tables}
use map_service_hub.Store.Grids.{select_active_grids}
use map_service_hub.Store.Mid.{
  Ints, same_land, same_temp, put_row, put_rows, put_bound, is_null, safe_pop, land_rows,
  store_land, upsert_mid_land, land_keys, LandKeys, temp_row, temp_rows, temp_keys, TempKeys,
  upsert_mid_temp,
}
use map_service_hub.Polling.{stored_some}
use map_service_hub.Polling.Mid.{loaded_mid_land_regs, loaded_mid_temp_regs}

-- some row of a table satisfies a predicate
abbrev pub Some : {A : Type 0} → (A → Type 0) → List A → Type 0
Some P rows = (r : _) × In r rows × P r

abbrev pub IsLandOf : ℕ → String → LandStored → Type 0
IsLandOf tm_fc reg_id r = (r.reg_id ≡ reg_id) × (r.tm_fc ≡ tm_fc)

abbrev pub IsTempOf : ℕ → String → TempStored → Type 0
IsTempOf tm_fc reg_id r = (r.reg_id ≡ reg_id) × (r.tm_fc ≡ tm_fc)

-- the table has a row of the region in the publication
abbrev pub HasLand : ℕ → String → Tables → Type 0
HasLand tm_fc reg_id t = Some (IsLandOf tm_fc reg_id) t.mid_land

abbrev pub HasTemp : ℕ → String → Tables → Type 0
HasTemp tm_fc reg_id t = Some (IsTempOf tm_fc reg_id) t.mid_temp

module _ {A : Type 0} (same : A → A → Bool) (P : A → Type 0)
    (stable : (r new : A) → same r new ≡ true → P r → P new) where
  put_row-Some : (new : A) (table : List A) → Some P table → Some P (put_row same new table)
  put_row-Some new [] (r, i, h) = elim i [ ]
  put_row-Some new (s ∷ rows) (r, i, h) =
      if-cases (Some P) (same s new) (new ∷ rows) (s ∷ put_row same new rows)
        (λ e. elim i [
          | inl q ↦ (new, inl refl, stable s new e (subst P q h))
          | inr j ↦ (r, inr j, h)
        ])
        (λ _. elim i [
          | inl q ↦ (r, inl q, h)
          | inr j ↦ let (r', i', h') = put_row-Some new rows (r, j, h) in (r', inr i', h')
        ])

  put_row-adds : (new : A) (table : List A) → P new → Some P (put_row same new table)
  put_row-adds new [] h = (new, inl refl, h)
  put_row-adds new (s ∷ rows) h =
      if-cases (Some P) (same s new) (new ∷ rows) (s ∷ put_row same new rows)
        (λ _. (new, inl refl, h))
        (λ _. let (r', i', h') = put_row-adds new rows h in (r', inr i', h'))

  pub put_rows-Some : (news table : List A) → Some P table → Some P (put_rows same news table)
  put_rows-Some [] table h = h
  put_rows-Some (new ∷ news) table h =
      put_rows-Some news (put_row same new table) (put_row-Some new table h)

  pub put_rows-adds :
      (news table : List A)
      → All P news
      → not (length news == 0) ≡ true
      → Some P (put_rows same news table)
  put_rows-adds [] table h e = absurd (ground arith)
  put_rows-adds (new ∷ news) table h e =
      put_rows-Some news (put_row same new table) (put_row-adds new table h.0)

land-stable :
    (tm_fc : ℕ) (reg_id : String) (r new : LandStored)
    → same_land r new ≡ true
    → IsLandOf tm_fc reg_id r
    → IsLandOf tm_fc reg_id new
unfolding same_land
land-stable tm_fc reg_id r new e (q, p) =
    (sym ((eq_iff r.reg_id new.reg_id).0 (ground arith)) ∙ q, ground arith)

temp-stable :
    (tm_fc : ℕ) (reg_id : String) (r new : TempStored)
    → same_temp r new ≡ true
    → IsTempOf tm_fc reg_id r
    → IsTempOf tm_fc reg_id new
unfolding same_temp
temp-stable tm_fc reg_id r new e (q, p) =
    (sym ((eq_iff r.reg_id new.reg_id).0 (ground arith)) ∙ q, ground arith)

pub loaded-HasLand :
    (t : Tables) (tm_fc : ℕ) (reg_id : String)
    → loaded_mid_land_regs t tm_fc reg_id ≡ true
    → HasLand tm_fc reg_id t
unfolding loaded_mid_land_regs
loaded-HasLand t tm_fc reg_id h =
    let test = λ (r : LandStored). (r.tm_fc == tm_fc) && str_eq r.reg_id reg_id in
    let (r, i, e) = In-any_by test t.mid_land h in
    (r, i, ((eq_iff r.reg_id reg_id).0 (ground arith), ground arith))

pub loaded-HasTemp :
    (t : Tables) (tm_fc : ℕ) (reg_id : String)
    → loaded_mid_temp_regs t tm_fc reg_id ≡ true
    → HasTemp tm_fc reg_id t
unfolding loaded_mid_temp_regs
loaded-HasTemp t tm_fc reg_id h =
    let test = λ (r : TempStored). (r.tm_fc == tm_fc) && str_eq r.reg_id reg_id in
    let (r, i, e) = In-any_by test t.mid_temp h in
    (r, i, ((eq_iff r.reg_id reg_id).0 (ground arith), ground arith))

-- The subscribed grids stay, and no region loses its last row of a publication.
pub record Grows (t u : Tables) : Type 0 where
  pub grids : select_active_grids u ≡ select_active_grids t
  pub kept_land : (n : ℕ) (reg : String) → HasLand n reg t → HasLand n reg u
  pub kept_temp : (n : ℕ) (reg : String) → HasTemp n reg t → HasTemp n reg u

pub Grows-refl : (t : Tables) → Grows t t
Grows-refl t = record { grids = refl; kept_land = λ n reg h. h; kept_temp = λ n reg h. h }

pub Grows-trans : (t u v : Tables) → Grows t u → Grows u v → Grows t v
Grows-trans t u v a b = record {
  grids = b.grids ∙ a.grids;
  kept_land = λ n reg h. b.kept_land n reg (a.kept_land n reg h);
  kept_temp = λ n reg h. b.kept_temp n reg (a.kept_temp n reg h);
}

-- What storing does to the tables, whether it raises or not; `Q` is what it adds.
pub record Writes (Q : Tables → Type 0) (t : Tables) (result : Bool × Tables) : Type 0 where
  pub grows : Grows t result.1
  pub done : result.0 ≡ true → Q result.1

pub failed-Writes : (Q : Tables → Type 0) (t : Tables) → Writes Q t (false, t)
failed-Writes Q t = record { grows = Grows-refl t; done = λ e. ground arith }

module _ {F : Type 0} (ints : Ints F) (bind_text : Json F → Option (Option String))
    (reg_id : String) (tm_fc now : ℕ) where
  abbrev AreLandOf : Option (List LandStored) → Type 0
  AreLandOf none = Unit
  AreLandOf (some rows) = All (IsLandOf tm_fc reg_id) rows

  put_bound-AreLandOf :
      (k : LandKeys) (rain : Option ℤ) (bound : Option (Option String))
      (rest : Option (List LandStored))
      → AreLandOf rest
      → AreLandOf (put_bound reg_id tm_fc now k rain bound rest)
  put_bound-AreLandOf k rain none rest h = tt
  put_bound-AreLandOf k rain (some weather) none h = tt
  put_bound-AreLandOf k rain (some weather) (some rows) h = ((refl, refl), h)

  land_rows-AreLandOf :
      (payload : Fields F) (ks : List LandKeys)
      → AreLandOf (land_rows ints bind_text reg_id tm_fc now payload ks)
  unfolding land_rows
  land_rows-AreLandOf payload [] = tt
  land_rows-AreLandOf payload (k ∷ ks) =
      let rest = land_rows ints bind_text reg_id tm_fc now payload ks in
      let rain = safe_pop ints bind_text (get k.rn_st payload) in
      if-cases AreLandOf (is_null (get k.wf payload) && is_none rain) rest
        (put_bound reg_id tm_fc now k rain (bind_text (get k.wf payload)) rest)
        (λ _. land_rows-AreLandOf payload ks)
        (λ _.
          put_bound-AreLandOf k rain (bind_text (get k.wf payload)) rest
            (land_rows-AreLandOf payload ks))

  store_land-Writes :
      (t : Tables) (rows : Option (List LandStored))
      → AreLandOf rows
      → Writes (HasLand tm_fc reg_id) t (stored_some t (store_land ints bind_text t rows))
  unfolding select_active_grids
  store_land-Writes t none h = failed-Writes (HasLand tm_fc reg_id) t
  store_land-Writes t (some rows) h = record {
    grows = record {
      grids = refl;
      kept_land =
          λ n reg. put_rows-Some same_land (IsLandOf n reg) (land-stable n reg) rows t.mid_land;
      kept_temp = λ n reg k. k;
    };
    done =
        put_rows-adds same_land (IsLandOf tm_fc reg_id) (land-stable tm_fc reg_id) rows t.mid_land
          h;
  }

  pub upsert_mid_land-Writes :
      (t : Tables) (payload : Fields F)
      → Writes
          (HasLand tm_fc reg_id)
          t
          (stored_some t (upsert_mid_land ints bind_text t reg_id tm_fc now payload))
  unfolding upsert_mid_land
  upsert_mid_land-Writes t payload =
      store_land-Writes t (land_rows ints bind_text reg_id tm_fc now payload land_keys)
        (land_rows-AreLandOf payload land_keys)

  temp_rows-All :
      (payload : Fields F) (ks : List TempKeys)
      → All (IsTempOf tm_fc reg_id) (temp_rows ints bind_text reg_id tm_fc now payload ks)
  unfolding temp_rows
  temp_rows-All payload [] = tt
  temp_rows-All payload (k ∷ ks) =
      let rest = temp_rows ints bind_text reg_id tm_fc now payload ks in
      let row = temp_row ints bind_text reg_id tm_fc now payload k in
      if-cases (All (IsTempOf tm_fc reg_id)) (is_none row.ta_min && is_none row.ta_max) rest
        (row ∷ rest) (λ _. temp_rows-All payload ks) (λ _. ((refl, refl), temp_rows-All payload ks))

  pub upsert_mid_temp-Writes :
      (t : Tables) (payload : Fields F)
      → Writes
          (HasTemp tm_fc reg_id)
          t
          (stored_some t (some (upsert_mid_temp ints bind_text t reg_id tm_fc now payload)))
  unfolding upsert_mid_temp select_active_grids
  upsert_mid_temp-Writes t payload =
      let rows = temp_rows ints bind_text reg_id tm_fc now payload temp_keys in
      record {
        grows = record {
          grids = refl;
          kept_land = λ n reg k. k;
          kept_temp =
              λ n reg. put_rows-Some same_temp (IsTempOf n reg) (temp-stable n reg) rows t.mid_temp;
        };
        done =
            put_rows-adds same_temp (IsTempOf tm_fc reg_id) (temp-stable tm_fc reg_id) rows
              t.mid_temp (temp_rows-All payload temp_keys);
      }
