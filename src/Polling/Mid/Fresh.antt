-- ===== src/Polling/Mid/Fresh.antt =====
-- The tests of the watchdog of app/scheduler/hub_scheduler.py on the tables, as conditions.
use map_service_hub.Base.{
  ℕ, ◌≡◌, ◌⊎◌, ◌≤◌, inl, inr, refl, Bool, true, not, ◌&&◌, ◌==◌, Option, some, List, [], ◌∷◌, arith,
  String, str_eq, eq_iff, Bool-cases, all_by, any_by-In, All,
}
use map_service_hub.Base.Json.{Json, Fields}
use map_service_hub.Kma.{Calendar, Text}
use map_service_hub.Store.{LandStored, TempStored, Tables}
use map_service_hub.Store.Mid.{Ints, latest_mid_tm_fc}
use map_service_hub.Polling.{World}
use map_service_hub.Polling.Mid.{
  loaded_mid_land_regs, loaded_mid_temp_regs, is_missing, land_regs, temp_regs, all_loaded,
}
use map_service_hub.Polling.Mid.Loaded.{HasLand, HasTemp, loaded-HasLand, loaded-HasTemp}
use map_service_hub.Polling.Mid.Missing.{AllLoaded}

-- The tables have the publication for every region that an active grid names, and no table has reached
-- only an earlier one.
abbrev pub IsFresh : ℕ → Tables → Type 0
IsFresh expected t =
    ((c : ℕ) × (latest_mid_tm_fc t ≡ some c) × (expected ≤ c)) × AllLoaded expected t

HasLand-loaded :
    (t : Tables) (tm_fc : ℕ) (r : String)
    → HasLand tm_fc r t
    → loaded_mid_land_regs t tm_fc r ≡ true
unfolding loaded_mid_land_regs
HasLand-loaded t tm_fc r (row, i, (reg, at)) =
    any_by-In (λ (q : LandStored). (q.tm_fc == tm_fc) && str_eq q.reg_id r) row t.mid_land i
      (ground (arith, (eq_iff row.reg_id r).1 reg))

HasTemp-loaded :
    (t : Tables) (tm_fc : ℕ) (r : String)
    → HasTemp tm_fc r t
    → loaded_mid_temp_regs t tm_fc r ≡ true
unfolding loaded_mid_temp_regs
HasTemp-loaded t tm_fc r (row, i, (reg, at)) =
    any_by-In (λ (q : TempStored). (q.tm_fc == tm_fc) && str_eq q.reg_id r) row t.mid_temp i
      (ground (arith, (eq_iff row.reg_id r).1 reg))

-- the regions that are not missing, as a test and as a condition
not_missing-All :
    (loaded : String → Bool) (Q : String → Type 0) (regs : List String)
    → ((r : String) → loaded r ≡ true → Q r)
    → all_by (λ r. not (is_missing loaded r)) regs ≡ true
    → All (λ r. (r ≡ "") ⊎ Q r) regs
not_missing-All loaded Q [] h e = tt
not_missing-All loaded Q (r ∷ rs) h e = (
  elim (Bool-cases (str_eq r "")) [
    | inl unnamed ↦ inl ((eq_iff r "").0 unnamed)
    | inr named ↦ inr (h r (ground arith))
  ],
  not_missing-All loaded Q rs h (ground arith),
)

All-not_missing :
    (loaded : String → Bool) (Q : String → Type 0) (regs : List String)
    → ((r : String) → Q r → loaded r ≡ true)
    → All (λ r. (r ≡ "") ⊎ Q r) regs
    → all_by (λ r. not (is_missing loaded r)) regs ≡ true
All-not_missing loaded Q [] h k = refl
All-not_missing loaded Q (r ∷ rs) h (inl unnamed, k) =
    ground (arith, (eq_iff r "").1 unnamed, All-not_missing loaded Q rs h k)
All-not_missing loaded Q (r ∷ rs) h (inr q, k) =
    ground (arith, h r q, All-not_missing loaded Q rs h k)

module _ {F S : Type 0} (w : World S) (cal : Calendar) (ints : Ints F)
    (bind_text : Json F → Option (Option String))
    (fetch_mid_land fetch_mid_temp : String → Text → S → Option (Fields F) × S) (expected : ℕ) where
  pub all_loaded-AllLoaded :
      (t : Tables)
      → all_loaded w cal ints bind_text fetch_mid_land fetch_mid_temp expected t ≡ true
      → AllLoaded expected t
  all_loaded-AllLoaded t e = (
    not_missing-All (loaded_mid_land_regs t expected) (λ r. HasLand expected r t) (land_regs t)
        (loaded-HasLand t expected) (ground arith),
    not_missing-All (loaded_mid_temp_regs t expected) (λ r. HasTemp expected r t) (temp_regs t)
        (loaded-HasTemp t expected) (ground arith),
  )

  pub AllLoaded-all_loaded :
      (t : Tables)
      → AllLoaded expected t
      → all_loaded w cal ints bind_text fetch_mid_land fetch_mid_temp expected t ≡ true
  AllLoaded-all_loaded t h =
      let lands =
        All-not_missing (loaded_mid_land_regs t expected) (λ r. HasLand expected r t) (land_regs t)
          (HasLand-loaded t expected) h.0 in
      let temps =
        All-not_missing (loaded_mid_temp_regs t expected) (λ r. HasTemp expected r t) (temp_regs t)
          (HasTemp-loaded t expected) h.1 in
      ground arith
