-- ===== src/Polling/Mid/Finished.antt =====
-- What the mid-term loop of app/scheduler/hub_scheduler.py leaves in the tables.
use mathlib.Core.Path.{subst}
use map_service_hub.Base.{
  ℕ, suc, ◌≡◌, refl, sym, Bool, true, false, Option, none, some, List, [], ◌∷◌, In, String,
}
use map_service_hub.Base.Json.{Json, Fields}
use map_service_hub.Kma.{Calendar, Text}
use map_service_hub.Store.{Tables}
use map_service_hub.Store.Mid.{Ints, upsert_mid_land, upsert_mid_temp}
use map_service_hub.Polling.{World, State, Pace, Plan, poll_each, write_if, in_read, stored_some}
use map_service_hub.Polling.Outcome.{
  Finishes, poll_each-Keeps, poll_each-Reaches, rounds-Finishes, IsPlan, Plans, in_read-Plans,
}
use map_service_hub.Polling.Mid.{
  land_pending, temp_pending, Pending, plan_both, store_land, store_temp, attempt_land,
  attempt_temp, with_pending, plan_mid, poll_both, mid_rounds,
}
use map_service_hub.Polling.Mid.Missing.{AllLoaded, pending-AllLoaded, append-empty}
use map_service_hub.Polling.Mid.Loaded.{
  Grows, Grows-refl, Grows-trans, HasLand, HasTemp, Writes, failed-Writes, upsert_mid_land-Writes,
  upsert_mid_temp-Writes,
}

-- What other tasks do to the tables while the loop sleeps.
pub record IsCalm {S : Type 0} (w : World S) : Type 0 where
  pub grows : (n : ℕ) (s : S) (t : Tables) → Grows t (w.sleep n s t).1

module _ {S : Type 0} (w : World S) (calm : IsCalm w) (attempt : String → State S → Bool × State S)
    (Q : String → Tables → Type 0)
    (writes : (r : String) (st : State S)
      → Writes (Q r) st.tables ((attempt r st).0, (attempt r st).1.tables))
    (stays : (r : String) (t u : Tables) → Grows t u → Q r t → Q r u) where
  pub each-Grows :
      (interval deadline : ℕ) (regs : List String) (st : State S)
      → Grows st.tables (poll_each w interval deadline attempt regs st).1.tables
  each-Grows interval deadline regs st =
      poll_each-Keeps w attempt (λ _ t. Grows st.tables t)
        (λ a b s k. Grows-trans st.tables s.tables (attempt a s).1.tables k (writes a s).grows)
        (λ n b s t k. Grows-trans st.tables t (w.sleep n s t).1 k (calm.grows n s t)) interval
        deadline regs "" st (Grows-refl st.tables)

  pub each-done :
      (interval deadline : ℕ) (regs : List String) (st : State S)
      → (poll_each w interval deadline attempt regs st).0 ≡ []
      → (r : String) → In r regs
      → Q r (poll_each w interval deadline attempt regs st).1.tables
  each-done interval deadline regs =
      poll_each-Reaches w attempt Q
        (λ a b s. stays b s.tables (attempt a s).1.tables (writes a s).grows)
        (λ n b s t. stays b t (w.sleep n s t).1 (calm.grows n s t)) (λ a s. (writes a s).done)
        interval deadline regs

module _ {F S : Type 0} (w : World S) (cal : Calendar) (ints : Ints F)
    (bind_text : Json F → Option (Option String))
    (fetch_mid_land fetch_mid_temp : String → Text → S → Option (Fields F) × S) where
  write_if-Writes :
      (ok : Bool) (Q : Tables → Type 0) (f : Tables → Option (Tables × ℕ)) (st : State S)
      → Writes Q st.tables (stored_some st.tables (f st.tables))
      → Writes Q st.tables ((write_if w ok f st).0, (write_if w ok f st).1.tables)
  write_if-Writes false Q f st h = failed-Writes Q st.tables
  write_if-Writes true Q f st h = h

  store_land-Writes :
      (tm_fc : ℕ) (rid : String) (payload : Option (Fields F)) (st : State S)
      → let r =
          store_land w cal ints bind_text fetch_mid_land fetch_mid_temp tm_fc rid payload st in
        Writes (HasLand tm_fc rid) st.tables (r.0, r.1.tables)
  store_land-Writes tm_fc rid none st = failed-Writes (HasLand tm_fc rid) st.tables
  store_land-Writes tm_fc rid (some payload) st =
      let opened = w.session st.world in
      let clock = w.clock opened.1 in
      write_if-Writes opened.0 (HasLand tm_fc rid)
        (λ t. upsert_mid_land ints bind_text t rid tm_fc clock.0 payload)
        (record { world = clock.1; tables = st.tables })
        (upsert_mid_land-Writes ints bind_text rid tm_fc clock.0 st.tables payload)

  store_temp-Writes :
      (tm_fc : ℕ) (rid : String) (payload : Option (Fields F)) (st : State S)
      → let r =
          store_temp w cal ints bind_text fetch_mid_land fetch_mid_temp tm_fc rid payload st in
        Writes (HasTemp tm_fc rid) st.tables (r.0, r.1.tables)
  store_temp-Writes tm_fc rid none st = failed-Writes (HasTemp tm_fc rid) st.tables
  store_temp-Writes tm_fc rid (some payload) st =
      let opened = w.session st.world in
      let clock = w.clock opened.1 in
      write_if-Writes opened.0 (HasTemp tm_fc rid)
        (λ t. some (upsert_mid_temp ints bind_text t rid tm_fc clock.0 payload))
        (record { world = clock.1; tables = st.tables })
        (upsert_mid_temp-Writes ints bind_text rid tm_fc clock.0 st.tables payload)

  module _ (calm : IsCalm w) (pace : Pace) (tm_fc_str : Text) (tm_fc : ℕ) where
    abbrev land : String → State S → Bool × State S
    land = attempt_land w cal ints bind_text fetch_mid_land fetch_mid_temp tm_fc_str tm_fc

    abbrev temp : String → State S → Bool × State S
    temp = attempt_temp w cal ints bind_text fetch_mid_land fetch_mid_temp tm_fc_str tm_fc

    land-Writes :
        (r : String) (st : State S)
        → Writes (HasLand tm_fc r) st.tables ((land r st).0, (land r st).1.tables)
    unfolding attempt_land
    land-Writes r st =
        let fetched = fetch_mid_land r tm_fc_str st.world in
        store_land-Writes tm_fc r fetched.0 (record { world = fetched.1; tables = st.tables })

    temp-Writes :
        (r : String) (st : State S)
        → Writes (HasTemp tm_fc r) st.tables ((temp r st).0, (temp r st).1.tables)
    unfolding attempt_temp
    temp-Writes r st =
        let fetched = fetch_mid_temp r tm_fc_str st.world in
        store_temp-Writes tm_fc r fetched.0 (record { world = fetched.1; tables = st.tables })

    -- what is left to poll of the tables
    abbrev IsLeft : Tables → Pending → Type 0
    IsLeft t p = (land_pending tm_fc t ≡ p.0) × (temp_pending tm_fc t ≡ p.1)

    plan_both-IsPlan :
        (t : Tables) (p : Pending)
        → IsLeft t p
        → IsPlan w IsLeft (λ u. IsLeft u ([], [])) t (plan_both p) t
    plan_both-IsPlan t ([], []) e = (refl, e)
    plan_both-IsPlan t ([], r ∷ rs) e = (refl, e)
    plan_both-IsPlan t (l ∷ ls, rs) e = (refl, e)

    abbrev plan : State S → Plan Pending × State S
    plan = plan_mid w cal ints bind_text fetch_mid_land fetch_mid_temp tm_fc

    plan_mid-Plans : Plans w IsLeft (λ u. IsLeft u ([], [])) plan
    unfolding plan_mid
    plan_mid-Plans =
        let last = with_pending w cal ints bind_text fetch_mid_land fetch_mid_temp tm_fc in
        let none_left = λ (u : Tables). IsLeft u ([], []) in
        in_read-Plans w IsLeft none_left (in_read w (in_read w last)) (
          in_read-Plans w IsLeft none_left (in_read w last) (
            in_read-Plans w IsLeft none_left last (λ s.
              plan_both-IsPlan s.tables (land_pending tm_fc s.tables, temp_pending tm_fc s.tables)
                (refl, refl))))

    abbrev round : ℕ → Pending → State S → List String × State S
    round = poll_both w cal ints bind_text fetch_mid_land fetch_mid_temp pace tm_fc_str tm_fc

    round-AllLoaded :
        (deadline : ℕ) (p : Pending) (st : State S)
        → IsLeft st.tables p
        → (round deadline p st).0 ≡ []
        → AllLoaded tm_fc (round deadline p st).1.tables
    unfolding poll_both
    round-AllLoaded deadline p st left none_failed =
        let lands = poll_each w pace.poll_interval deadline land p.0 st in
        let temps = poll_each w pace.poll_interval deadline temp p.1 lands.1 in
        let empty = append-empty lands.0 temps.0 none_failed in
        let stays_land = λ (r : String) (t u : Tables) (g : Grows t u). g.kept_land tm_fc r in
        let stays_temp = λ (r : String) (t u : Tables) (g : Grows t u). g.kept_temp tm_fc r in
        let grows_land =
          each-Grows w calm land (HasLand tm_fc) land-Writes stays_land pace.poll_interval deadline
            p.0 st in
        let grows_temp =
          each-Grows w calm temp (HasTemp tm_fc) temp-Writes stays_temp pace.poll_interval deadline
            p.1 lands.1 in
        pending-AllLoaded tm_fc st.tables temps.1.tables
          (Grows-trans st.tables lands.1.tables temps.1.tables grows_land grows_temp)
          (λ r i. grows_temp.kept_land tm_fc r (
            each-done w calm land (HasLand tm_fc) land-Writes stays_land pace.poll_interval deadline
              p.0 st empty.0 r (subst (In r) left.0 i)))
          (λ r i.
            each-done w calm temp (HasTemp tm_fc) temp-Writes stays_temp pace.poll_interval deadline
              p.1 lands.1 empty.1 r (subst (In r) left.1 i))

    pub mid_rounds-Finishes :
        (deadline : ℕ) (st : State S)
        → Finishes w
            (λ (s : State S). AllLoaded tm_fc s.tables)
            (mid_rounds w cal ints bind_text fetch_mid_land fetch_mid_temp pace tm_fc_str tm_fc
              deadline st)
    unfolding mid_rounds
    mid_rounds-Finishes deadline st =
        let none_left = λ (u : Tables). IsLeft u ([], []) in
        rounds-Finishes w plan (round deadline) pace.retry_interval
          (λ (s : State S). AllLoaded tm_fc s.tables)
          (λ s e.
            let (same, left) =
              subst (λ found. IsPlan w IsLeft none_left s.tables found (plan s).1.tables) e
                (plan_mid-Plans s) in
            subst (AllLoaded tm_fc) (sym same) (
              pending-AllLoaded tm_fc s.tables s.tables (Grows-refl s.tables)
                (λ r i. elim (subst (In r) left.0 i) [ ])
                (λ r i. elim (subst (In r) left.1 i) [ ])))
          (λ s p e none_failed.
            let (same, left) =
              subst (λ found. IsPlan w IsLeft none_left s.tables found (plan s).1.tables) e
                (plan_mid-Plans s) in
            round-AllLoaded deadline p (plan s).1 (subst (λ t. IsLeft t p) (sym same) left)
              none_failed)
          (suc deadline) deadline [] st
