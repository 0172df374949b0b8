-- ===== src/Polling/Mid.antt =====
-- `mid_term_polling_loop` and `mid_freshness_watchdog` of app/scheduler/hub_scheduler.py, with the two
-- reads of loaded regions of app/db/forecast_repo.py. The agency's client is the parameters
-- `fetch_mid_land` and `fetch_mid_temp`, none where one raises.
pub mod Ending
pub mod Loaded
pub mod Missing
pub mod Finished
pub mod Loop
pub mod Fresh
pub mod Watchdog
use map_service_hub.Base.{
  ℕ, zero, suc, ◌+◌, Bool, true, false, not, ◌&&◌, ◌||◌, List, [], ◌∷◌, ◌++◌, map, Option, none,
  some, String, ◌==◌, str_eq, if◌then◌else◌, filter_by, any_by, all_by, leb, is_empty, ltb,
}
use map_service_hub.Base.Json.{Json, Fields}
use map_service_hub.Kma.{Calendar, Text, codes, parse_kma_tm_fc, resolve_mid_tm_fc}
use map_service_hub.Store.{SubscribedGrid, LandStored, TempStored, Tables}
use map_service_hub.Store.Grids.{select_active_grids}
use map_service_hub.Store.Mid.{Ints, upsert_mid_land, upsert_mid_temp, latest_mid_tm_fc}
use map_service_hub.Polling.{
  World, State, Pace, Ended, finished, late, raised, out_of_fuel, Plan, broken, complete, pending,
  tick, poll_each, rounds, in_session, in_read,
}

unfoldable pub loaded_mid_land_regs : Tables → ℕ → String → Bool
loaded_mid_land_regs t tm_fc reg_id =
    any_by (λ (r : LandStored). (r.tm_fc == tm_fc) && str_eq r.reg_id reg_id) t.mid_land

unfoldable pub loaded_mid_temp_regs : Tables → ℕ → String → Bool
loaded_mid_temp_regs t tm_fc reg_id =
    any_by (λ (r : TempStored). (r.tm_fc == tm_fc) && str_eq r.reg_id reg_id) t.mid_temp

-- the order of Python's `str`
abbrev pub text_leb : Text → Text → Bool
text_leb [] ys = true
text_leb (x ∷ xs) [] = false
text_leb (x ∷ xs) (y ∷ ys) = ltb x y || ((x == y) && text_leb xs ys)

-- `sorted` of a set of texts
abbrev pub insert_reg : String → List String → List String
insert_reg r [] = r ∷ []
insert_reg r (q ∷ qs) =
    if str_eq r q
    then q ∷ qs
    else if text_leb (codes r) (codes q)
    then r ∷ q ∷ qs
    else q ∷ insert_reg r qs

abbrev pub sorted_set : List String → List String
sorted_set [] = []
sorted_set (r ∷ rs) = insert_reg r (sorted_set rs)

abbrev pub is_missing : (String → Bool) → String → Bool
is_missing loaded reg_id = not (str_eq reg_id "") && not (loaded reg_id)

abbrev pub land_regs : Tables → List String
land_regs t = map (λ (g : SubscribedGrid). g.mid_land_reg_id) (select_active_grids t)

abbrev pub temp_regs : Tables → List String
temp_regs t = map (λ (g : SubscribedGrid). g.mid_temp_reg_id) (select_active_grids t)

unfoldable pub land_pending : ℕ → Tables → List String
land_pending tm_fc t =
    sorted_set (filter_by (is_missing (loaded_mid_land_regs t tm_fc)) (land_regs t))

unfoldable pub temp_pending : ℕ → Tables → List String
temp_pending tm_fc t =
    sorted_set (filter_by (is_missing (loaded_mid_temp_regs t tm_fc)) (temp_regs t))

abbrev pub Pending : Type 0
Pending = List String × List String

abbrev pub plan_both : Pending → Plan Pending
plan_both ([], []) = complete
plan_both ([], t ∷ ts) = pending ([], t ∷ ts)
plan_both (l ∷ ls, ts) = pending (l ∷ ls, ts)

-- What one run of the watchdog does.
pub data Watched : Type 0 where
  up_to_date already_running failed : Watched
  refilled : Option (Ended String) → Watched

module _ {F S : Type 0} (w : World S) (cal : Calendar) (ints : Ints F)
    (bind_text : Json F → Option (Option String))
    (fetch_mid_land fetch_mid_temp : String → Text → S → Option (Fields F) × S) where
  abbrev pub store_land : ℕ → String → Option (Fields F) → State S → Bool × State S
  store_land tm_fc rid none st = (false, st)
  store_land tm_fc rid (some payload) st =
      in_session w (λ now t. upsert_mid_land ints bind_text t rid tm_fc now payload) st

  abbrev pub store_temp : ℕ → String → Option (Fields F) → State S → Bool × State S
  store_temp tm_fc rid none st = (false, st)
  store_temp tm_fc rid (some payload) st =
      in_session w (λ now t. some (upsert_mid_temp ints bind_text t rid tm_fc now payload)) st

  -- the `try` for one region of either table
  unfoldable pub attempt_land : Text → ℕ → String → State S → Bool × State S
  attempt_land tm_fc_str tm_fc rid st =
      let fetched = fetch_mid_land rid tm_fc_str st.world in
      store_land tm_fc rid fetched.0 (record { world = fetched.1; tables = st.tables })

  unfoldable pub attempt_temp : Text → ℕ → String → State S → Bool × State S
  attempt_temp tm_fc_str tm_fc rid st =
      let fetched = fetch_mid_temp rid tm_fc_str st.world in
      store_temp tm_fc rid fetched.0 (record { world = fetched.1; tables = st.tables })

  abbrev pub with_pending : ℕ → State S → Plan Pending × State S
  with_pending tm_fc st =
      (plan_both (land_pending tm_fc st.tables, temp_pending tm_fc st.tables), st)

  -- the three reads at the start of a round
  unfoldable pub plan_mid : ℕ → State S → Plan Pending × State S
  plan_mid tm_fc st = in_read w (in_read w (in_read w (with_pending tm_fc))) st

  -- the two `for` loops of a round
  unfoldable pub poll_both : Pace → Text → ℕ → ℕ → Pending → State S → List String × State S
  poll_both pace tm_fc_str tm_fc deadline regs st =
      let lands =
        poll_each w pace.poll_interval deadline (attempt_land tm_fc_str tm_fc) regs.0 st in
      let temps =
        poll_each w pace.poll_interval deadline (attempt_temp tm_fc_str tm_fc) regs.1 lands.1 in
      (lands.0 ++ temps.0, temps.1)

  unfoldable pub mid_rounds : Pace → Text → ℕ → ℕ → State S → Ended String × State S
  mid_rounds pace tm_fc_str tm_fc deadline st =
      rounds w (plan_mid tm_fc) (poll_both pace tm_fc_str tm_fc deadline) pace.retry_interval
        (suc deadline) deadline [] st

  abbrev pub start_mid : Pace → Text → Option ℕ → State S → Ended String × State S
  start_mid pace tm_fc_str none st = (raised, st)
  start_mid pace tm_fc_str (some tm_fc) st =
      let clock = tick w st in
      mid_rounds pace tm_fc_str tm_fc (clock.0 + pace.retry_max_duration) clock.1

  -- `stub` is `places_stub_active(...)`: then the loop returns at once
  unfoldable pub mid_term_polling_loop : Bool → Pace → State S → Option (Ended String) × State S
  mid_term_polling_loop true pace st = (none, st)
  mid_term_polling_loop false pace st =
      let clock = tick w st in
      let tm_fc_str = resolve_mid_tm_fc cal clock.0 in
      let ended = start_mid pace tm_fc_str (parse_kma_tm_fc cal tm_fc_str) clock.1 in
      (some ended.0, ended.1)

  -- `{...} <= loaded`
  abbrev pub all_loaded : ℕ → Tables → Bool
  all_loaded expected t =
      all_by (λ r. not (is_missing (loaded_mid_land_regs t expected) r)) (land_regs t)
      && all_by (λ r. not (is_missing (loaded_mid_temp_regs t expected) r)) (temp_regs t)

  -- `tasks` tells whether a task named MID_TASK_NAME is not done, `active` whether the guard of the
  -- mid-term loop is held
  module _ (tasks active : S → Bool) where
    -- `await mid_term_polling_loop()`: the guarded loop, which returns at once where the guard is held
    abbrev pub poll_guarded : Bool → Bool → Pace → State S → Watched × State S
    poll_guarded true stub pace st = (refilled none, st)
    poll_guarded false stub pace st =
        let run = mid_term_polling_loop stub pace st in (refilled run.0, run.1)

    abbrev pub refill : Bool → Bool → Pace → State S → Watched × State S
    refill true stub pace st = (already_running, st)
    refill false stub pace st = poll_guarded (active st.world) stub pace st

    abbrev pub unless_loaded : ℕ → Bool → Pace → State S → Watched × State S
    unless_loaded expected stub pace st =
        if all_loaded expected st.tables
        then (up_to_date, st)
        else refill (tasks st.world) stub pace st

    abbrev pub then_watch : (State S → Watched × State S) → Bool → State S → Watched × State S
    then_watch next false st = (failed, st)
    then_watch next true st = next st

    abbrev pub watch_read : (State S → Watched × State S) → State S → Watched × State S
    watch_read next st =
        let opened = w.session st.world in
        then_watch next opened.0 (record { world = opened.1; tables = st.tables })

    -- `current is not None and current >= expected`
    abbrev pub is_current : ℕ → Option ℕ → Bool
    is_current expected none = false
    is_current expected (some current) = leb expected current

    abbrev pub compare_current : ℕ → Bool → Bool → Pace → State S → Watched × State S
    compare_current expected false stub pace st = refill (tasks st.world) stub pace st
    compare_current expected true stub pace st =
        watch_read (watch_read (watch_read (unless_loaded expected stub pace))) st

    abbrev pub watch_for : Option ℕ → Bool → Pace → State S → Watched × State S
    watch_for none stub pace st = (failed, st)
    watch_for (some expected) stub pace st =
        watch_read
          (λ s.
            compare_current expected (is_current expected (latest_mid_tm_fc s.tables)) stub pace s)
          st

    unfoldable pub mid_freshness_watchdog : Bool → Pace → State S → Watched × State S
    mid_freshness_watchdog stub pace st =
        let clock = tick w st in
        watch_for (parse_kma_tm_fc cal (resolve_mid_tm_fc cal clock.0)) stub pace clock.1
