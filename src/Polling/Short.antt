-- ===== src/Polling/Short.antt =====
-- `short_term_polling_loop` of app/scheduler/hub_scheduler.py. The agency's client is the parameter
-- `fetch_short_term`, none where it raises.
pub mod Loaded
pub mod Finished
pub mod Loop
use map_service_hub.Base.{
  ℕ, zero, suc, ◌+◌, Bool, true, false, not, List, [], ◌∷◌, Option, none, some, String, ◌==◌,
  if◌then◌else◌, filter_by,
}
use map_service_hub.Base.Json.{Json, Fields}
use map_service_hub.Kma.{Calendar, Text, parse_kma_base_at, resolve_short_term_base}
use map_service_hub.Store.{SubscribedGrid, Tables}
use map_service_hub.Store.Grids.{select_active_grids}
use map_service_hub.Store.Short.{upsert_short_term_items, loaded_short_term_grids}
use map_service_hub.Polling.{
  World, State, Pace, Ended, finished, late, raised, out_of_fuel, Plan, broken, complete, pending,
  tick, poll_each, rounds, plan_of, in_session, in_read,
}

module _ {F S : Type 0} (w : World S) (cal : Calendar) (show : Json F → String)
    (fetch_short_term : ℕ → ℕ → Text → Text → S → Option (List (Fields F)) × S) where
  abbrev pub store_items : ℕ → SubscribedGrid → Option (List (Fields F)) → State S → Bool × State S
  store_items base_at g none st = (false, st)
  store_items base_at g (some items) st =
      in_session w (λ now t. upsert_short_term_items cal show t g.nx g.ny base_at now items) st

  -- the `try` for one grid
  unfoldable pub attempt_grid : Text → Text → ℕ → SubscribedGrid → State S → Bool × State S
  attempt_grid base_date base_time base_at g st =
      let fetched = fetch_short_term g.nx g.ny base_date base_time st.world in
      store_items base_at g fetched.0 (record { world = fetched.1; tables = st.tables })

  abbrev pub unloaded : ℕ → Tables → List SubscribedGrid
  unloaded base_at t =
      filter_by (λ (g : SubscribedGrid). not (loaded_short_term_grids t base_at g.nx g.ny))
        (select_active_grids t)

  abbrev pub with_pending : ℕ → State S → Plan (List SubscribedGrid) × State S
  with_pending base_at st = (plan_of (unloaded base_at st.tables), st)

  -- the two reads at the start of a round
  unfoldable pub plan_short : ℕ → State S → Plan (List SubscribedGrid) × State S
  plan_short base_at st = in_read w (in_read w (with_pending base_at)) st

  unfoldable pub short_rounds :
      Pace → Text → Text → ℕ → ℕ → State S → Ended SubscribedGrid × State S
  short_rounds pace base_date base_time base_at deadline st =
      rounds w (plan_short base_at)
        (poll_each w pace.poll_interval deadline (attempt_grid base_date base_time base_at))
        pace.retry_interval (suc deadline) deadline [] st

  abbrev pub start_short : Pace → Text → Text → Option ℕ → State S → Ended SubscribedGrid × State S
  start_short pace base_date base_time none st = (raised, st)
  start_short pace base_date base_time (some base_at) st =
      let clock = tick w st in
      short_rounds pace base_date base_time base_at (clock.0 + pace.retry_max_duration) clock.1

  -- `stub` is `places_stub_active(...)`: then the loop returns at once
  unfoldable pub short_term_polling_loop :
      Bool → Pace → State S → Option (Ended SubscribedGrid) × State S
  short_term_polling_loop true pace st = (none, st)
  short_term_polling_loop false pace st =
      let clock = tick w st in
      let base = resolve_short_term_base cal clock.0 in
      let ended = start_short pace base.0 base.1 (parse_kma_base_at cal base.0 base.1) clock.1 in
      (some ended.0, ended.1)
