-- ===== src/Polling/Short/Loop.antt =====
-- How one run of the short-term loop of app/scheduler/hub_scheduler.py ends, and what it leaves behind.
use mathlib.Core.Path.{subst}
use map_service_hub.Base.{
  ℕ, ◌+◌, ◌≡◌, ◌≢◌, ◌≤◌, Bool, true, false, Option, none, some, List, [], arith, String, All-In,
}
use map_service_hub.Base.Json.{Json, Fields}
use map_service_hub.Kma.{Calendar, Text, parse_kma_base_at, resolve_short_term_base}
use map_service_hub.Store.{SubscribedGrid}
use map_service_hub.Store.Grids.{select_active_grids}
use map_service_hub.Polling.Short.Loaded.{HasForecast}
use map_service_hub.Store.Short.{upsert_short_term_items}
use map_service_hub.Polling.{
  World, State, Pace, Ended, finished, late, raised, out_of_fuel, tick, poll_each, in_read,
}
use map_service_hub.Polling.Ending.{
  IsClock, Forward, Ends, poll_each-Forward, rounds-Ends, in_session-Forward, in_read-Forward,
}
use map_service_hub.Polling.Outcome.{Finishes}
use map_service_hub.Polling.Short.{
  store_items, attempt_grid, with_pending, plan_short, short_rounds, start_short,
  short_term_polling_loop,
}
use map_service_hub.Polling.Short.Finished.{IsCalm, EachLoaded, AllLoaded, short_rounds-Finishes}

module _ {F S : Type 0} (w : World S) (cal : Calendar) (show : Json F → String)
    (fetch_short_term : ℕ → ℕ → Text → Text → S → Option (List (Fields F)) × S) where
  finished-AllLoaded :
      (base_at : ℕ) (r : Ended SubscribedGrid × State S)
      → Finishes w (λ (s : State S). EachLoaded base_at s.tables) r
      → r.0 ≡ finished
      → AllLoaded base_at r.1.tables
  finished-AllLoaded base_at (finished, s) h e =
      All-In (λ (g : SubscribedGrid). HasForecast base_at g.nx g.ny s.tables.short_term)
        (select_active_grids s.tables) h
  finished-AllLoaded base_at (late failed, s) h e = absurd (ground arith)
  finished-AllLoaded base_at (raised, s) h e = absurd (ground arith)
  finished-AllLoaded base_at (out_of_fuel, s) h e = absurd (ground arith)

  abbrev start : Pace → Text → Text → Option ℕ → State S → Ended SubscribedGrid × State S
  start = start_short w cal show fetch_short_term

  start_short-Finishes :
      IsCalm w
      → (pace : Pace) (base_date base_time : Text) (parsed : Option ℕ) (base_at : ℕ) (st : State S)
      → parsed ≡ some base_at
      → Finishes w
          (λ (s : State S). EachLoaded base_at s.tables)
          (start pace base_date base_time parsed st)
  start_short-Finishes calm pace base_date base_time none base_at st e = absurd (ground arith)
  start_short-Finishes calm pace base_date base_time (some at) base_at st e =
      subst
        (λ b.
          Finishes w (λ (s : State S). EachLoaded b s.tables)
            (start pace base_date base_time (some at) st))
        (ground arith)
        (short_rounds-Finishes w cal show fetch_short_term calm base_date base_time at pace
          ((tick w st).0 + pace.retry_max_duration) (tick w st).1)

  -- Where other tasks leave the subscribed grids and the forecasts of the table alone while the loop
  -- sleeps, a run that returns with nothing left has, for each active grid, a forecast of the
  -- publication it resolved from the clock, whose time is parsed, or of a later one, in the table.
  pub short_term_polling_loop-AllLoaded :
      IsCalm w
      → (pace : Pace) (st : State S) (base_at : ℕ)
      → parse_kma_base_at cal
          (resolve_short_term_base cal (tick w st).0).0
          (resolve_short_term_base cal (tick w st).0).1
        ≡ some base_at
      → (short_term_polling_loop w cal show fetch_short_term false pace st).0 ≡ some finished
      → AllLoaded base_at
          (short_term_polling_loop w cal show fetch_short_term false pace st).1.tables
  unfolding short_term_polling_loop
  short_term_polling_loop-AllLoaded calm pace st base_at parses returned =
      let base = resolve_short_term_base cal (tick w st).0 in
      let parsed = parse_kma_base_at cal base.0 base.1 in
      finished-AllLoaded base_at (start pace base.0 base.1 parsed (tick w st).1)
        (start_short-Finishes calm pace base.0 base.1 parsed base_at (tick w st).1 parses)
        (ground arith)

  module _ (time : S → ℕ) (law : IsClock w time)
      (fetch_after : (nx ny : ℕ) (d t : Text) (s : S)
        → time s ≤ time (fetch_short_term nx ny d t s).1) where
    store_items-Forward :
        (base_at : ℕ) (g : SubscribedGrid) (items : Option (List (Fields F)))
        → Forward w time law (store_items w cal show fetch_short_term base_at g items)
    store_items-Forward base_at g none st = omega arith
    store_items-Forward base_at g (some items) st =
        in_session-Forward w time law
          (λ now t. upsert_short_term_items cal show t g.nx g.ny base_at now items) st

    attempt_grid-Forward :
        (base_date base_time : Text) (base_at : ℕ) (g : SubscribedGrid)
        → Forward w time law
            (attempt_grid w cal show fetch_short_term base_date base_time base_at g)
    unfolding attempt_grid
    attempt_grid-Forward base_date base_time base_at g st =
        let fetched = fetch_short_term g.nx g.ny base_date base_time st.world in
        let before = fetch_after g.nx g.ny base_date base_time st.world in
        let stored =
          store_items-Forward base_at g fetched.0
            (record { world = fetched.1; tables = st.tables }) in
        omega arith

    plan_short-Forward :
        (base_at : ℕ) → Forward w time law (plan_short w cal show fetch_short_term base_at)
    unfolding plan_short
    plan_short-Forward base_at =
        let last = with_pending w cal show fetch_short_term base_at in
        in_read-Forward w time law (in_read w last)
          (in_read-Forward w time law last (λ s. omega arith))

    ended : (r : Ended SubscribedGrid × State S) → Ends w time law r → r.0 ≢ out_of_fuel
    ended (finished, s) h e = absurd (ground arith)
    ended (late failed, s) h e = absurd (ground arith)
    ended (raised, s) h e = absurd (ground arith)
    ended (out_of_fuel, s) h e = h

    start_short-Ends :
        (pace : Pace) (base_date base_time : Text) (parsed : Option ℕ) (st : State S)
        → 1 ≤ pace.retry_interval
        → Ends w time law (start pace base_date base_time parsed st)
    unfolding short_rounds
    start_short-Ends pace base_date base_time none st waits = tt
    start_short-Ends pace base_date base_time (some base_at) st waits =
        let deadline = (tick w st).0 + pace.retry_max_duration in
        let attempt = attempt_grid w cal show fetch_short_term base_date base_time base_at in
        rounds-Ends w time law (plan_short w cal show fetch_short_term base_at)
          (poll_each w pace.poll_interval deadline attempt) (plan_short-Forward base_at)
          (poll_each-Forward w time law attempt (attempt_grid-Forward base_date base_time base_at)
            pace.poll_interval deadline)
          pace.retry_interval waits deadline deadline [] (tick w st).1 (omega arith)

    -- Over a clock that never goes back, with a positive pause between rounds, a run of the loop ends by
    -- a return, at its deadline or with an exception, whatever the provider and the database do.
    pub short_term_polling_loop-ends :
        (stub : Bool) (pace : Pace) (st : State S)
        → 1 ≤ pace.retry_interval
        → (short_term_polling_loop w cal show fetch_short_term stub pace st).0 ≢ some out_of_fuel
    unfolding short_term_polling_loop
    short_term_polling_loop-ends true pace st waits e = absurd (ground arith)
    short_term_polling_loop-ends false pace st waits e =
        let base = resolve_short_term_base cal (tick w st).0 in
        let run = start pace base.0 base.1 (parse_kma_base_at cal base.0 base.1) (tick w st).1 in
        ended run
          (start_short-Ends pace base.0 base.1 (parse_kma_base_at cal base.0 base.1) (tick w st).1
            waits)
          (ground arith)
