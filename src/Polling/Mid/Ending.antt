-- ===== src/Polling/Mid/Ending.antt =====
-- When the mid-term loop of app/scheduler/hub_scheduler.py ends.
use map_service_hub.Base.{
  ℕ, ◌+◌, ◌≢◌, ◌≤◌, Bool, true, false, Option, none, some, [], arith, String,
}
use map_service_hub.Base.Json.{Json, Fields}
use map_service_hub.Kma.{Calendar, Text, parse_kma_tm_fc, resolve_mid_tm_fc}
use map_service_hub.Store.Mid.{Ints, upsert_mid_land, upsert_mid_temp}
use map_service_hub.Polling.{
  World, State, Pace, Ended, finished, late, raised, out_of_fuel, tick, poll_each, in_read,
}
use map_service_hub.Polling.Ending.{
  IsClock, Forward, Ends, poll_each-Forward, rounds-Ends, in_session-Forward, in_read-Forward,
}
use map_service_hub.Polling.Mid.{
  Pending, store_land, store_temp, attempt_land, attempt_temp, with_pending, plan_mid, poll_both,
  mid_rounds, start_mid, mid_term_polling_loop,
}

module _ {F S : Type 0} (w : World S) (cal : Calendar) (ints : Ints F)
    (bind_text : Json F → Option (Option String))
    (fetch_mid_land fetch_mid_temp : String → Text → S → Option (Fields F) × S) (time : S → ℕ)
    (law : IsClock w time)
    (land_after : (r : String) (t : Text) (s : S) → time s ≤ time (fetch_mid_land r t s).1)
    (temp_after : (r : String) (t : Text) (s : S) → time s ≤ time (fetch_mid_temp r t s).1) where
  store_land-Forward :
      (tm_fc : ℕ) (rid : String) (payload : Option (Fields F))
      → Forward w time law
          (store_land w cal ints bind_text fetch_mid_land fetch_mid_temp tm_fc rid payload)
  store_land-Forward tm_fc rid none st = omega arith
  store_land-Forward tm_fc rid (some payload) st =
      in_session-Forward w time law
        (λ now t. upsert_mid_land ints bind_text t rid tm_fc now payload) st

  store_temp-Forward :
      (tm_fc : ℕ) (rid : String) (payload : Option (Fields F))
      → Forward w time law
          (store_temp w cal ints bind_text fetch_mid_land fetch_mid_temp tm_fc rid payload)
  store_temp-Forward tm_fc rid none st = omega arith
  store_temp-Forward tm_fc rid (some payload) st =
      in_session-Forward w time law
        (λ now t. some (upsert_mid_temp ints bind_text t rid tm_fc now payload)) st

  attempt_land-Forward :
      (tm_fc_str : Text) (tm_fc : ℕ) (rid : String)
      → Forward w time law
          (attempt_land w cal ints bind_text fetch_mid_land fetch_mid_temp tm_fc_str tm_fc rid)
  unfolding attempt_land
  attempt_land-Forward tm_fc_str tm_fc rid st =
      let fetched = fetch_mid_land rid tm_fc_str st.world in
      let before = land_after rid tm_fc_str st.world in
      let stored =
        store_land-Forward tm_fc rid fetched.0 (record { world = fetched.1; tables = st.tables }) in
      omega arith

  attempt_temp-Forward :
      (tm_fc_str : Text) (tm_fc : ℕ) (rid : String)
      → Forward w time law
          (attempt_temp w cal ints bind_text fetch_mid_land fetch_mid_temp tm_fc_str tm_fc rid)
  unfolding attempt_temp
  attempt_temp-Forward tm_fc_str tm_fc rid st =
      let fetched = fetch_mid_temp rid tm_fc_str st.world in
      let before = temp_after rid tm_fc_str st.world in
      let stored =
        store_temp-Forward tm_fc rid fetched.0 (record { world = fetched.1; tables = st.tables }) in
      omega arith

  plan_mid-Forward :
      (tm_fc : ℕ)
      → Forward w time law (plan_mid w cal ints bind_text fetch_mid_land fetch_mid_temp tm_fc)
  unfolding plan_mid
  plan_mid-Forward tm_fc =
      let last = with_pending w cal ints bind_text fetch_mid_land fetch_mid_temp tm_fc in
      in_read-Forward w time law (in_read w (in_read w last)) (
        in_read-Forward w time law (in_read w last)
          (in_read-Forward w time law last (λ s. omega arith)))

  poll_both-Forward :
      (pace : Pace) (tm_fc_str : Text) (tm_fc deadline : ℕ) (regs : Pending)
      → Forward w time law (
          poll_both w cal ints bind_text fetch_mid_land fetch_mid_temp pace tm_fc_str tm_fc deadline
            regs)
  unfolding poll_both
  poll_both-Forward pace tm_fc_str tm_fc deadline regs st =
      let land = attempt_land w cal ints bind_text fetch_mid_land fetch_mid_temp tm_fc_str tm_fc in
      let temp = attempt_temp w cal ints bind_text fetch_mid_land fetch_mid_temp tm_fc_str tm_fc in
      let lands = poll_each w pace.poll_interval deadline land regs.0 st in
      let first =
        poll_each-Forward w time law land (attempt_land-Forward tm_fc_str tm_fc) pace.poll_interval
          deadline regs.0 st in
      let second =
        poll_each-Forward w time law temp (attempt_temp-Forward tm_fc_str tm_fc) pace.poll_interval
          deadline regs.1 lands.1 in
      omega arith

  start_mid-Ends :
      (pace : Pace) (tm_fc_str : Text) (parsed : Option ℕ) (st : State S)
      → 1 ≤ pace.retry_interval
      → Ends w time law
          (start_mid w cal ints bind_text fetch_mid_land fetch_mid_temp pace tm_fc_str parsed st)
  unfolding mid_rounds
  start_mid-Ends pace tm_fc_str none st waits = tt
  start_mid-Ends pace tm_fc_str (some tm_fc) st waits =
      let deadline = (tick w st).0 + pace.retry_max_duration in
      rounds-Ends w time law (plan_mid w cal ints bind_text fetch_mid_land fetch_mid_temp tm_fc)
        (poll_both w cal ints bind_text fetch_mid_land fetch_mid_temp pace tm_fc_str tm_fc deadline)
        (plan_mid-Forward tm_fc) (poll_both-Forward pace tm_fc_str tm_fc deadline)
        pace.retry_interval waits deadline deadline [] (tick w st).1 (omega arith)

  ended : (r : Ended String × State S) → Ends w time law r → r.0 ≢ out_of_fuel
  ended (finished, s) h e = absurd (ground arith)
  ended (late failed, s) h e = absurd (ground arith)
  ended (raised, s) h e = absurd (ground arith)
  ended (out_of_fuel, s) h e = h

  -- Over a clock that never goes back, with a positive pause between rounds, a run of the mid-term loop
  -- ends by a return, at its deadline or with an exception, whatever the provider and the database do.
  pub mid_term_polling_loop-ends :
      (stub : Bool) (pace : Pace) (st : State S)
      → 1 ≤ pace.retry_interval
      → (mid_term_polling_loop w cal ints bind_text fetch_mid_land fetch_mid_temp stub pace st).0
        ≢ some out_of_fuel
  unfolding mid_term_polling_loop
  mid_term_polling_loop-ends true pace st waits e = absurd (ground arith)
  mid_term_polling_loop-ends false pace st waits e =
      let tm_fc_str = resolve_mid_tm_fc cal (tick w st).0 in
      let parsed = parse_kma_tm_fc cal tm_fc_str in
      let run =
        start_mid w cal ints bind_text fetch_mid_land fetch_mid_temp pace tm_fc_str parsed
          (tick w st).1 in
      ended run (start_mid-Ends pace tm_fc_str parsed (tick w st).1 waits) (ground arith)
