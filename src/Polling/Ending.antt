-- ===== src/Polling/Ending.antt =====
-- When the polling loops end, over a clock that never goes back.
use map_service_hub.Base.{
  ℕ, zero, suc, ◌+◌, ◌≡◌, ◌≤◌, Bool, true, false, Option, List, [], ◌∷◌, arith, leb, refl,
}
use map_service_hub.Store.{Tables}
use map_service_hub.Polling.{
  World, State, Ended, finished, late, raised, out_of_fuel, Plan, broken, complete, pending, tick,
  pause, poll_one, poll_each, rounds, after_round, after_plan, at_time, write_if, in_session,
  then_read, in_read,
}

-- `time` is the clock of the process: reading it gives its value, a session takes no negative time, a
-- sleep takes at least its length.
pub record IsClock {S : Type 0} (w : World S) (time : S → ℕ) : Type 0 where
  pub clock_reads : (s : S) → (time s ≤ (w.clock s).0) × ((w.clock s).0 ≤ time (w.clock s).1)
  pub session_after : (s : S) → time s ≤ time (w.session s).1
  pub sleep_after : (n : ℕ) (s : S) (t : Tables) → time s + n ≤ time (w.sleep n s t).0

module _ {S : Type 0} (w : World S) (time : S → ℕ) (law : IsClock w time) where
  abbrev time_of : State S → ℕ
  time_of st = time st.world

  -- the second component of a run is not before its start
  abbrev pub Forward : {X : Type 0} → (State S → X × State S) → Type 0
  Forward f = (st : State S) → time st.world ≤ time (f st).1.world

  module _ {A : Type 0} (attempt : A → State S → Bool × State S)
      (forward : (a : A) → Forward (attempt a)) where
    poll_one-Forward :
        (interval : ℕ) (again : State S → List A × State S) (over : Bool) (a : A) (targets : List A)
        → Forward again
        → Forward (poll_one w interval attempt again over a targets)
    poll_one-Forward interval again true a targets h st = omega arith
    poll_one-Forward interval again false a targets h st =
        let after_try = (attempt a st).1 in
        let tried = forward a st in
        let slept = law.sleep_after interval after_try.world after_try.tables in
        let rest = h (pause w interval after_try) in omega arith

    pub poll_each-Forward :
        (interval deadline : ℕ) (targets : List A)
        → Forward (poll_each w interval deadline attempt targets)
    unfolding poll_each
    poll_each-Forward interval deadline [] st = omega arith
    poll_each-Forward interval deadline (a ∷ targets) st =
        let reads = law.clock_reads st.world in
        let body =
          poll_one-Forward interval (poll_each w interval deadline attempt targets)
            (leb deadline (tick w st).0) a targets (poll_each-Forward interval deadline targets)
            (tick w st).1 in
        omega arith

  write_if-Forward : (ok : Bool) (f : Tables → Option (Tables × ℕ)) → Forward (write_if w ok f)
  write_if-Forward false f st = omega arith
  write_if-Forward true f st = omega arith

  pub in_session-Forward : (f : ℕ → Tables → Option (Tables × ℕ)) → Forward (in_session w f)
  in_session-Forward f st =
      let opened = w.session st.world in
      let clock = w.clock opened.1 in
      let before = law.session_after st.world in
      let reads = law.clock_reads opened.1 in
      let written =
        write_if-Forward opened.0 (f clock.0) (record { world = clock.1; tables = st.tables }) in
      omega arith

  then_read-Forward :
      {P : Type 0} (next : State S → Plan P × State S) (ok : Bool)
      → Forward next
      → Forward (then_read w next ok)
  then_read-Forward next false h st = omega arith
  then_read-Forward next true h st = h st

  pub in_read-Forward :
      {P : Type 0} (next : State S → Plan P × State S) → Forward next → Forward (in_read w next)
  in_read-Forward next h st =
      let opened = w.session st.world in
      let before = law.session_after st.world in
      let rest =
        then_read-Forward next opened.0 h (record { world = opened.1; tables = st.tables }) in
      omega arith

  -- the loop has ended by itself
  abbrev pub Ends : {A : Type 0} → Ended A × State S → Type 0
  Ends (out_of_fuel, st) = ⊥
  Ends (finished, st) = Unit
  Ends (late failed, st) = Unit
  Ends (raised, st) = Unit

  module _ {P A : Type 0} (plan : State S → Plan P × State S)
      (poll : P → State S → List A × State S) (plan_forward : Forward plan)
      (poll_forward : (p : P) → Forward (poll p)) (retry_interval : ℕ)
      (waits : 1 ≤ retry_interval) where
    -- the rest of the loop ends from every moment after a sleep
    abbrev EndsFrom : ℕ → (List A → State S → Ended A × State S) → Type 0
    EndsFrom n again = (last : List A) (st : State S) → n + 1 ≤ time st.world → Ends (again last st)

    after_round-Ends :
        (n : ℕ) (again : List A → State S → Ended A × State S) (failed : List A) (st : State S)
        → EndsFrom n again
        → n ≤ time st.world
        → Ends (after_round w plan poll retry_interval again failed st)
    after_round-Ends n again [] st h le = tt
    after_round-Ends n again (a ∷ failed) st h le =
        let slept = law.sleep_after retry_interval st.world st.tables in
        h (a ∷ failed) (pause w retry_interval st) (omega arith)

    after_plan-Ends :
        (n : ℕ) (again : List A → State S → Ended A × State S) (found : Plan P) (st : State S)
        → EndsFrom n again
        → n ≤ time st.world
        → Ends (after_plan w plan poll retry_interval again found st)
    after_plan-Ends n again broken st h le = tt
    after_plan-Ends n again complete st h le = tt
    after_plan-Ends n again (pending targets) st h le =
        let polled = poll_forward targets st in
        after_round-Ends n again (poll targets st).0 (poll targets st).1 h (omega arith)

    at_time-Ends :
        (n : ℕ) (again : List A → State S → Ended A × State S) (over : Bool) (last : List A)
        (st : State S)
        → (over ≡ false → EndsFrom n again)
        → n ≤ time st.world
        → Ends (at_time w plan poll retry_interval again over last st)
    at_time-Ends n again true last st h le = tt
    at_time-Ends n again false last st h le =
        let planned = plan_forward st in
        after_plan-Ends n again (plan st).0 (plan st).1 (h refl) (omega arith)

    -- Fuel for every microsecond up to the deadline is enough.
    pub rounds-Ends :
        (fuel deadline : ℕ) (last : List A) (st : State S)
        → deadline ≤ time st.world + fuel
        → Ends (rounds w plan poll retry_interval (suc fuel) deadline last st)
    unfolding rounds
    rounds-Ends zero deadline last st k =
        let reads = law.clock_reads st.world in
        at_time-Ends (time st.world) (λ _ s. (out_of_fuel, s)) (leb deadline (tick w st).0) last
          (tick w st).1 (λ e. absurd (ground arith)) (omega arith)
    rounds-Ends (suc fuel) deadline last st k =
        let reads = law.clock_reads st.world in
        at_time-Ends (time st.world) (rounds w plan poll retry_interval (suc fuel) deadline)
          (leb deadline (tick w st).0) last (tick w st).1
          (λ _ last' st' le. rounds-Ends fuel deadline last' st' (omega arith)) (omega arith)
