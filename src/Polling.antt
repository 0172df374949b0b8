-- ===== src/Polling.antt =====
-- The polling rounds that app/scheduler/hub_scheduler.py has in its short-term and mid-term loops. The
-- process outside the loop is the record `World`: the clock, whether a database session goes through,
-- and what other tasks do to the tables while the loop sleeps. Durations are microseconds.
pub mod Ending
pub mod Outcome
pub mod Short
pub mod Mid
pub mod Guard
use map_service_hub.Base.{
  ℕ, zero, suc, ◌+◌, Bool, true, false, List, [], ◌∷◌, Option, none, some, leb, if◌then◌else◌,
  is_empty, not, ◌==◌,
}
use map_service_hub.Store.{Tables}

pub record World (S : Type 0) : Type 0 where
  pub clock : S → ℕ × S
  pub session : S → Bool × S
  pub sleep : ℕ → S → Tables → S × Tables

pub record State (S : Type 0) : Type 0 where
  pub world : S
  pub tables : Tables

-- the settings KMA_POLL_INTERVAL_SEC, KMA_RETRY_INTERVAL_SEC and KMA_RETRY_MAX_DURATION_SEC
pub record Pace : Type 0 where
  pub poll_interval : ℕ
  pub retry_interval : ℕ
  pub retry_max_duration : ℕ

-- How a loop ends: by a return with nothing left to load, at its deadline with the targets of the last
-- round that failed, with an exception of a read; the last is the model's own.
pub data Ended (A : Type 0) : Type 0 where
  finished : Ended A
  late : List A → Ended A
  raised : Ended A
  out_of_fuel : Ended A

-- What a round finds to do: `broken` where a read raises, `complete` where nothing is pending.
pub data Plan (P : Type 0) : Type 0 where
  broken : Plan P
  complete : Plan P
  pending : P → Plan P

module _ {S : Type 0} (w : World S) where
  abbrev pub tick : State S → ℕ × State S
  tick st = let (now, s) = w.clock st.world in (now, record { world = s; tables = st.tables })

  abbrev pub pause : ℕ → State S → State S
  pause n st = let (s, t) = w.sleep n st.world st.tables in record { world = s; tables = t }

  module _ {A : Type 0} where
    abbrev pub note_failed : Bool → A → List A → List A
    note_failed ok a failed = if ok then failed else a ∷ failed

    -- the body of the `for` loop over the targets of a round: at the deadline the rest has failed
    abbrev pub poll_one :
        ℕ
        → (A → State S → Bool × State S)
        → (State S → List A × State S)
        → Bool
        → A
        → List A
        → State S
        → List A × State S
    poll_one interval attempt again true a targets st = (a ∷ targets, st)
    poll_one interval attempt again false a targets st =
        let tried = attempt a st in
        let rest = again (pause interval tried.1) in (note_failed tried.0 a rest.0, rest.1)

    unfoldable pub poll_each :
        ℕ → ℕ → (A → State S → Bool × State S) → List A → State S → List A × State S
    poll_each interval deadline attempt [] st = ([], st)
    poll_each interval deadline attempt (a ∷ targets) st =
        poll_one interval attempt (poll_each interval deadline attempt targets)
          (leb deadline (tick st).0) a targets (tick st).1

  -- The `while` loop over rounds; `last` is `failed` as the round before left it. The rest of the loop
  -- is the argument `again` of its parts.
  module _ {P A : Type 0} (plan : State S → Plan P × State S)
      (poll : P → State S → List A × State S) (retry_interval : ℕ) where
    abbrev pub after_round :
        (List A → State S → Ended A × State S) → List A → State S → Ended A × State S
    after_round again [] st = (finished, st)
    after_round again (a ∷ failed) st = again (a ∷ failed) (pause retry_interval st)

    abbrev pub after_plan :
        (List A → State S → Ended A × State S) → Plan P → State S → Ended A × State S
    after_plan again broken st = (raised, st)
    after_plan again complete st = (finished, st)
    after_plan again (pending targets) st =
        after_round again (poll targets st).0 (poll targets st).1

    abbrev pub at_time :
        (List A → State S → Ended A × State S) → Bool → List A → State S → Ended A × State S
    at_time again true last st = (late last, st)
    at_time again false last st = after_plan again (plan st).0 (plan st).1

    unfoldable pub rounds : ℕ → ℕ → List A → State S → Ended A × State S
    rounds zero deadline last st = (out_of_fuel, st)
    rounds (suc fuel) deadline last st =
        at_time (rounds fuel deadline) (leb deadline (tick st).0) last (tick st).1

-- whether rows were stored, and the tables after it; no row is the error NO_USABLE_ROWS
abbrev pub stored_some : Tables → Option (Tables × ℕ) → Bool × Tables
stored_some t none = (false, t)
stored_some t (some (u, n)) = (not (n == 0), u)

abbrev pub plan_of : {A : Type 0} → List A → Plan (List A)
plan_of [] = complete
plan_of (a ∷ targets) = pending (a ∷ targets)

module _ {S : Type 0} (w : World S) where
  -- the database writes where a session goes through
  abbrev pub write_if : Bool → (Tables → Option (Tables × ℕ)) → State S → Bool × State S
  write_if false f st = (false, st)
  write_if true f st =
      let result = stored_some st.tables (f st.tables) in
      (result.0, record { world = st.world; tables = result.1 })

  -- A write in a session. It is opened also where there turns out to be nothing to store, which the
  -- source sees before: the attempt has failed in either case.
  abbrev pub in_session : (ℕ → Tables → Option (Tables × ℕ)) → State S → Bool × State S
  in_session f st =
      let opened = w.session st.world in
      let clock = w.clock opened.1 in
      write_if opened.0 (f clock.0) (record { world = clock.1; tables = st.tables })

  -- `opened = await load()`: the read of the tables, unless the session fails
  abbrev pub then_read :
      {P : Type 0} → (State S → Plan P × State S) → Bool → State S → Plan P × State S
  then_read next false st = (broken, st)
  then_read next true st = next st

  abbrev pub in_read : {P : Type 0} → (State S → Plan P × State S) → State S → Plan P × State S
  in_read next st =
      let opened = w.session st.world in
      then_read next opened.0 (record { world = opened.1; tables = st.tables })
