-- ===== src/Polling/Outcome.antt =====
-- What a round and a loop that leave nothing behind have done to the tables.
use mathlib.Core.Path.{subst}
use map_service_hub.Base.{
  ℕ, zero, suc, ◌≡◌, Bool, true, false, List, [], ◌∷◌, arith, leb, Bool-cases, inl, inr, refl, sym,
  In,
}
use map_service_hub.Store.{Tables}
use map_service_hub.Polling.{
  World, State, Ended, finished, late, raised, out_of_fuel, Plan, broken, complete, pending, tick,
  pause, poll_one, poll_each, rounds, after_round, after_plan, at_time, then_read, in_read,
}

module _ {S : Type 0} (w : World S) where
  module _ {A : Type 0} (attempt : A → State S → Bool × State S) (Q : A → Tables → Type 0)
      (kept : (a b : A) (st : State S) → Q b st.tables → Q b (attempt a st).1.tables)
      (calm : (n : ℕ) (b : A) (s : S) (t : Tables) → Q b t → Q b (w.sleep n s t).1) where
    -- what holds of a target stays while the round goes on
    abbrev Keeps : (State S → List A × State S) → Type 0
    Keeps f = (b : A) (st : State S) → Q b st.tables → Q b (f st).1.tables

    poll_one-Keeps :
        (interval : ℕ) (again : State S → List A × State S) (over : Bool) (a : A) (targets : List A)
        → Keeps again
        → Keeps (poll_one w interval attempt again over a targets)
    poll_one-Keeps interval again true a targets h b st k = k
    poll_one-Keeps interval again false a targets h b st k =
        let after_try = (attempt a st).1 in
        h b (pause w interval after_try)
          (calm interval b after_try.world after_try.tables (kept a b st k))

    pub poll_each-Keeps :
        (interval deadline : ℕ) (targets : List A)
        → Keeps (poll_each w interval deadline attempt targets)
    unfolding poll_each
    poll_each-Keeps interval deadline [] b st k = k
    poll_each-Keeps interval deadline (a ∷ targets) b st k =
        poll_one-Keeps interval (poll_each w interval deadline attempt targets)
          (leb deadline (tick w st).0) a targets (poll_each-Keeps interval deadline targets) b
          (tick w st).1 k

    module _
        (done : (a : A) (st : State S)
          → (attempt a st).0 ≡ true
          → Q a (attempt a st).1.tables) where
      -- a round with no failure has reached every target
      abbrev Reaches : List A → (State S → List A × State S) → Type 0
      Reaches targets f =
          (st : State S) → (f st).0 ≡ [] → (b : A) → In b targets → Q b (f st).1.tables

      poll_one-Reaches :
          (interval : ℕ) (again : State S → List A × State S) (over : Bool) (a : A)
          (targets : List A)
          → Keeps again
          → Reaches targets again
          → Reaches (a ∷ targets) (poll_one w interval attempt again over a targets)
      poll_one-Reaches interval again true a targets h k st e b i = ground arith
      poll_one-Reaches interval again false a targets h k st e b i =
          let after_try = (attempt a st).1 in
          let rest = again (pause w interval after_try) in
          elim (Bool-cases (attempt a st).0) [
            | inl ok ↦ elim i [
              | inl here ↦
                  subst (λ c. Q c rest.1.tables) (sym here)
                    (h a (pause w interval after_try)
                      (calm interval a after_try.world after_try.tables (done a st ok)))
              | inr later ↦ k (pause w interval after_try) (ground arith) b later
            ]
            | inr bad ↦ absurd (ground arith)
          ]

      pub poll_each-Reaches :
          (interval deadline : ℕ) (targets : List A)
          → Reaches targets (poll_each w interval deadline attempt targets)
      unfolding poll_each
      poll_each-Reaches interval deadline [] = λ st e b i. elim i [ ]
      poll_each-Reaches interval deadline (a ∷ targets) = λ st.
          poll_one-Reaches interval (poll_each w interval deadline attempt targets)
            (leb deadline (tick w st).0) a targets (poll_each-Keeps interval deadline targets)
            (poll_each-Reaches interval deadline targets) (tick w st).1

  -- what holds where the loop returns with nothing left
  abbrev pub Finishes : {A : Type 0} → (State S → Type 0) → Ended A × State S → Type 0
  Finishes G (finished, st) = G st
  Finishes G (late failed, st) = Unit
  Finishes G (raised, st) = Unit
  Finishes G (out_of_fuel, st) = Unit

  module _ {P A : Type 0} (plan : State S → Plan P × State S)
      (poll : P → State S → List A × State S) (retry_interval : ℕ) (G : State S → Type 0)
      (all_there : (st : State S) → (plan st).0 ≡ complete → G (plan st).1)
      (all_done : (st : State S) (p : P)
        → (plan st).0 ≡ pending p
        → (poll p (plan st).1).0 ≡ []
        → G (poll p (plan st).1).1) where
    abbrev Again : Type 0
    Again = List A → State S → Ended A × State S

    after_round-Finishes :
        (again : Again) (failed : List A) (st : State S)
        → ((last : List A) (s : State S) → Finishes G (again last s))
        → (failed ≡ [] → G st)
        → Finishes G (after_round w plan poll retry_interval again failed st)
    after_round-Finishes again [] st h g = g refl
    after_round-Finishes again (a ∷ failed) st h g = h (a ∷ failed) (pause w retry_interval st)

    after_plan-Finishes :
        (again : Again) (found : Plan P) (st : State S)
        → ((last : List A) (s : State S) → Finishes G (again last s))
        → (plan st).0 ≡ found
        → Finishes G (after_plan w plan poll retry_interval again found (plan st).1)
    after_plan-Finishes again broken st h e = tt
    after_plan-Finishes again complete st h e = all_there st e
    after_plan-Finishes again (pending p) st h e =
        after_round-Finishes again (poll p (plan st).1).0 (poll p (plan st).1).1 h (all_done st p e)

    at_time-Finishes :
        (again : Again) (over : Bool) (last : List A) (st : State S)
        → ((last' : List A) (s : State S) → Finishes G (again last' s))
        → Finishes G (at_time w plan poll retry_interval again over last st)
    at_time-Finishes again true last st h = tt
    at_time-Finishes again false last st h = after_plan-Finishes again (plan st).0 st h refl

    pub rounds-Finishes :
        (fuel deadline : ℕ) (last : List A) (st : State S)
        → Finishes G (rounds w plan poll retry_interval fuel deadline last st)
    unfolding rounds
    rounds-Finishes zero deadline last st = tt
    rounds-Finishes (suc fuel) deadline last st =
        at_time-Finishes (rounds w plan poll retry_interval fuel deadline)
          (leb deadline (tick w st).0) last (tick w st).1 (rounds-Finishes fuel deadline)

-- What the plan of a round says of the tables: they are as before, and `left` is what is pending.
module _ {S P : Type 0} (w : World S) (left : Tables → P → Type 0)
    (none_left : Tables → Type 0) where
  abbrev pub IsPlan : Tables → Plan P → Tables → Type 0
  IsPlan t broken u = Unit
  IsPlan t complete u = (u ≡ t) × none_left t
  IsPlan t (pending p) u = (u ≡ t) × left t p

  abbrev pub Plans : (State S → Plan P × State S) → Type 0
  Plans f = (st : State S) → IsPlan st.tables (f st).0 (f st).1.tables

  then_read-Plans :
      (next : State S → Plan P × State S) (ok : Bool) → Plans next → Plans (then_read w next ok)
  then_read-Plans next false h st = tt
  then_read-Plans next true h st = h st

  pub in_read-Plans : (next : State S → Plan P × State S) → Plans next → Plans (in_read w next)
  in_read-Plans next h st =
      let opened = w.session st.world in
      then_read-Plans next opened.0 h (record { world = opened.1; tables = st.tables })
