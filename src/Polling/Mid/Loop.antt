-- ===== src/Polling/Mid/Loop.antt =====
-- What a run of the mid-term loop of app/scheduler/hub_scheduler.py leaves.
use mathlib.Core.Path.{subst}
use map_service_hub.Base.{ℕ, ◌+◌, ◌≡◌, false, Option, none, some, arith, String}
use map_service_hub.Base.Json.{Json, Fields}
use map_service_hub.Kma.{Calendar, Text, parse_kma_tm_fc, resolve_mid_tm_fc}
use map_service_hub.Store.Mid.{Ints}
use map_service_hub.Polling.{World, State, Pace, Ended, finished, late, raised, out_of_fuel, tick}
use map_service_hub.Polling.Outcome.{Finishes}
use map_service_hub.Polling.Mid.{start_mid, mid_term_polling_loop}
use map_service_hub.Polling.Mid.Missing.{AllLoaded}
use map_service_hub.Polling.Mid.Finished.{IsCalm, mid_rounds-Finishes}

module _ {F S : Type 0} (w : World S) (cal : Calendar) (ints : Ints F)
    (bind_text : Json F → Option (Option String))
    (fetch_mid_land fetch_mid_temp : String → Text → S → Option (Fields F) × S) where
  abbrev start : Pace → Text → Option ℕ → State S → Ended String × State S
  start = start_mid w cal ints bind_text fetch_mid_land fetch_mid_temp

  finished-AllLoaded :
      (tm_fc : ℕ) (r : Ended String × State S)
      → Finishes w (λ (s : State S). AllLoaded tm_fc s.tables) r
      → r.0 ≡ finished
      → AllLoaded tm_fc r.1.tables
  finished-AllLoaded tm_fc (finished, s) h e = h
  finished-AllLoaded tm_fc (late missed, s) h e = absurd (ground arith)
  finished-AllLoaded tm_fc (raised, s) h e = absurd (ground arith)
  finished-AllLoaded tm_fc (out_of_fuel, s) h e = absurd (ground arith)

  start_mid-Finishes :
      IsCalm w
      → (pace : Pace) (tm_fc_str : Text) (parsed : Option ℕ) (tm_fc : ℕ) (st : State S)
      → parsed ≡ some tm_fc
      → Finishes w (λ (s : State S). AllLoaded tm_fc s.tables) (start pace tm_fc_str parsed st)
  start_mid-Finishes calm pace tm_fc_str none tm_fc st e = absurd (ground arith)
  start_mid-Finishes calm pace tm_fc_str (some at) tm_fc st e =
      subst
        (λ b.
          Finishes w (λ (s : State S). AllLoaded b s.tables) (start pace tm_fc_str (some at) st))
        (ground arith)
        (mid_rounds-Finishes w cal ints bind_text fetch_mid_land fetch_mid_temp calm pace tm_fc_str
          at ((tick w st).0 + pace.retry_max_duration) (tick w st).1)

  -- Where other tasks leave the subscribed grids alone, and each region some row of a publication it
  -- has one of, while the loop sleeps, a run that returns with nothing left has, for each land region
  -- and each temperature region that an active grid names, a row of the publication it resolved, whose
  -- time is parsed.
  pub mid_term_polling_loop-AllLoaded :
      IsCalm w
      → (pace : Pace) (st : State S) (tm_fc : ℕ)
      → parse_kma_tm_fc cal (resolve_mid_tm_fc cal (tick w st).0) ≡ some tm_fc
      → (mid_term_polling_loop w cal ints bind_text fetch_mid_land fetch_mid_temp false pace st).0
        ≡ some finished
      → AllLoaded tm_fc
          (mid_term_polling_loop w cal ints bind_text fetch_mid_land fetch_mid_temp false pace
            st).1.tables
  unfolding mid_term_polling_loop
  mid_term_polling_loop-AllLoaded calm pace st tm_fc parses returned =
      let tm_fc_str = resolve_mid_tm_fc cal (tick w st).0 in
      let parsed = parse_kma_tm_fc cal tm_fc_str in
      finished-AllLoaded tm_fc (start pace tm_fc_str parsed (tick w st).1)
        (start_mid-Finishes calm pace tm_fc_str parsed tm_fc (tick w st).1 parses) (ground arith)
