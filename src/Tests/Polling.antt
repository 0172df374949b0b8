-- ===== src/Tests/Polling.antt =====
-- The polling loops over a clock that only sleeps move, with a provider that has nothing for a minute.
use map_service_hub.Base.{
  ℕ, ◌+◌, ◌*◌, ◌≡◌, ◌≢◌, ◌≤◌, inl, refl, true, false, Option, none, some, List, String, arith, leb,
  if◌then◌else◌, In,
}
use map_service_hub.Base.Int.{ℤ}
use map_service_hub.Base.Json.{Fields}
use map_service_hub.Weather.Rows.{day_us, hour_us}
use map_service_hub.Kma.{
  Text, minute_us, parse_kma_base_at, parse_kma_tm_fc, resolve_short_term_base, resolve_mid_tm_fc,
  latest_slot, parse_kma_fcst_at,
}
use map_service_hub.Tests.Kma.{even_months}
use map_service_hub.Tests.Store.{
  tables, show, items, base_at, evening, no_texts, bind_text, land_payload, temp_payload,
}
use map_service_hub.Store.{SubscribedGrid}
use map_service_hub.Store.Grids.{select_active_grids}
use map_service_hub.Store.Short.{
  upsert_short_term_items, rows_of_items, upsert_rows, upsert_row, short_term_expires_at,
  loaded_short_term_grids, same_key,
}
use map_service_hub.Store.Mid.{
  upsert_mid_land, upsert_mid_temp, land_rows, temp_rows, safe_int, safe_pop, same_land, same_temp,
  latest_mid_tm_fc,
}
use map_service_hub.Polling.{World, State, Pace, Ended, finished, out_of_fuel, poll_each, rounds}
use map_service_hub.Polling.Ending.{IsClock}
use map_service_hub.Polling.Short.{attempt_grid, plan_short, short_rounds, short_term_polling_loop}
use map_service_hub.Polling.Short.Finished.{IsCalm, AllLoaded}
use map_service_hub.Polling.Short.Loop.{
  short_term_polling_loop-AllLoaded, short_term_polling_loop-ends,
}
use map_service_hub.Polling.Mid.{
  Watched, up_to_date, attempt_land, attempt_temp, plan_mid, poll_both, mid_rounds,
  mid_term_polling_loop, mid_freshness_watchdog, loaded_mid_land_regs, loaded_mid_temp_regs,
  land_pending, temp_pending,
}
use map_service_hub.Polling.Mid.Loaded.{Grows-refl}
use map_service_hub.Polling.Mid.Missing
use map_service_hub.Polling.Mid.Finished
use map_service_hub.Polling.Mid.Ending.{mid_term_polling_loop-ends}
use map_service_hub.Polling.Mid.Loop.{mid_term_polling_loop-AllLoaded}
use map_service_hub.Polling.Mid.Watchdog.{Watches, mid_freshness_watchdog-Watches}
use map_service_hub.Polling.Guard.{Guard, no_polls, enter, leave, calls, Reachable, at_start, after}
use map_service_hub.Polling.Guard.Single.{IsSingle, guard-IsSingle, leave-enter}

abbrev world : World ℕ
world = record { clock = λ s. (s, s); session = λ s. (true, s); sleep = λ n s t. (s + n, t) }

abbrev pace : Pace
pace = record {
  poll_interval = 1_000_000;
  retry_interval = 60_000_000;
  retry_max_duration = 600_000_000;
}

abbrev start : State ℕ
start = record { world = base_at + 15 * minute_us; tables = tables }

-- the provider has nothing before 16 minutes past two
abbrev fetch : ℕ → ℕ → Text → Text → ℕ → Option (List (Fields ℤ)) × ℕ
fetch nx ny base_date base_time s =
    if leb (base_at + 16 * minute_us) s then (some items, s) else (none, s)

abbrev short_run : Option (Ended SubscribedGrid) × State ℕ
short_run = short_term_polling_loop world even_months show fetch false pace start

second_round : short_run.0 ≡ some finished
unfolding short_term_polling_loop short_rounds rounds plan_short poll_each attempt_grid
    resolve_short_term_base parse_kma_base_at latest_slot select_active_grids
    loaded_short_term_grids upsert_short_term_items rows_of_items upsert_rows upsert_row same_key
    parse_kma_fcst_at short_term_expires_at
second_round = refl

base_parses :
    parse_kma_base_at even_months
      (resolve_short_term_base even_months start.world).0
      (resolve_short_term_base even_months start.world).1
    ≡ some base_at
unfolding resolve_short_term_base parse_kma_base_at latest_slot
base_parses = refl

quiet-IsCalm : IsCalm world
quiet-IsCalm = record { grids = λ n s t. refl; kept = λ n s t b x y h. h }

short_term_polling_loop-AllLoaded_example : AllLoaded base_at short_run.1.tables
short_term_polling_loop-AllLoaded_example =
    short_term_polling_loop-AllLoaded world even_months show fetch quiet-IsCalm pace start base_at
      base_parses second_round

world-IsClock : IsClock world (λ s. s)
world-IsClock = record {
  clock_reads = λ s. (omega arith, omega arith);
  session_after = λ s. omega arith;
  sleep_after = λ n s t. omega arith;
}

fetch_after : (nx ny : ℕ) (d t : Text) (s : ℕ) → s ≤ (fetch nx ny d t s).1
fetch_after nx ny d t s = ground arith

short_term_polling_loop-ends_example : short_run.0 ≢ some out_of_fuel
short_term_polling_loop-ends_example =
    short_term_polling_loop-ends world even_months show fetch (λ s. s) world-IsClock fetch_after
      false pace start (omega arith)

-- a quarter past six on the day after the rows of the tables
abbrev next_morning : ℕ
next_morning = 101 * day_us + 6 * hour_us

abbrev mid_start : State ℕ
mid_start = record { world = next_morning + 15 * minute_us; tables = tables }

abbrev fetch_land : String → Text → ℕ → Option (Fields ℤ) × ℕ
fetch_land rid tm_fc s = (some land_payload, s)

-- the temperatures come a minute later
abbrev fetch_temp : String → Text → ℕ → Option (Fields ℤ) × ℕ
fetch_temp rid tm_fc s =
    if leb (next_morning + 16 * minute_us) s then (some temp_payload, s) else (none, s)

abbrev mid_run : Option (Ended String) × State ℕ
mid_run =
    mid_term_polling_loop world even_months no_texts bind_text fetch_land fetch_temp false pace
      mid_start

second_mid_round : mid_run.0 ≡ some finished
unfolding mid_term_polling_loop mid_rounds rounds plan_mid poll_both poll_each attempt_land
    attempt_temp resolve_mid_tm_fc parse_kma_tm_fc select_active_grids land_pending temp_pending
    loaded_mid_land_regs loaded_mid_temp_regs upsert_mid_land upsert_mid_temp land_rows temp_rows
    safe_int safe_pop same_land same_temp
second_mid_round = refl

tm_fc_parses :
    parse_kma_tm_fc even_months (resolve_mid_tm_fc even_months mid_start.world) ≡ some next_morning
unfolding resolve_mid_tm_fc parse_kma_tm_fc
tm_fc_parses = refl

quiet_mid-IsCalm : Finished.IsCalm world
quiet_mid-IsCalm = record { grows = λ n s t. Grows-refl t }

mid_term_polling_loop-AllLoaded_example : Missing.AllLoaded next_morning mid_run.1.tables
mid_term_polling_loop-AllLoaded_example =
    mid_term_polling_loop-AllLoaded world even_months no_texts bind_text fetch_land fetch_temp
      quiet_mid-IsCalm pace mid_start next_morning tm_fc_parses second_mid_round

fetch_temp_after : (r : String) (t : Text) (s : ℕ) → s ≤ (fetch_temp r t s).1
fetch_temp_after r t s = ground arith

mid_term_polling_loop-ends_example : mid_run.0 ≢ some out_of_fuel
mid_term_polling_loop-ends_example =
    mid_term_polling_loop-ends world even_months no_texts bind_text fetch_land fetch_temp (λ s. s)
      world-IsClock (λ r t s. omega arith) fetch_temp_after false pace mid_start (omega arith)

-- at seven in the evening of day 100 the rows of 18 hours are there
abbrev loaded_state : State ℕ
loaded_state = record { world = evening + hour_us; tables = tables }

abbrev watch : Watched × State ℕ
watch =
    mid_freshness_watchdog world even_months no_texts bind_text fetch_land fetch_temp (λ s. false)
      (λ s. false) false pace loaded_state

watch_quiet : watch.0 ≡ up_to_date
unfolding mid_freshness_watchdog resolve_mid_tm_fc parse_kma_tm_fc select_active_grids
    latest_mid_tm_fc loaded_mid_land_regs loaded_mid_temp_regs
watch_quiet = refl

evening_parses :
    parse_kma_tm_fc even_months (resolve_mid_tm_fc even_months loaded_state.world) ≡ some evening
unfolding resolve_mid_tm_fc parse_kma_tm_fc
evening_parses = refl

mid_freshness_watchdog-Watches_example :
    Watches world even_months no_texts bind_text fetch_land fetch_temp
      (λ s. false)
      (λ s. false)
      false
      pace
      evening
      loaded_state.tables
      watch
mid_freshness_watchdog-Watches_example =
    mid_freshness_watchdog-Watches world even_months no_texts bind_text fetch_land fetch_temp
      (λ s. false) (λ s. false) false pace evening (λ s. refl) loaded_state evening_parses

abbrev short_name : String
short_name = "short_term_polling"

abbrev mid_name : String
mid_name = "mid_term_polling"

abbrev one_call : Guard
one_call = (enter short_name no_polls).1

abbrev two_calls : Guard
two_calls = (enter mid_name one_call).1

-- the startup starts both loops, and the schedule asks for the first again
two_calls-Reachable : Reachable two_calls
two_calls-Reachable =
    after one_call two_calls (after no_polls one_call at_start (calls short_name no_polls))
      (calls mid_name one_call)

guard-IsSingle_example : IsSingle (enter short_name two_calls).1
guard-IsSingle_example = guard-IsSingle (
    after two_calls (enter short_name two_calls).1 two_calls-Reachable (calls short_name two_calls))

mid_runs : In mid_name two_calls.bodies
unfolding enter
mid_runs = inl refl

leave-enter_example :
    ((enter mid_name two_calls).0 ≡ false)
    × Reachable (leave mid_name two_calls)
    × ((enter mid_name (leave mid_name two_calls)).0 ≡ true)
leave-enter_example = leave-enter mid_name two_calls-Reachable mid_runs
