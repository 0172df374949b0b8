-- ===== src/Lib.antt =====
-- A model of map-service-hub, the service that collects weather forecasts, places and routes from
-- public providers and serves them to the other services.
--
-- The program has four layers. The polling loops of app/scheduler/hub_scheduler.py choose a publication
-- of the weather agency, ask app/clients/hub_clients.py for it, and store it through
-- app/db/forecast_repo.py. The endpoints of app/routers/hub_routers.py read the stored rows and build
-- the responses of app/schemas/hub_schemas.py; some of them call paid providers, within daily budgets
-- that Redis counts (app/cache/hub_cache.py).
--
-- Base: names of the libraries, tests on numbers, lists, sorting by one and by two keys, membership,
--   integers, JSON values. Python's sort is an insertion sort; `ORDER BY a, b` is the sort by b and
--   then by a. Floats are a type parameter F with the operations of the record Floats.
-- Kma: parse_kma_base_at, parse_kma_tm_fc, parse_kma_fcst_at and resolve_nowcast_base of
--   app/utils/kma_grid.py; resolve_short_term_base and resolve_mid_tm_fc of
--   app/scheduler/hub_scheduler.py. What Python does with digits and dates, and the last day that
--   it has, is the record Calendar.
-- Store: the tables as lists of rows and each function of app/db/forecast_repo.py as a function on
--   them. Store.Grids and Store.Regions are the choice of a grid and the searches of a region,
--   Store.Short the short-term forecasts, Store.Mid and Store.Mid.Fetch the mid-term ones,
--   Store.Housekeeping the cleaning. `now()` of the database is an argument. A statement that inserts
--   a list of rows is the fold over the rows. Constraints that a statement could break are not modelled.
-- Weather: GET /v1/weather of app/routers/hub_routers.py: _split_dates_by_horizon (Weather.Horizon),
--   _coerce_int, _valid_pop and label_sky of app/codes/kma_codes.py (Weather.Values),
--   _aggregate_short_term (Weather.Short), _aggregate_mid (Weather.Mid), get_weather
--   (Weather.Endpoint). What it reads from the repository is the record Repo.
-- Budget: RedisCache.incr_by of app/cache/hub_cache.py, and _google_media_allowed and
--   _odsay_call_allowed of app/routers/hub_routers.py, first alone and then, in Budget.Clients, as
--   clients whose INCRBY and EXPIRE interleave on a clock. Redis is the record Redis, its clock and the
--   expiry of its keys the record Timed; the server and the program share one clock. The time to live
--   is cut to whole seconds, so that a counter may expire within the last second of its day; what the
--   clients do in that second is not covered.
-- Provider: KMAClient of app/clients/hub_clients.py over a transport that is a parameter: its answers
--   and _check (Provider), its calls (Provider.Client). Provider.Pages says what a complete edition is.
-- Polling: the short-term and the mid-term loop, the watchdog and the guard _single_poll of
--   app/scheduler/hub_scheduler.py. A round is Polling.poll_each, the loop over rounds Polling.rounds;
--   Polling.Short and Polling.Mid are the two loops, over the tables of Store and a client that is a
--   parameter, Polling.Guard the guard as a step relation. The watchdog asks the world whether the guard
--   of the mid-term loop is held. The record World has the clock, the success of a database session, and
--   what other tasks do to the tables while a loop sleeps. A loop runs on fuel, one round more than the
--   microseconds of its deadline; as a round takes a positive pause, that is enough.
-- Sealing: seal and open_seal of app/crypto/location_seal.py, with AES-GCM, base64 and JSON as the record
--   Wire; Sealing.Params is app/routers/location_params.py.
-- Guards: public_guard of app/routers/guards.py, internal_guard and internal_admin_guard of
--   app/routers/internal_router.py.
-- Transit: _subway_route and _transit_routes of app/routers/hub_routers.py as one function of the type of
--   the result, with _odsay_is_key_failure and the two retries; _filter_routes_by_mode and what
--   get_transit_routes makes of its result. The budget, the clients and the cache are the record Outside.
-- Rules: filter_by_radius, haversine_m (Rules, Rules.Radius) and estimate_dwell (Rules.Dwell) of
--   app/rules/rule_engine.py. Trigonometry is the record Trig.
-- Tests: the examples at concrete inputs.
--
-- A date is its ordinal, a time a number of microseconds of the clock in Seoul from day 0. Texts are
-- compared as texts; where their characters matter they are lists of code points. The loop over the
-- dates of a range runs on fuel, the number of the dates, which is enough for it to end by itself.
--
-- Not modelled: the clients of the other providers, the other endpoints, the loops for observations
-- and air quality, the bonus of indoor places, geometry, metrics, configuration, migrations and scripts.
pub mod Base
pub mod Weather
pub mod Kma
pub mod Store
mod Tests
pub mod Budget
pub mod Polling
pub mod Rules
pub mod Provider
pub mod Sealing
pub mod Guards
pub mod Transit
