-- ===== src/Budget.antt =====
-- The daily call budgets: `RedisCache.incr_by` of app/cache/hub_cache.py, and `_google_media_allowed`,
-- `_odsay_call_allowed`, `_seconds_to_next_kst_midnight` of app/routers/hub_routers.py. The Redis
-- server is the record `Redis`, over a type of server states.
pub mod Single
pub mod Clients
use map_service_hub.Base.{
  ℕ, suc, ◌+◌, ◌-◌, ◌*◌, ◌/◌, ◌≤◌, ◌≡◌, ◌⊎◌, Bool, true, false, Option, none, some, String, leb,
  if◌then◌else◌,
}
use map_service_hub.Base.Int.{ℤ, pos, negsuc, ◌+ℤ◌, sub_ℕ, ltb_ℤ, leb_ℤ, same_ℤ, neg}
use map_service_hub.Weather.Rows.{day_us}

-- A command returns none where it raises `RedisError`. `value` is the number under a key, 0 for none.
pub record Redis (S : Type 0) : Type 0 where
  pub incrby : String → ℤ → S → Option ℤ × S
  pub expire : String → ℕ → S → Bool × S
  pub value : String → S → ℤ

-- INCRBY adds to the number under the key and returns the sum. A call that raises may have been
-- carried out or not. EXPIRE leaves the number alone.
pub record IsCounter {S : Type 0} (r : Redis S) : Type 0 where
  pub incrby_some :
      (k : String) (a t : ℤ) (s : S)
      → (r.incrby k a s).0 ≡ some t
      → (t ≡ r.value k s +ℤ a) × (r.value k (r.incrby k a s).1 ≡ t)
  pub incrby_none :
      (k : String) (a : ℤ) (s : S)
      → (r.incrby k a s).0 ≡ none
      → (r.value k (r.incrby k a s).1 ≡ r.value k s)
        ⊎ (r.value k (r.incrby k a s).1 ≡ r.value k s +ℤ a)
  pub expire_value : (k : String) (ttl : ℕ) (s : S) → r.value k (r.expire k ttl s).1 ≡ r.value k s

-- `max(int((midnight - now).total_seconds()), 1)`, on a clock of microseconds
unfoldable pub seconds_to_next_midnight : ℕ → ℕ
seconds_to_next_midnight now =
    let seconds = ((now / day_us + 1) * day_us - now) / 1_000_000 in
    if leb seconds 1 then 1 else seconds

module _ {S : Type 0} (r : Redis S) where
  abbrev pub expire_first : String → ℤ → ℕ → ℤ → S → Option ℤ × S
  expire_first key amount ttl total s =
      if same_ℤ total amount
      then (if (r.expire key ttl s).0 then some total else none, (r.expire key ttl s).1)
      else (some total, s)

  abbrev pub after_incrby : String → ℤ → ℕ → Option ℤ × S → Option ℤ × S
  after_incrby key amount ttl (none, s) = (none, s)
  after_incrby key amount ttl (some total, s) = expire_first key amount ttl total s

  unfoldable pub incr_by : String → ℤ → ℕ → S → Option ℤ × S
  incr_by key amount ttl s = after_incrby key amount ttl (r.incrby key amount s)

  -- The tests on the sum: the second `incr_by` gives back the amount of a refused call.
  abbrev pub settle : String → ℕ → ℕ → ℤ → Option ℤ × S → Bool × S
  settle key ttl count cap (none, s) = (false, s)
  settle key ttl count cap (some total, s) =
      if ltb_ℤ cap total then (false, (incr_by key (neg count) ttl s).1) else (true, s)

  -- `cache` is whether the cache is configured.
  unfoldable pub google_media_allowed : ℤ → Bool → String → ℕ → ℕ → S → Bool × S
  google_media_allowed cap cache key now count s =
      if leb_ℤ cap (pos 0)
      then (false, s)
      else if cache
      then (let ttl = seconds_to_next_midnight now in
          settle key ttl count cap (incr_by key (pos count) ttl s))
      else (false, s)

  unfoldable pub odsay_call_allowed : ℤ → Bool → String → ℕ → S → Bool × S
  odsay_call_allowed cap cache key now s =
      if leb_ℤ cap (pos 0)
      then (false, s)
      else if cache
      then (let ttl = seconds_to_next_midnight now in
          settle key ttl 1 cap (incr_by key (pos 1) ttl s))
      else (false, s)
