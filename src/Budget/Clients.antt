-- ===== src/Budget/Clients.antt =====
-- Requests that ask the budget of one day at the same time: each is a client whose calls of Redis are
-- atomic steps, INCRBY and EXPIRE apart, and a schedule says which client moves next and at what moment.
-- The counter's key is the same for all; the clock is one, of microseconds.
pub mod Counter
pub mod Lifetime
pub mod Cap
use map_service_hub.Base.{
  ℕ, zero, suc, ◌+◌, ◌*◌, ◌≤◌, ◌<◌, ◌≡◌, ◌⊎◌, Bool, Option, none, some, List, [], ◌∷◌, String,
  if◌then◌else◌,
}
use map_service_hub.Base.Int.{ℤ, pos, ltb_ℤ, same_ℤ, neg}
use map_service_hub.Weather.Rows.{day_us}
use map_service_hub.Budget.{Redis, seconds_to_next_midnight}

-- The time of the server: its clock, the passing of time to a later moment, and when a key expires.
pub record Timed (S : Type 0) : Type 0 where
  pub clock : S → ℕ
  pub wait : ℕ → S → S
  pub expires_at : String → S → Option ℕ

-- the moment lies before the expiry of a key, if it has one
abbrev pub IsBefore : ℕ → Option ℕ → Type 0
IsBefore at none = Unit
IsBefore at (some end) = at < end

-- INCRBY leaves the expiry of a key alone. EXPIRE sets it the given seconds ahead, or does nothing. A
-- key keeps its number and its expiry until that moment.
pub record IsTimed {S : Type 0} (r : Redis S) (timed : Timed S) : Type 0 where
  pub incrby_clock : (k : String) (a : ℤ) (s : S) → timed.clock (r.incrby k a s).1 ≡ timed.clock s
  pub incrby_expires :
      (k : String) (a : ℤ) (s : S) → timed.expires_at k (r.incrby k a s).1 ≡ timed.expires_at k s
  pub expire_clock :
      (k : String) (ttl : ℕ) (s : S) → timed.clock (r.expire k ttl s).1 ≡ timed.clock s
  pub expire_expires :
      (k : String) (ttl : ℕ) (s : S)
      → (timed.expires_at k (r.expire k ttl s).1 ≡ some (timed.clock s + ttl * 1_000_000))
        ⊎ (timed.expires_at k (r.expire k ttl s).1 ≡ timed.expires_at k s)
  pub wait_clock : (at : ℕ) (s : S) → timed.clock (timed.wait at s) ≡ at
  pub wait_value :
      (k : String) (at : ℕ) (s : S)
      → IsBefore at (timed.expires_at k s)
      → r.value k (timed.wait at s) ≡ r.value k s
  pub wait_expires :
      (k : String) (at : ℕ) (s : S)
      → IsBefore at (timed.expires_at k s)
      → timed.expires_at k (timed.wait at s) ≡ timed.expires_at k s

-- A client with its amount, and with its time to live once it has read the clock: before the calls that
-- count, between INCRBY and EXPIRE, before the calls that give back, between those, and done.
pub data Client : Type 0 where
  idle : ℕ → Client
  counting : ℕ → ℕ → Client
  expiring : ℕ → ℕ → ℤ → Client
  refunding : ℕ → ℕ → Client
  refund_expiring : ℕ → Client
  granted : ℕ → Client
  refused : Client

-- what a client may spend
abbrev pub spent : Client → ℕ
spent (granted n) = n
spent _ = 0

abbrev pub total_spent : List Client → ℕ
total_spent [] = 0
total_spent (c ∷ cs) = spent c + total_spent cs

module _ {S : Type 0} (r : Redis S) (timed : Timed S) (cap : ℤ) (key : String) where
  -- `total > cap`
  abbrev pub judge : ℕ → ℕ → ℤ → Client
  judge ttl n total = if ltb_ℤ cap total then refunding ttl n else granted n

  -- `total == amount`, in the call that counts and in the one that gives back
  abbrev pub counted : ℕ → ℕ → Option ℤ → Client
  counted ttl n none = refused
  counted ttl n (some total) =
      if same_ℤ total (pos n) then expiring ttl n total else judge ttl n total

  abbrev pub given_back : ℕ → ℕ → Option ℤ → Client
  given_back ttl n none = refused
  given_back ttl n (some total) = if same_ℤ total (neg n) then refund_expiring ttl else refused

  -- one atomic step of a client
  unfoldable pub advance : Client → S → Client × S
  advance (idle n) s = (counting (seconds_to_next_midnight (timed.clock s)) n, s)
  advance (counting ttl n) s = let (total, s') = r.incrby key (pos n) s in (counted ttl n total, s')
  advance (expiring ttl n total) s =
      let (done, s') = r.expire key ttl s in (if done then judge ttl n total else refused, s')
  advance (refunding ttl n) s =
      let (total, s') = r.incrby key (neg n) s in (given_back ttl n total, s')
  advance (refund_expiring ttl) s = (refused, (r.expire key ttl s).1)
  advance (granted n) s = (granted n, s)
  advance refused s = (refused, s)

  -- the client with the given number moves; a number that no client has moves none
  unfoldable pub step_at : ℕ → List Client → S → List Client × S
  step_at i [] s = ([], s)
  step_at zero (c ∷ cs) s = let (c', s') = advance c s in (c' ∷ cs, s')
  step_at (suc i) (c ∷ cs) s = let (cs', s') = step_at i cs s in (c ∷ cs', s')

  -- each step has its client and its moment
  unfoldable pub run : List (ℕ × ℕ) → List Client → S → List Client × S
  run [] cs s = (cs, s)
  run ((i, at) ∷ schedule) cs s =
      let (cs', s') = step_at i cs (timed.wait at s) in run schedule cs' s'

-- The moments of a schedule follow each other, and none is in the last second of the day.
abbrev pub IsInDay : ℕ → ℕ → List (ℕ × ℕ) → Type 0
IsInDay day now [] = Unit
IsInDay day now ((i, at) ∷ schedule) =
    (now ≤ at) × (at + 1_000_000 ≤ (day + 1) * day_us) × IsInDay day at schedule
