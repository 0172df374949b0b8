-- ===== src/Budget/Clients/Lifetime.antt =====
-- How long the clients let the counter live, step by step.
use mathlib.Core.Path.{subst}
use map_service_hub.Base.{
  ℕ, zero, suc, ◌+◌, ◌*◌, ◌≤◌, ◌<◌, ◌≡◌, sym, ◌∙◌, Option, none, some, List, [], ◌∷◌, map, String,
  arith, if-cases, inl, inr, All,
}
use map_service_hub.Base.Int.{ℤ, pos, ltb_ℤ, same_ℤ, neg}
use map_service_hub.Weather.Rows.{day_us}
use map_service_hub.Budget.{Redis}
use map_service_hub.Budget.Single.{seconds_to_next_midnight_bounds}
use map_service_hub.Budget.Clients.{
  Timed, IsTimed, IsBefore, Client, idle, counting, expiring, refunding, refund_expiring, granted,
  refused, judge, counted, given_back, advance, step_at,
}

module _ {S : Type 0} (r : Redis S) (timed : Timed S) (cap : ℤ) (key : String)
    (clocked : IsTimed r timed) (day : ℕ) where
  -- a time to live that reaches into the last second of the day, or past it
  abbrev pub Reaches : ℕ → ℕ → Type 0
  Reaches now ttl = (day + 1) * day_us < now + (ttl + 1) * 1_000_000

  abbrev pub IsLong : ℕ → Client → Type 0
  IsLong now (counting ttl n) = Reaches now ttl
  IsLong now (expiring ttl n total) = Reaches now ttl
  IsLong now (refunding ttl n) = Reaches now ttl
  IsLong now (refund_expiring ttl) = Reaches now ttl
  IsLong now _ = Unit

  abbrev pub IsLate : Option ℕ → Type 0
  IsLate none = Unit
  IsLate (some end) = (day + 1) * day_us < end + 1_000_000

  -- the times of a state and of a client
  abbrev pub Lasts : ℕ → Client → S → Type 0
  Lasts now c s = (timed.clock s ≡ now) × IsLong now c × IsLate (timed.expires_at key s)

  judge-IsLong :
      (now ttl n : ℕ) (t : ℤ) → Reaches now ttl → IsLong now (judge r timed cap key ttl n t)
  judge-IsLong now ttl n t h =
      if-cases (IsLong now) (ltb_ℤ cap t) (refunding ttl n) (granted n) (λ _. h) (λ _. tt)

  counted-IsLong :
      (now ttl n : ℕ) (o : Option ℤ)
      → Reaches now ttl
      → IsLong now (counted r timed cap key ttl n o)
  counted-IsLong now ttl n none h = tt
  counted-IsLong now ttl n (some t) h =
      if-cases (IsLong now) (same_ℤ t (pos n)) (expiring ttl n t) (judge r timed cap key ttl n t)
        (λ _. h) (λ _. judge-IsLong now ttl n t h)

  given_back-IsLong :
      (now ttl n : ℕ) (o : Option ℤ)
      → Reaches now ttl
      → IsLong now (given_back r timed cap key ttl n o)
  given_back-IsLong now ttl n none h = tt
  given_back-IsLong now ttl n (some t) h =
      if-cases (IsLong now) (same_ℤ t (neg n)) (refund_expiring ttl) refused (λ _. h) (λ _. tt)

  incrby-Lasts :
      (a : ℤ) (now : ℕ) (s : S)
      → timed.clock s ≡ now
      → IsLate (timed.expires_at key s)
      → (timed.clock (r.incrby key a s).1 ≡ now)
        × IsLate (timed.expires_at key (r.incrby key a s).1)
  incrby-Lasts a now s q h =
      (clocked.incrby_clock key a s ∙ q, subst IsLate (sym (clocked.incrby_expires key a s)) h)

  expire-Lasts :
      (ttl now : ℕ) (s : S)
      → timed.clock s ≡ now
      → Reaches now ttl
      → IsLate (timed.expires_at key s)
      → (timed.clock (r.expire key ttl s).1 ≡ now)
        × IsLate (timed.expires_at key (r.expire key ttl s).1)
  expire-Lasts ttl now s q long h = (
    clocked.expire_clock key ttl s ∙ q,
    elim (clocked.expire_expires key ttl s) [
      | inl set ↦ subst IsLate (sym set) (omega arith)
      | inr kept ↦ subst IsLate (sym kept) h
    ],
  )

  advance-Lasts :
      (c : Client) (now : ℕ) (s : S)
      → day * day_us ≤ now
      → now < (day + 1) * day_us
      → Lasts now c s
      → let (c', s') = advance r timed cap key c s in Lasts now c' s'
  unfolding advance
  advance-Lasts (idle n) now s from to (q, long, h) =
      (q, let bounds = seconds_to_next_midnight_bounds (timed.clock s) in ground arith, h)
  advance-Lasts (counting ttl n) now s from to (q, long, h) =
      let (q', h') = incrby-Lasts (pos n) now s q h in
      (q', counted-IsLong now ttl n (r.incrby key (pos n) s).0 long, h')
  advance-Lasts (expiring ttl n total) now s from to (q, long, h) =
      let (q', h') = expire-Lasts ttl now s q long h in
      (
        q',
        if-cases (IsLong now) (r.expire key ttl s).0 (judge r timed cap key ttl n total) refused
            (λ _. judge-IsLong now ttl n total long) (λ _. tt),
        h',
      )
  advance-Lasts (refunding ttl n) now s from to (q, long, h) =
      let (q', h') = incrby-Lasts (neg n) now s q h in
      (q', given_back-IsLong now ttl n (r.incrby key (neg n) s).0 long, h')
  advance-Lasts (refund_expiring ttl) now s from to (q, long, h) =
      let (q', h') = expire-Lasts ttl now s q long h in (q', tt, h')
  advance-Lasts (granted n) now s from to h = h
  advance-Lasts refused now s from to h = h

  abbrev pub AllLast : ℕ → List Client → S → Type 0
  AllLast now cs s = (timed.clock s ≡ now) × All (IsLong now) cs × IsLate (timed.expires_at key s)

  pub step_at-AllLast :
      (i : ℕ) (cs : List Client) (now : ℕ) (s : S)
      → day * day_us ≤ now
      → now < (day + 1) * day_us
      → AllLast now cs s
      → let (cs', s') = step_at r timed cap key i cs s in AllLast now cs' s'
  unfolding step_at
  step_at-AllLast i [] now s from to h = h
  step_at-AllLast zero (c ∷ cs) now s from to (q, long, h) =
      let (q', own, h') = advance-Lasts c now s from to (q, long.0, h) in (q', (own, long.1), h')
  step_at-AllLast (suc i) (c ∷ cs) now s from to (q, long, h) =
      let (q', others, h') = step_at-AllLast i cs now s from to (q, long.1, h) in
      (q', (long.0, others), h')

  pub idle-AllLong : (now : ℕ) (amounts : List ℕ) → All (IsLong now) (map idle amounts)
  idle-AllLong now [] = tt
  idle-AllLong now (n ∷ ns) = (tt, idle-AllLong now ns)

  -- time passes to a moment that is not in the last second of the day
  later-IsLong : (now at : ℕ) (c : Client) → now ≤ at → IsLong now c → IsLong at c
  later-IsLong now at (idle n) le h = tt
  later-IsLong now at (counting ttl n) le h = omega arith
  later-IsLong now at (expiring ttl n total) le h = omega arith
  later-IsLong now at (refunding ttl n) le h = omega arith
  later-IsLong now at (refund_expiring ttl) le h = omega arith
  later-IsLong now at (granted n) le h = tt
  later-IsLong now at refused le h = tt

  pub later-AllLong :
      (now at : ℕ) (cs : List Client) → now ≤ at → All (IsLong now) cs → All (IsLong at) cs
  later-AllLong now at [] le h = tt
  later-AllLong now at (c ∷ cs) le h =
      (later-IsLong now at c le h.0, later-AllLong now at cs le h.1)

  pub is_before :
      (at : ℕ) (o : Option ℕ) → at + 1_000_000 ≤ (day + 1) * day_us → IsLate o → IsBefore at o
  is_before at none le h = tt
  is_before at (some end) le h = omega arith
