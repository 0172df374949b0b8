-- ===== src/Budget/Clients/Counter.antt =====
-- What the clients hold of the counter, and what has been decided for them, step by step.
use map_service_hub.Base.{
  ℕ, zero, suc, ◌+◌, ◌≤◌, ◌≡◌, refl, Bool, Option, none, some, List, [], ◌∷◌, map, String, arith,
  if◌then◌else◌, ◌⊎◌,
}
use map_service_hub.Base.Int.{ℤ, pos, ◌+ℤ◌, ◌≤ℤ◌, ltb_ℤ, neg, +ℤ_parts}
use map_service_hub.Budget.{Redis, IsCounter}
use map_service_hub.Budget.Clients.{
  Timed, Client, idle, counting, expiring, refunding, refund_expiring, granted, refused,
  total_spent, judge, counted, given_back, advance, step_at,
}

-- what a client holds of the counter
abbrev pub held : Client → ℕ
held (idle n) = 0
held (counting ttl n) = 0
held (expiring ttl n total) = n
held (refunding ttl n) = n
held (refund_expiring ttl) = 0
held (granted n) = n
held refused = 0

abbrev pub total_held : List Client → ℕ
total_held [] = 0
total_held (c ∷ cs) = held c + total_held cs

-- what it has been or will be granted, as far as Redis has decided
abbrev pub committed : ℤ → Client → ℕ
committed cap (expiring ttl n total) = if ltb_ℤ cap total then 0 else n
committed cap (granted n) = n
committed cap _ = 0

abbrev pub total_committed : ℤ → List Client → ℕ
total_committed cap [] = 0
total_committed cap (c ∷ cs) = committed cap c + total_committed cap cs

committed-le-held : (cap : ℤ) (c : Client) → committed cap c ≤ held c
committed-le-held cap (idle n) = omega arith
committed-le-held cap (counting ttl n) = omega arith
committed-le-held cap (expiring ttl n total) = ground arith
committed-le-held cap (refunding ttl n) = omega arith
committed-le-held cap (refund_expiring ttl) = omega arith
committed-le-held cap (granted n) = omega arith
committed-le-held cap refused = omega arith

pub total_committed-le-held : (cap : ℤ) (cs : List Client) → total_committed cap cs ≤ total_held cs
total_committed-le-held cap [] = omega arith
total_committed-le-held cap (c ∷ cs) =
    omega (arith, committed-le-held cap c, total_committed-le-held cap cs)

pub spent-le-committed : (cap : ℤ) (cs : List Client) → total_spent cs ≤ total_committed cap cs
spent-le-committed cap [] = omega arith
spent-le-committed cap (idle n ∷ cs) = omega (arith, spent-le-committed cap cs)
spent-le-committed cap (counting ttl n ∷ cs) = omega (arith, spent-le-committed cap cs)
spent-le-committed cap (expiring ttl n total ∷ cs) = omega (arith, spent-le-committed cap cs)
spent-le-committed cap (refunding ttl n ∷ cs) = omega (arith, spent-le-committed cap cs)
spent-le-committed cap (refund_expiring ttl ∷ cs) = omega (arith, spent-le-committed cap cs)
spent-le-committed cap (granted n ∷ cs) = omega (arith, spent-le-committed cap cs)
spent-le-committed cap (refused ∷ cs) = omega (arith, spent-le-committed cap cs)

pub idle_held : (amounts : List ℕ) → total_held (map idle amounts) ≡ 0
idle_held [] = refl
idle_held (n ∷ ns) = omega (arith, idle_held ns)

module _ {S : Type 0} (r : Redis S) (timed : Timed S) (cap : ℤ) (key : String)
    (law : IsCounter r) where
  -- What the clients hold is in the counter, and what has been decided is within the cap.
  abbrev pub Fits : ℕ → ℕ → Client → S → Type 0
  Fits e g c s = (pos (e + held c) ≤ℤ r.value key s) × (pos (g + committed cap c) ≤ℤ cap)

  counted-Fits :
      (o : Option ℤ) (n ttl e g : ℕ) (v v' : ℤ)
      → g ≤ e
      → pos e ≤ℤ v
      → pos g ≤ℤ cap
      → ((t : ℤ) → o ≡ some t → (t ≡ v +ℤ pos n) × (v' ≡ t))
      → (o ≡ none → (v' ≡ v) ⊎ (v' ≡ v +ℤ pos n))
      → let c = counted r timed cap key ttl n o in
        (pos (e + held c) ≤ℤ v') × (pos (g + committed cap c) ≤ℤ cap)
  counted-Fits none n ttl e g v v' le h k f d = ground (arith, +ℤ_parts v (pos n), d refl)
  counted-Fits (some t) n ttl e g v v' le h k f d = ground (arith, +ℤ_parts v (pos n), f t refl)

  given_back-Fits :
      (o : Option ℤ) (n ttl e g : ℕ) (v v' : ℤ)
      → pos (e + n) ≤ℤ v
      → pos g ≤ℤ cap
      → ((t : ℤ) → o ≡ some t → (t ≡ v +ℤ neg n) × (v' ≡ t))
      → (o ≡ none → (v' ≡ v) ⊎ (v' ≡ v +ℤ neg n))
      → let c = given_back r timed cap key ttl n o in
        (pos (e + held c) ≤ℤ v') × (pos (g + committed cap c) ≤ℤ cap)
  given_back-Fits none n ttl e g v v' h k f d = ground (arith, +ℤ_parts v (neg n), d refl)
  given_back-Fits (some t) n ttl e g v v' h k f d = ground (arith, +ℤ_parts v (neg n), f t refl)

  expired-Fits :
      (done : Bool) (n ttl e g : ℕ) (total v v' : ℤ)
      → v' ≡ v
      → pos (e + n) ≤ℤ v
      → pos (g + committed cap (expiring ttl n total)) ≤ℤ cap
      → let c = if done then judge r timed cap key ttl n total else refused in
        (pos (e + held c) ≤ℤ v') × (pos (g + committed cap c) ≤ℤ cap)
  expired-Fits done n ttl e g total v v' q h k = ground arith

  -- one client among others that hold `e` of the counter and are to have `g`
  advance-Fits :
      (c : Client) (s : S) (e g : ℕ)
      → g ≤ e
      → Fits e g c s
      → let (c', s') = advance r timed cap key c s in Fits e g c' s'
  unfolding advance
  advance-Fits (idle n) s e g le h = h
  advance-Fits (counting ttl n) s e g le h =
      let p = r.incrby key (pos n) s in
      counted-Fits p.0 n ttl e g (r.value key s) (r.value key p.1) le (omega arith) (omega arith)
        (λ t. law.incrby_some key (pos n) t s) (law.incrby_none key (pos n) s)
  advance-Fits (expiring ttl n total) s e g le h =
      let p = r.expire key ttl s in
      expired-Fits p.0 n ttl e g total (r.value key s) (r.value key p.1)
        (law.expire_value key ttl s) h.0 h.1
  advance-Fits (refunding ttl n) s e g le h =
      let p = r.incrby key (neg n) s in
      given_back-Fits p.0 n ttl e g (r.value key s) (r.value key p.1) (omega arith) (omega arith)
        (λ t. law.incrby_some key (neg n) t s) (law.incrby_none key (neg n) s)
  advance-Fits (refund_expiring ttl) s e g le h = ground (arith, law.expire_value key ttl s)
  advance-Fits (granted n) s e g le h = h
  advance-Fits refused s e g le h = h

  abbrev pub AllFit : ℕ → ℕ → List Client → S → Type 0
  AllFit e g cs s =
      (pos (e + total_held cs) ≤ℤ r.value key s) × (pos (g + total_committed cap cs) ≤ℤ cap)

  pub step_at-AllFit :
      (i : ℕ) (cs : List Client) (s : S) (e g : ℕ)
      → g ≤ e
      → AllFit e g cs s
      → let (cs', s') = step_at r timed cap key i cs s in AllFit e g cs' s'
  unfolding step_at
  step_at-AllFit i [] s e g le h = h
  step_at-AllFit zero (c ∷ cs) s e g le h =
      let kept =
        advance-Fits c s (e + total_held cs) (g + total_committed cap cs)
          (omega (arith, total_committed-le-held cap cs)) (omega arith, omega arith) in
      (omega arith, omega arith)
  step_at-AllFit (suc i) (c ∷ cs) s e g le h =
      let kept =
        step_at-AllFit i cs s (e + held c) (g + committed cap c)
          (omega (arith, committed-le-held cap c)) (omega arith, omega arith) in
      (omega arith, omega arith)
