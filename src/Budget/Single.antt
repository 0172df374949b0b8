-- ===== src/Budget/Single.antt =====
-- One request for the budget, alone: what it may do to the counter, and the lifetime of a counter.
use map_service_hub.Base.{
  ℕ, refl, ◌∙◌, ◌+◌, ◌*◌, ◌/◌, ◌≤◌, ◌<◌, ◌≡◌, ◌⊎◌, inl, inr, Bool, true, false, Option, none, some,
  String, arith, Bool-cases, Option-cases,
}
use map_service_hub.Base.Int.{ℤ, pos, ◌+ℤ◌, ◌≤ℤ◌, ltb_ℤ, +ℤ_parts, eq_of_parts, neg}
use map_service_hub.Weather.Rows.{day_us}
use map_service_hub.Budget.{
  Redis, IsCounter, seconds_to_next_midnight, after_incrby, incr_by, settle, google_media_allowed,
  odsay_call_allowed,
}

-- The lifetime that a counter is given is from 1 to 86400 seconds, and one second more would pass the
-- next midnight. It does not pass midnight itself, except for the second that is given when less than one
-- is left.
pub seconds_to_next_midnight_bounds :
    (now : ℕ)
    → let ttl = seconds_to_next_midnight now in
      let midnight = (now / day_us + 1) * day_us in
      (1 ≤ ttl)
      × (ttl ≤ 86400)
      × (midnight < now + (ttl + 1) * 1_000_000)
      × ((now + ttl * 1_000_000 ≤ midnight) ⊎ ((ttl ≡ 1) × (midnight < now + 1_000_000)))
unfolding seconds_to_next_midnight
seconds_to_next_midnight_bounds now = (ground arith, ground arith, ground arith, ground arith)

module _ {S : Type 0} (r : Redis S) (law : IsCounter r) where
  after_incrby-some :
      (k : String) (a t v : ℤ) (ttl : ℕ) (p : Option ℤ × S)
      → ((u : ℤ) → p.0 ≡ some u → (u ≡ v +ℤ a) × (r.value k p.1 ≡ u))
      → (after_incrby r k a ttl p).0 ≡ some t
      → (t ≡ v +ℤ a) × (r.value k (after_incrby r k a ttl p).1 ≡ t)
  after_incrby-some k a t v ttl (none, s) f h = ground arith
  after_incrby-some k a t v ttl (some u, s) f h = ground (arith, f u refl, law.expire_value k ttl s)

  after_incrby-none :
      (k : String) (a v : ℤ) (ttl : ℕ) (p : Option ℤ × S)
      → ((u : ℤ) → p.0 ≡ some u → (u ≡ v +ℤ a) × (r.value k p.1 ≡ u))
      → (p.0 ≡ none → (r.value k p.1 ≡ v) ⊎ (r.value k p.1 ≡ v +ℤ a))
      → (after_incrby r k a ttl p).0 ≡ none
      → (r.value k (after_incrby r k a ttl p).1 ≡ v)
        ⊎ (r.value k (after_incrby r k a ttl p).1 ≡ v +ℤ a)
  after_incrby-none k a v ttl (none, s) f g h = g refl
  after_incrby-none k a v ttl (some u, s) f g h = ground (arith, f u refl, law.expire_value k ttl s)

  -- a sum that `incr_by` returns is the number under the key, raised by the amount
  pub incr_by-some :
      (k : String) (a t : ℤ) (ttl : ℕ) (s : S)
      → (incr_by r k a ttl s).0 ≡ some t
      → (t ≡ r.value k s +ℤ a) × (r.value k (incr_by r k a ttl s).1 ≡ t)
  unfolding incr_by
  incr_by-some k a t ttl s =
      after_incrby-some k a t (r.value k s) ttl (r.incrby k a s) (λ u. law.incrby_some k a u s)

  -- a failed `incr_by` has left the number alone or raised it by the amount
  pub incr_by-none :
      (k : String) (a : ℤ) (ttl : ℕ) (s : S)
      → (incr_by r k a ttl s).0 ≡ none
      → (r.value k (incr_by r k a ttl s).1 ≡ r.value k s)
        ⊎ (r.value k (incr_by r k a ttl s).1 ≡ r.value k s +ℤ a)
  unfolding incr_by
  incr_by-none k a ttl s =
      after_incrby-none k a (r.value k s) ttl (r.incrby k a s) (λ u. law.incrby_some k a u s)
        (law.incrby_none k a s)

  settle-granted :
      (k : String) (ttl count : ℕ) (cap v : ℤ) (p : Option ℤ × S)
      → ((u : ℤ) → p.0 ≡ some u → (u ≡ v +ℤ pos count) × (r.value k p.1 ≡ u))
      → (settle r k ttl count cap p).0 ≡ true
      → let s' = (settle r k ttl count cap p).1 in
        (r.value k s' ≡ v +ℤ pos count) × (r.value k s' ≤ℤ cap)
  settle-granted k ttl count cap v (none, s) f h = ground arith
  settle-granted k ttl count cap v (some u, s) f h = ground (arith, f u refl)

  -- the amount that is given back restores the number
  give_back : (v : ℤ) (n : ℕ) → v +ℤ pos n +ℤ neg n ≡ v
  give_back v n =
      eq_of_parts (v +ℤ pos n +ℤ neg n) v
        (ground (arith, +ℤ_parts v (pos n), +ℤ_parts (v +ℤ pos n) (neg n)))

  Unspent : ℤ → ℕ → String → S → Type 0
  Unspent v count k s = (r.value k s ≡ v) ⊎ (r.value k s ≡ v +ℤ pos count)

  refund :
      (k : String) (ttl count : ℕ) (v : ℤ) (s : S)
      → r.value k s ≡ v +ℤ pos count
      → Unspent v count k (incr_by r k (neg count) ttl s).1
  unfolding Unspent
  refund k ttl count v s h = elim (Option-cases (incr_by r k (neg count) ttl s).0) [
    | inl failed ↦ ground (arith, incr_by-none k (neg count) ttl s failed, give_back v count, h)
    | inr (u, done) ↦ ground (arith, incr_by-some k (neg count) u ttl s done, give_back v count, h)
  ]

  settle-refused :
      (k : String) (ttl count : ℕ) (cap v : ℤ) (p : Option ℤ × S)
      → ((u : ℤ) → p.0 ≡ some u → (u ≡ v +ℤ pos count) × (r.value k p.1 ≡ u))
      → (p.0 ≡ none → Unspent v count k p.1)
      → (settle r k ttl count cap p).0 ≡ false
      → Unspent v count k (settle r k ttl count cap p).1
  settle-refused k ttl count cap v (none, s) f g h = g refl
  settle-refused k ttl count cap v (some u, s) f g h = elim (Bool-cases (ltb_ℤ cap u)) [
    | inl over ↦ rw over (refund k ttl count v s ((f u refl).1 ∙ (f u refl).0))
    | inr under ↦ absurd (ground arith)
  ]

  google_media_cases :
      (cap : ℤ) (cache : Bool) (k : String) (now count : ℕ) (s : S)
      → let (allowed, s') = google_media_allowed r cap cache k now count s in
        (allowed ≡ true → (r.value k s' ≡ r.value k s +ℤ pos count) × (r.value k s' ≤ℤ cap))
        × (allowed ≡ false
            → (r.value k s' ≡ r.value k s) ⊎ (r.value k s' ≡ r.value k s +ℤ pos count))
  unfolding google_media_allowed Unspent
  google_media_cases cap cache k now count s =
      let ttl = seconds_to_next_midnight now in
      let p = incr_by r k (pos count) ttl s in
      let added : (u : ℤ) → p.0 ≡ some u → (u ≡ r.value k s +ℤ pos count) × (r.value k p.1 ≡ u) =
        λ u. incr_by-some k (pos count) u ttl s in
      (
        ground (arith, settle-granted k ttl count cap (r.value k s) p added),
        ground (
          arith,
          settle-refused k ttl count cap (r.value k s) p added (incr_by-none k (pos count) ttl s),
        ),
      )

  -- A call for photos that the budget allows has been counted: the number under the key has grown by
  -- the amount of the call, and is at most the cap. A refused one leaves the number as it was, or
  -- grown by the amount.
  pub google_media_counted :
      (cap : ℤ) (cache : Bool) (k : String) (now count : ℕ) (s : S)
      → let (allowed, s') = google_media_allowed r cap cache k now count s in
        ((allowed ≡ true) × (r.value k s' ≡ r.value k s +ℤ pos count) × (r.value k s' ≤ℤ cap))
        ⊎ ((allowed ≡ false)
            × ((r.value k s' ≡ r.value k s) ⊎ (r.value k s' ≡ r.value k s +ℤ pos count)))
  google_media_counted cap cache k now count s =
      let both = google_media_cases cap cache k now count s in
      elim (Bool-cases (google_media_allowed r cap cache k now count s).0) [
        | inl granted ↦ inl (granted, (both.0 granted).0, (both.0 granted).1)
        | inr denied ↦ inr (denied, both.1 denied)
      ]

  -- The budget of transit calls is the same function, for an amount of one.
  pub odsay_call-eq-google_media :
      (cap : ℤ) (cache : Bool) (k : String) (now : ℕ) (s : S)
      → odsay_call_allowed r cap cache k now s ≡ google_media_allowed r cap cache k now 1 s
  unfolding odsay_call_allowed google_media_allowed
  odsay_call-eq-google_media cap cache k now s = refl
