-- ===== src/Tests/Budget.antt =====
-- The budgets on a Redis of one key that fails whenever an amount is given back.
use map_service_hub.Base.{
  ℕ, ◌+◌, ◌*◌, ◌≤◌, ◌<◌, ◌≡◌, ◌⊎◌, inl, refl, Bool, true, false, Option, none, some, List, [], ◌∷◌,
  map, String, arith, leb, if◌then◌else◌,
}
use map_service_hub.Base.Int.{ℤ, pos, negsuc, ◌+ℤ◌, ◌≤ℤ◌}
use map_service_hub.Budget.{Redis, IsCounter, google_media_allowed, seconds_to_next_midnight}
use map_service_hub.Budget.Single.{google_media_counted, seconds_to_next_midnight_bounds}
use map_service_hub.Budget.Clients.{
  Timed, IsTimed, IsBefore, idle, granted, refused, total_spent, run, step_at, advance,
}
use map_service_hub.Budget.Clients.Cap.{run-spent-le-cap}

abbrev add_or_fail : String → ℤ → ℤ → Option ℤ × ℤ
add_or_fail k (pos n) s = (some (s +ℤ pos n), s +ℤ pos n)
add_or_fail k (negsuc n) s = (none, s)

abbrev server : Redis ℤ
server = record { incrby = add_or_fail; expire = λ k ttl s. (true, s); value = λ k s. s }

server_some :
    (k : String) (a t s : ℤ)
    → (add_or_fail k a s).0 ≡ some t
    → (t ≡ s +ℤ a) × ((add_or_fail k a s).1 ≡ t)
server_some k (pos n) t s h = ground arith
server_some k (negsuc n) t s h = ground arith

server_none :
    (k : String) (a s : ℤ)
    → (add_or_fail k a s).0 ≡ none
    → ((add_or_fail k a s).1 ≡ s) ⊎ ((add_or_fail k a s).1 ≡ s +ℤ a)
server_none k (pos n) s h = ground arith
server_none k (negsuc n) s h = ground arith

server-IsCounter : IsCounter server
server-IsCounter = record {
  incrby_some = server_some;
  incrby_none = server_none;
  expire_value = λ k ttl s. refl;
}

-- A server of one key with its expiry and a clock, that fails likewise.
record Server : Type 0 where
  number : ℤ
  end : Option ℕ
  now : ℕ

abbrev add_on : ℤ → Server → Option ℤ × Server
add_on (pos n) s =
    (some (s.number +ℤ pos n), record { number = s.number +ℤ pos n; end = s.end; now = s.now })
add_on (negsuc n) s = (none, s)

abbrev is_over : ℕ → Option ℕ → Bool
is_over at none = false
is_over at (some end) = leb end at

abbrev timed_server : Redis Server
timed_server = record {
  incrby = λ k a s. add_on a s;
  expire = λ k ttl s.
      (true, record { number = s.number; end = some (s.now + ttl * 1_000_000); now = s.now });
  value = λ k s. s.number;
}

abbrev time : Timed Server
time = record {
  clock = λ s. s.now;
  wait = λ at s.
      if is_over at s.end
      then record { number = pos 0; end = none; now = at }
      else record { number = s.number; end = s.end; now = at };
  expires_at = λ k s. s.end;
}

add_on-some :
    (a t : ℤ) (s : Server)
    → (add_on a s).0 ≡ some t
    → (t ≡ s.number +ℤ a) × ((add_on a s).1.number ≡ t)
add_on-some (pos n) t s h = ground arith
add_on-some (negsuc n) t s h = ground arith

add_on-none :
    (a : ℤ) (s : Server)
    → (add_on a s).0 ≡ none
    → ((add_on a s).1.number ≡ s.number) ⊎ ((add_on a s).1.number ≡ s.number +ℤ a)
add_on-none (pos n) s h = ground arith
add_on-none (negsuc n) s h = ground arith

add_on_time : (a : ℤ) (s : Server) → ((add_on a s).1.now ≡ s.now) × ((add_on a s).1.end ≡ s.end)
add_on_time (pos n) s = (refl, refl)
add_on_time (negsuc n) s = (refl, refl)

wait_now : (at : ℕ) (s : Server) → (time.wait at s).now ≡ at
wait_now at s = ground arith

is_over_not : (at : ℕ) (o : Option ℕ) → IsBefore at o → is_over at o ≡ false
is_over_not at none h = refl
is_over_not at (some end) h = ground arith

wait_keeps :
    (at : ℕ) (s : Server)
    → IsBefore at s.end
    → ((time.wait at s).number ≡ s.number) × ((time.wait at s).end ≡ s.end)
wait_keeps at s h = let e = is_over_not at s.end h in (ground arith, ground arith)

timed_server-IsCounter : IsCounter timed_server
timed_server-IsCounter = record {
  incrby_some = λ k a t s h. add_on-some a t s h;
  incrby_none = λ k a s h. add_on-none a s h;
  expire_value = λ k ttl s. refl;
}

timed_server-IsTimed : IsTimed timed_server time
timed_server-IsTimed = record {
  incrby_clock = λ k a s. (add_on_time a s).0;
  incrby_expires = λ k a s. (add_on_time a s).1;
  expire_clock = λ k ttl s. refl;
  expire_expires = λ k ttl s. inl refl;
  wait_clock = λ at s. wait_now at s;
  wait_value = λ k at s h. (wait_keeps at s h).0;
  wait_expires = λ k at s h. (wait_keeps at s h).1;
}

-- A few seconds before the last one of day 0, the third request goes over the cap of 5, and what it
-- gives back is lost.
abbrev moments : List (ℕ × ℕ)
moments =
    (0, 86_390_000_000)
    ∷ (0, 86_390_000_000)
    ∷ (2, 86_390_100_000)
    ∷ (0, 86_391_000_000)
    ∷ (1, 86_392_000_000)
    ∷ (2, 86_393_000_000)
    ∷ (1, 86_394_000_000)
    ∷ (1, 86_399_000_000)
    ∷ []

abbrev before_midnight : Server
before_midnight = record { number = pos 0; end = none; now = 86_390_000_000 }

abbrev photos : String
photos = "google:photos:media:19700101"

run-clients :
    run timed_server time (pos 5) photos moments (map idle (2 ∷ 4 ∷ 3 ∷ [])) before_midnight ≡ (
      granted 2 ∷ refused ∷ granted 3 ∷ [],
      record { number = pos 9; end = some 86_401_000_000; now = 86_399_000_000 },
    )
unfolding run step_at advance ◌+ℤ◌ seconds_to_next_midnight
run-clients = refl

run-spent-le-cap_example :
    pos (
      total_spent
        (run timed_server time
          (pos 5)
          photos
          moments
          (map idle (2 ∷ 4 ∷ 3 ∷ []))
          before_midnight).0)
    ≤ℤ pos 5
run-spent-le-cap_example =
    run-spent-le-cap timed_server time (pos 5) photos timed_server-IsCounter timed_server-IsTimed 0
      moments (2 ∷ 4 ∷ 3 ∷ []) before_midnight (omega arith) (omega arith) refl (omega arith)
      (
        omega arith,
        omega arith,
        (
          omega arith,
          omega arith,
          (
            omega arith,
            omega arith,
            (
              omega arith,
              omega arith,
              (
                omega arith,
                omega arith,
                (
                  omega arith,
                  omega arith,
                  (omega arith, omega arith, (omega arith, omega arith, tt)),
                ),
              ),
            ),
          ),
        ),
      )

google_media_counted_example :
    let (allowed, s') = google_media_allowed server (pos 5) true "k" 0 4 (pos 3) in
    ((allowed ≡ true) × (s' ≡ pos 3 +ℤ pos 4) × (s' ≤ℤ pos 5))
    ⊎ ((allowed ≡ false) × ((s' ≡ pos 3) ⊎ (s' ≡ pos 3 +ℤ pos 4)))
google_media_counted_example =
    google_media_counted server server-IsCounter (pos 5) true "k" 0 4 (pos 3)

seconds_to_next_midnight_bounds_example :
    let ttl = seconds_to_next_midnight 86_399_900_000 in
    (1 ≤ ttl)
    × (ttl ≤ 86400)
    × (86_400_000_000 < 86_399_900_000 + (ttl + 1) * 1_000_000)
    × ((86_399_900_000 + ttl * 1_000_000 ≤ 86_400_000_000)
        ⊎ ((ttl ≡ 1) × (86_400_000_000 < 86_399_900_000 + 1_000_000)))
seconds_to_next_midnight_bounds_example = seconds_to_next_midnight_bounds 86_399_900_000
