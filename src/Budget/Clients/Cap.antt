-- ===== src/Budget/Clients/Cap.antt =====
-- What the budget of a day has allowed, however its requests interleave.
use mathlib.Core.Path.{subst}
use map_service_hub.Base.{ℕ, ◌+◌, ◌*◌, ◌≤◌, ◌≡◌, refl, sym, none, List, [], ◌∷◌, map, String, arith}
use map_service_hub.Base.Int.{ℤ, pos, ◌≤ℤ◌}
use map_service_hub.Weather.Rows.{day_us}
use map_service_hub.Budget.{Redis, IsCounter}
use map_service_hub.Budget.Clients.{
  Timed, IsTimed, Client, idle, total_spent, step_at, run, IsInDay,
}
use map_service_hub.Budget.Clients.Counter.{
  total_held, total_committed-le-held, spent-le-committed, idle_held, AllFit, step_at-AllFit,
}
use map_service_hub.Budget.Clients.Lifetime.{
  AllLast, IsLate, step_at-AllLast, later-AllLong, is_before, idle-AllLong,
}

module _ {S : Type 0} (r : Redis S) (timed : Timed S) (cap : ℤ) (key : String) (law : IsCounter r)
    (clocked : IsTimed r timed) (day : ℕ) where
  run-AllFit :
      (schedule : List (ℕ × ℕ)) (cs : List Client) (now : ℕ) (s : S)
      → day * day_us ≤ now
      → IsInDay day now schedule
      → AllLast r timed cap key clocked day now cs s
      → AllFit r timed cap key law 0 0 cs s
      → let (cs', s') = run r timed cap key schedule cs s in AllFit r timed cap key law 0 0 cs' s'
  unfolding run
  run-AllFit [] cs now s from tt_ lasts fits = fits
  run-AllFit ((i, at) ∷ schedule) cs now s from (le, to, rest) (q, long, late) fits =
      let before = is_before r timed cap key clocked day at (timed.expires_at key s) to late in
      let s' = timed.wait at s in
      let waited : AllLast r timed cap key clocked day at cs s' = (
        clocked.wait_clock at s,
        later-AllLong r timed cap key clocked day now at cs le long,
        subst (IsLate r timed cap key clocked day) (sym (clocked.wait_expires key at s before))
            late,
      ) in
      let same = clocked.wait_value key at s before in
      let kept : AllFit r timed cap key law 0 0 cs s' =
        (subst (λ v. pos (0 + total_held cs) ≤ℤ v) (sym same) fits.0, fits.1) in
      let (cs'', s'') = step_at r timed cap key i cs s' in
      run-AllFit schedule cs'' at s'' (omega arith) rest
        (step_at-AllLast r timed cap key clocked day i cs at s' (omega arith) (omega arith) waited)
        (step_at-AllFit r timed cap key law i cs s' 0 0 (omega arith) kept)

  -- However the requests of a day interleave, whichever calls of Redis fail, and whenever the key
  -- expires, the amounts that the budget has allowed add up to at most the cap, as long as no step is
  -- taken in the last second of the day, the clock only goes forward, and the day began with a number
  -- under the key that is not negative and has no expiry.
  pub run-spent-le-cap :
      (schedule : List (ℕ × ℕ)) (amounts : List ℕ) (s : S)
      → pos 0 ≤ℤ cap
      → pos 0 ≤ℤ r.value key s
      → timed.expires_at key s ≡ none
      → day * day_us ≤ timed.clock s
      → IsInDay day (timed.clock s) schedule
      → pos (total_spent (run r timed cap key schedule (map idle amounts) s).0) ≤ℤ cap
  run-spent-le-cap schedule amounts s capped started lasting from in_day =
      let clients = map idle amounts in
      let ended = (run r timed cap key schedule clients s).0 in
      let fits =
        run-AllFit schedule clients (timed.clock s) s from in_day
          (
            refl,
            idle-AllLong r timed cap key clocked day (timed.clock s) amounts,
            subst (IsLate r timed cap key clocked day) (sym lasting) tt,
          )
          (
            omega (arith, idle_held amounts),
            omega (arith, idle_held amounts, total_committed-le-held cap clients),
          ) in
      omega (arith, spent-le-committed cap ended, fits.1)
