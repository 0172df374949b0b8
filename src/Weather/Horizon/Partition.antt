-- ===== src/Weather/Horizon/Partition.antt =====
-- The four lists of `_split_dates_by_horizon`, date by date.
use map_service_hub.Base.{
  ℕ, zero, suc, ◌+◌, ◌-◌, ◌≤◌, ◌<◌, ◌≡◌, Bool, true, false, ◌&&◌, List, [], ◌∷◌, ◌∙◌, arith, leb,
  if◌then◌else◌, count, Bool-cases, inl, inr,
}
use map_service_hub.Base.Int.{sub_ℕ}
use map_service_hub.Weather.Horizon.{
  Horizon, short, overlap, mid, out_of_range, Split, horizon, place, no_days, split_loop,
  split_dates_by_horizon,
}

abbrev pub days_in : Horizon → Split → List ℕ
days_in short s = s.short_days
days_in overlap s = s.overlap_days
days_in mid s = s.mid_days
days_in out_of_range s = s.out_of_range_days

abbrev pub same : Horizon → Horizon → Bool
same short short = true
same overlap overlap = true
same mid mid = true
same out_of_range out_of_range = true
same _ _ = false

abbrev pub offset_range : Horizon → ℕ → ℕ → Bool
offset_range short day today = leb today day && leb day (today + 2)
offset_range overlap day today = leb (today + 3) day && leb day (today + 4)
offset_range mid day today = leb (today + 5) day && leb day (today + 10)
offset_range out_of_range day today = if leb today day && leb day (today + 10) then false else true

count-place :
    (h k : Horizon) (a day : ℕ) (s : Split)
    → count a (days_in k (place h day s))
      ≡ (if same k h then count a (day ∷ []) else 0) + count a (days_in k s)
count-place short short a day s = omega arith
count-place short overlap a day s = omega arith
count-place short mid a day s = omega arith
count-place short out_of_range a day s = omega arith
count-place overlap short a day s = omega arith
count-place overlap overlap a day s = omega arith
count-place overlap mid a day s = omega arith
count-place overlap out_of_range a day s = omega arith
count-place mid short a day s = omega arith
count-place mid overlap a day s = omega arith
count-place mid mid a day s = omega arith
count-place mid out_of_range a day s = omega arith
count-place out_of_range short a day s = omega arith
count-place out_of_range overlap a day s = omega arith
count-place out_of_range mid a day s = omega arith
count-place out_of_range out_of_range a day s = omega arith

same-horizon :
    (h : Horizon) (day today : ℕ) → same h (horizon (sub_ℕ day today)) ≡ offset_range h day today
unfolding horizon
same-horizon short day today = ground arith
same-horizon overlap day today = ground arith
same-horizon mid day today = ground arith
same-horizon out_of_range day today = ground arith

-- what a date adds to the count of a date, in the list of a horizon
count-step :
    (h : Horizon) (a cursor date_end today n : ℕ)
    → cursor ≤ date_end
    → n ≡ (if leb (cursor + 1) a && leb a date_end && offset_range h a today then 1 else 0)
    → (if offset_range h cursor today then count a (cursor ∷ []) else 0) + n
      ≡ (if leb cursor a && leb a date_end && offset_range h a today then 1 else 0)
count-step short a cursor e t n le k = ground arith
count-step overlap a cursor e t n le k = ground arith
count-step mid a cursor e t n le k = ground arith
count-step out_of_range a cursor e t n le k = ground arith

empty-count :
    (h : Horizon) (a cursor date_end today : ℕ)
    → date_end < cursor
    → count a (days_in h no_days)
      ≡ (if leb cursor a && leb a date_end && offset_range h a today then 1 else 0)
empty-count short a cursor e t k = ground arith
empty-count overlap a cursor e t k = ground arith
empty-count mid a cursor e t k = ground arith
empty-count out_of_range a cursor e t k = ground arith

-- one test of the loop
split_loop-suc :
    (fuel cursor date_end today : ℕ)
    → split_loop (suc fuel) cursor date_end today ≡ (
        if leb cursor date_end
        then place
            (horizon (sub_ℕ cursor today))
            cursor
            (split_loop fuel (cursor + 1) date_end today)
        else no_days)
unfolding split_loop
split_loop-suc fuel cursor e t = ground arith

count-split_loop :
    (h : Horizon) (fuel a cursor date_end today : ℕ)
    → date_end < cursor + fuel
    → count a (days_in h (split_loop fuel cursor date_end today))
      ≡ (if leb cursor a && leb a date_end && offset_range h a today then 1 else 0)
count-split_loop h zero a cursor e t k =
    unfold split_loop in empty-count h a cursor e t (omega arith)
count-split_loop h (suc fuel) a cursor e t k = rw split_loop-suc (elim (Bool-cases (leb cursor e)) [
  | inl more ↦ rw more (
      count-place (horizon (sub_ℕ cursor t)) h a cursor (split_loop fuel (cursor + 1) e t)
      ∙ rw same-horizon (
          count-step h a cursor e t (count a (days_in h (split_loop fuel (cursor + 1) e t)))
            (ground arith) (count-split_loop h fuel a (cursor + 1) e t (omega arith))))
  | inr done ↦ rw done (empty-count h a cursor e t (ground arith))
])

-- Every date occurs in the list of a horizon once if it lies in the requested range and its offset
-- from today lies in that horizon (D+0 to D+2, D+3 to D+4, D+5 to D+10, the rest), and else never.
pub split_partition :
    (h : Horizon) (a date_start date_end today : ℕ)
    → count a (days_in h (split_dates_by_horizon date_start date_end today))
      ≡ (if leb date_start a && leb a date_end && offset_range h a today then 1 else 0)
unfolding split_dates_by_horizon
split_partition h a s e t = count-split_loop h (e + 1 - s) a s e t (omega arith)
