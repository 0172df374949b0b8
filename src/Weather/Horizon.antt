-- ===== src/Weather/Horizon.antt =====
-- `_split_dates_by_horizon` of app/routers/hub_routers.py. A date is its ordinal.
pub mod Partition
use map_service_hub.Base.{
  ℕ, zero, suc, ◌+◌, ◌-◌, Bool, true, false, ◌&&◌, List, [], ◌∷◌, leb, if◌then◌else◌,
}
use map_service_hub.Base.Int.{ℤ, pos, sub_ℕ, leb_ℤ, ltb_ℤ}

abbrev pub short_term_max_offset : ℤ
short_term_max_offset = pos 2

abbrev pub overlap_offset : ℤ
overlap_offset = pos 3

abbrev pub short_available_max_offset : ℤ
short_available_max_offset = pos 4

abbrev pub mid_max_offset : ℤ
mid_max_offset = pos 10

-- the four lists that the split fills
pub data Horizon : Type 0 where
  short overlap mid out_of_range : Horizon

pub record Split : Type 0 where
  pub short_days : List ℕ
  pub overlap_days : List ℕ
  pub mid_days : List ℕ
  pub out_of_range_days : List ℕ

-- the chain of tests in the body of the loop
unfoldable pub horizon : ℤ → Horizon
horizon offset =
    if leb_ℤ (pos 0) offset && leb_ℤ offset short_term_max_offset
    then short
    else if leb_ℤ overlap_offset offset && leb_ℤ offset short_available_max_offset
    then overlap
    else if ltb_ℤ short_available_max_offset offset && leb_ℤ offset mid_max_offset
    then mid
    else out_of_range

-- The lists are filled in the order of the loop: a date stands before those of the later rounds.
abbrev pub place : Horizon → ℕ → Split → Split
place short day rest = record rest { short_days = day ∷ rest.short_days }
place overlap day rest = record rest { overlap_days = day ∷ rest.overlap_days }
place mid day rest = record rest { mid_days = day ∷ rest.mid_days }
place out_of_range day rest = record rest { out_of_range_days = day ∷ rest.out_of_range_days }

abbrev pub no_days : Split
no_days = record { short_days = []; overlap_days = []; mid_days = []; out_of_range_days = [] }

-- `while cursor <= date_end`, with fuel for the rounds
unfoldable pub split_loop : ℕ → ℕ → ℕ → ℕ → Split
split_loop zero cursor date_end today = no_days
split_loop (suc fuel) cursor date_end today = elim (leb cursor date_end) [
  | true ↦ place (horizon (sub_ℕ cursor today)) cursor (split_loop fuel (cursor + 1) date_end today)
  | false ↦ no_days
]

unfoldable pub split_dates_by_horizon : ℕ → ℕ → ℕ → Split
split_dates_by_horizon date_start date_end today =
    split_loop (date_end + 1 - date_start) date_start date_end today
