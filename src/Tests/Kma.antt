-- ===== src/Tests/Kma.antt =====
-- The publication times on a calendar of twelve months of 31 days.
use map_service_hub.Base.{
  ℕ, ◌+◌, ◌-◌, ◌*◌, ◌/◌, ◌%◌, ◌≡◌, refl, Option, none, some, [], ◌∷◌, ◌++◌, arith, ap,
}
use map_service_hub.Base.Int.{ℤ, pos}
use map_service_hub.Weather.Rows.{hour_us, midnight}
use map_service_hub.Kma.{
  Calendar, Text, two_digits, minute_us, parse_kma_base_at, parse_kma_tm_fc, resolve_nowcast_base,
  resolve_short_term_base, resolve_mid_tm_fc, reversed_short_slots,
}
use map_service_hub.Kma.RoundTrip.{IsCalendar}
use map_service_hub.Kma.Nowcast.{IsRecent, resolve_nowcast_base-IsRecent}
use map_service_hub.Kma.Publication.{
  IsLatest, mid_hours, resolve_short_term_base-IsLatest, resolve_mid_tm_fc-IsLatest,
}

abbrev decimal : ℕ → Text → ℕ
decimal n [] = n
decimal n (c ∷ t) = decimal (n * 10 + (c - 48)) t

abbrev instant : ℤ → ℤ → ℤ → ℤ → ℤ → Option ℕ
instant (pos y) (pos m) (pos d) (pos h) (pos i) =
    some (midnight (y * 372 + (m - 1) * 31 + (d - 1)) + h * hour_us + i * minute_us)
instant _ _ _ _ _ = none

abbrev pub even_months : Calendar
even_months = record {
  int = λ t. some (pos (decimal 0 t));
  datetime = instant;
  ymd = λ d.
      (48 + d / 372 / 1000)
      ∷ (48 + d / 372 / 100 % 10)
      ∷ (48 + d / 372 / 10 % 10)
      ∷ (48 + d / 372 % 10)
      ∷ (two_digits (d % 372 / 31 + 1) ++ two_digits (d % 31 + 1));
  last_day = 3_719_999;
}

even_months-IsCalendar : IsCalendar even_months 3_000_000
even_months-IsCalendar = record {
  int_two = λ n h. ap (λ k. some (pos k)) (omega arith);
  year = λ d. pos (d / 372);
  month = λ d. pos (d % 372 / 31 + 1);
  day = λ d. pos (d % 31 + 1);
  length-ymd = λ d h. refl;
  int_year = λ d h. ap (λ k. some (pos k)) (omega arith);
  int_month = λ d h. ap (λ k. some (pos k)) (omega arith);
  int_day = λ d h. ap (λ k. some (pos k)) (omega arith);
  datetime_of = λ d h m l a b. ap some (omega arith);
}

-- Day 737000 at 00:05: the last slot is at 23 hours of the day before.
abbrev after_midnight : ℕ
after_midnight = midnight 737_000 + 5 * minute_us

resolve_short_term_base-IsLatest_example :
    (base : ℕ) × (parse_kma_base_at even_months
        (resolve_short_term_base even_months after_midnight).0
        (resolve_short_term_base even_months after_midnight).1
      ≡ some base)
    × IsLatest reversed_short_slots after_midnight base
resolve_short_term_base-IsLatest_example =
    resolve_short_term_base-IsLatest even_months 3_000_000 even_months-IsCalendar after_midnight
      (omega arith) (omega arith)

resolve_mid_tm_fc-IsLatest_example :
    (tm_fc : ℕ) × (parse_kma_tm_fc even_months (resolve_mid_tm_fc even_months after_midnight)
      ≡ some tm_fc)
    × IsLatest mid_hours after_midnight tm_fc
resolve_mid_tm_fc-IsLatest_example =
    resolve_mid_tm_fc-IsLatest even_months 3_000_000 even_months-IsCalendar after_midnight
      (omega arith) (omega arith)

-- At 00:05 the observation of 23 hours of the day before is asked for.
resolve_nowcast_base-IsRecent_example :
    (base : ℕ) × (parse_kma_base_at even_months
        (resolve_nowcast_base even_months after_midnight).0
        (resolve_nowcast_base even_months after_midnight).1
      ≡ some base)
    × IsRecent after_midnight base
resolve_nowcast_base-IsRecent_example =
    resolve_nowcast_base-IsRecent even_months 3_000_000 even_months-IsCalendar after_midnight
      (omega arith) (omega arith)
