-- ===== src/Kma/Nowcast.antt =====
-- The age of the observation that `resolve_nowcast_base` of app/utils/kma_grid.py asks for.
use map_service_hub.Base.{
  ℕ, ◌+◌, ◌-◌, ◌*◌, ◌%◌, ◌≡◌, ◌≤◌, ◌<◌, true, false, some, ◌++◌, arith, leb, if-cases,
}
use map_service_hub.Weather.Rows.{hour_us, midnight}
use map_service_hub.Kma.{
  Calendar, two_digits, minute_us, day_of, hour_of, minute_of, resolve_nowcast_base,
  parse_kma_base_at,
}
use map_service_hub.Kma.RoundTrip.{IsCalendar, parse_kma_base_at_hour}

-- a whole hour that lies from 15 to 75 minutes before the moment
pub record IsRecent (now base : ℕ) : Type 0 where
  pub whole_hour : base % hour_us ≡ 0
  pub out : base + 15 * minute_us ≤ now
  pub recent : now < base + 75 * minute_us

abbrev hour_start : ℕ → ℕ
hour_start t = midnight (day_of t) + hour_of t * hour_us

hour_start-now : (now : ℕ) → leb 15 (minute_of now) ≡ true → IsRecent now (hour_start now)
hour_start-now now h = record {
  whole_hour = omega arith;
  out = ground arith;
  recent = ground arith;
}

hour_start-before :
    (now : ℕ)
    → hour_us ≤ now
    → leb 15 (minute_of now) ≡ false
    → IsRecent now (hour_start (now - hour_us))
hour_start-before now le h = record {
  whole_hour = omega arith;
  out = ground arith;
  recent = ground arith;
}

module _ (cal : Calendar) (last_day : ℕ) (law : IsCalendar cal last_day) where
  -- On a lawful calendar, from one o'clock of its first day to the last day that it covers, the date
  -- and the hour that the program asks observations for read back as a whole hour that lies at least
  -- 15 and less than 75 minutes before the moment.
  pub resolve_nowcast_base-IsRecent :
      (now : ℕ)
      → hour_us ≤ now
      → day_of now ≤ last_day
      → (base : ℕ) × (parse_kma_base_at cal
            (resolve_nowcast_base cal now).0
            (resolve_nowcast_base cal now).1
          ≡ some base)
        × IsRecent now base
  unfolding resolve_nowcast_base
  resolve_nowcast_base-IsRecent now le l =
      if-cases
        (λ b.
          (base : ℕ) × (parse_kma_base_at cal (cal.ymd (day_of b))
              (two_digits (hour_of b) ++ two_digits 0)
            ≡ some base)
          × IsRecent now base)
        (leb 15 (minute_of now)) now (now - hour_us)
        (λ e. (
          hour_start now,
          parse_kma_base_at_hour cal last_day law (day_of now) (hour_of now) l (omega arith),
          hour_start-now now e,
        ))
        (λ e. (
          hour_start (now - hour_us),
          parse_kma_base_at_hour cal last_day law (day_of (now - hour_us)) (hour_of (now - hour_us))
              (omega arith) (omega arith),
          hour_start-before now le e,
        ))
