-- ===== src/Kma/Publication.antt =====
-- Which publication the two choices of app/scheduler/hub_scheduler.py ask for.
use map_service_hub.Base.{
  ℕ, ◌+◌, ◌-◌, ◌*◌, ◌≡◌, ◌≤◌, ◌<◌, inl, inr, refl, List, [], ◌∷◌, ◌++◌, arith, leb, if◌then◌else◌,
  All, In, Bool-cases, some,
}
use map_service_hub.Weather.Rows.{day_us, hour_us, midnight}
use map_service_hub.Kma.{
  Calendar, two_digits, minute_us, day_of, hour_of, slot_at, latest_slot, reversed_short_slots,
  resolve_short_term_base, resolve_mid_tm_fc, parse_kma_base_at, parse_kma_tm_fc,
}
use map_service_hub.Kma.RoundTrip.{IsCalendar, parse_kma_base_at_hour, parse_kma_tm_fc_hour}

-- the day and the hour that the loop chooses
abbrev choose : ℕ → ℕ → List ℕ → ℕ × ℕ
choose before cutoff [] = (before, 23)
choose before cutoff (h ∷ slots) =
    if leb (midnight (day_of cutoff) + h * hour_us) cutoff
    then (day_of cutoff, h)
    else choose before cutoff slots

abbrev short_choice : ℕ → ℕ × ℕ
short_choice now = choose (day_of (now - day_us)) (now - 10 * minute_us) reversed_short_slots

abbrev time_of : ℕ × ℕ → ℕ
time_of (d, h) = midnight d + h * hour_us

-- A time of one of the hours that has been out for ten minutes, and no later one has.
pub record IsLatest (hours : List ℕ) (now base : ℕ) : Type 0 where
  pub at_hour : (d : ℕ) × (h : ℕ) × In h hours × (base ≡ midnight d + h * hour_us)
  pub out : base + 10 * minute_us ≤ now
  pub no_later :
      (d h : ℕ)
      → In h hours
      → midnight d + h * hour_us + 10 * minute_us ≤ now
      → midnight d + h * hour_us ≤ base

-- the chosen slot lies in the list, and its time is out
short_choice_out :
    (now : ℕ)
    → day_us + 10 * minute_us ≤ now
    → let (d, h) = short_choice now in
      In h reversed_short_slots
      × (h < 24)
      × (d ≤ day_of now)
      × (time_of (d, h) + 10 * minute_us ≤ now)
short_choice_out now e = ground arith

short_choice_latest :
    (now d h : ℕ)
    → day_us + 10 * minute_us ≤ now
    → In h reversed_short_slots
    → time_of (d, h) + 10 * minute_us ≤ now
    → time_of (d, h) ≤ time_of (short_choice now)
short_choice_latest now d h e i k = ground arith

-- the hours of the mid-term publications, the later first
abbrev pub mid_hours : List ℕ
mid_hours = 18 ∷ 6 ∷ []

abbrev mid_choice : ℕ → ℕ × ℕ
mid_choice now =
    let cutoff = now - 10 * minute_us in
    if leb 18 (hour_of cutoff)
    then (day_of cutoff, 18)
    else if leb 6 (hour_of cutoff)
    then (day_of cutoff, 6)
    else (day_of (cutoff - day_us), 18)

mid_choice_out :
    (now : ℕ)
    → day_us + 10 * minute_us ≤ now
    → let (d, h) = mid_choice now in
      In h mid_hours × (h < 24) × (d ≤ day_of now) × (time_of (d, h) + 10 * minute_us ≤ now)
mid_choice_out now e = ground arith

mid_choice_latest :
    (now d h : ℕ)
    → day_us + 10 * minute_us ≤ now
    → In h mid_hours
    → time_of (d, h) + 10 * minute_us ≤ now
    → time_of (d, h) ≤ time_of (mid_choice now)
mid_choice_latest now d h e i k = ground arith

module _ (cal : Calendar) (last_day : ℕ) (law : IsCalendar cal last_day) where
  latest_slot-eq :
      (now cutoff : ℕ) (slots : List ℕ)
      → All (λ h. h < 24) slots
      → latest_slot cal now cutoff slots ≡ (
        cal.ymd (choose (day_of (now - day_us)) cutoff slots).0,
        two_digits (choose (day_of (now - day_us)) cutoff slots).1 ++ two_digits 0,
      )
  unfolding latest_slot
  latest_slot-eq now cutoff [] a = refl
  latest_slot-eq now cutoff (h ∷ slots) a =
      let same : day_of (slot_at cutoff h) ≡ day_of cutoff = omega arith in
      elim (Bool-cases (leb (slot_at cutoff h) cutoff)) [
        | inl le ↦ rw le (rw same)
        | inr gt ↦ rw gt (latest_slot-eq now cutoff slots a.1)
      ]

  -- The texts that the polling of the short-term forecast asks for are read back as a time of one of
  -- the eight hours that has been out for ten minutes, and no later such time has; for a present that
  -- is at least a day and ten minutes after day 0, and a day that the calendar has.
  pub resolve_short_term_base-IsLatest :
      (now : ℕ)
      → day_us + 10 * minute_us ≤ now
      → day_of now ≤ last_day
      → (base : ℕ) × (parse_kma_base_at cal
            (resolve_short_term_base cal now).0
            (resolve_short_term_base cal now).1
          ≡ some base)
        × IsLatest reversed_short_slots now base
  unfolding resolve_short_term_base
  resolve_short_term_base-IsLatest now e l =
      let (i, lt, le, out) = short_choice_out now e in
      let (d, h) = short_choice now in
      (
        time_of (d, h),
        rw (latest_slot-eq now (now - 10 * minute_us) reversed_short_slots (omega arith))
            (parse_kma_base_at_hour cal last_day law d h (omega arith) lt),
        record {
          at_hour = (d, h, i, refl);
          out = out;
          no_later = λ d' h' i' k. short_choice_latest now d' h' e i' k;
        },
      )

  resolve_mid-eq :
      (now : ℕ)
      → resolve_mid_tm_fc cal now
        ≡ cal.ymd (mid_choice now).0 ++ (two_digits (mid_choice now).1 ++ two_digits 0)
  unfolding resolve_mid_tm_fc
  resolve_mid-eq now = ground arith

  -- The text that the polling of the mid-term forecast asks for is read back as a time at 06 or 18
  -- hours that has been out for ten minutes, and no later such time has; under the same conditions.
  pub resolve_mid_tm_fc-IsLatest :
      (now : ℕ)
      → day_us + 10 * minute_us ≤ now
      → day_of now ≤ last_day
      → (tm_fc : ℕ) × (parse_kma_tm_fc cal (resolve_mid_tm_fc cal now) ≡ some tm_fc)
        × IsLatest mid_hours now tm_fc
  resolve_mid_tm_fc-IsLatest now e l =
      let (i, lt, le, out) = mid_choice_out now e in
      let (d, h) = mid_choice now in
      (
        time_of (d, h),
        rw (resolve_mid-eq now) (parse_kma_tm_fc_hour cal last_day law d h (omega arith) lt),
        record {
          at_hour = (d, h, i, refl);
          out = out;
          no_later = λ d' h' i' k. mid_choice_latest now d' h' e i' k;
        },
      )
