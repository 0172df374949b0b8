-- ===== src/Kma/RoundTrip.antt =====
-- The texts of publication times, written and read back, over the record `Calendar`.
use map_service_hub.Base.{
  ℕ, zero, suc, ◌+◌, ◌*◌, ◌≡◌, ◌≤◌, ◌<◌, refl, some, [], ◌∷◌, ◌++◌, arith, length, take, drop, ap,
  ◌∙◌, length-append,
}
use map_service_hub.Base.Int.{ℤ, pos}
use map_service_hub.Weather.Rows.{hour_us, midnight}
use map_service_hub.Kma.{
  Calendar, Text, two_digits, minute_us, slice, parse_kma_base_at, parse_kma_tm_fc,
}

-- What the program relies on: two digits are read as their number, the date text of a day has eight
-- digits, whose year, month and day are read as numbers, and a valid time of that date is its number
-- of microseconds.
pub record IsCalendar (cal : Calendar) (last_day : ℕ) : Type 0 where
  pub int_two : (n : ℕ) → n < 100 → cal.int (two_digits n) ≡ some (pos n)
  pub year : ℕ → ℤ
  pub month : ℕ → ℤ
  pub day : ℕ → ℤ
  pub length-ymd : (d : ℕ) → d ≤ last_day → length (cal.ymd d) ≡ 8
  pub int_year : (d : ℕ) → d ≤ last_day → cal.int (slice 0 4 (cal.ymd d)) ≡ some (year d)
  pub int_month : (d : ℕ) → d ≤ last_day → cal.int (slice 4 6 (cal.ymd d)) ≡ some (month d)
  pub int_day : (d : ℕ) → d ≤ last_day → cal.int (slice 6 8 (cal.ymd d)) ≡ some (day d)
  pub datetime_of :
      (d h m : ℕ)
      → d ≤ last_day
      → h < 24
      → m < 60
      → cal.datetime (year d) (month d) (day d) (pos h) (pos m)
        ≡ some (midnight d + h * hour_us + m * minute_us)

take-drop-append :
    (k lo : ℕ) (t r : Text) → lo + k ≤ length t → take k (drop lo (t ++ r)) ≡ take k (drop lo t)
take-drop-append zero zero t r h = refl
take-drop-append (suc k) zero [] r h = absurd (omega arith)
take-drop-append (suc k) zero (x ∷ t) r h =
    ap (λ l. x ∷ l) (take-drop-append k zero t r (omega arith))
take-drop-append k (suc lo) [] r h = absurd (omega arith)
take-drop-append k (suc lo) (x ∷ t) r h = take-drop-append k lo t r (omega arith)

drop-append : (n lo : ℕ) (t r : Text) → n ≡ length t + lo → drop n (t ++ r) ≡ drop lo r
drop-append zero lo [] r h = let e : lo ≡ 0 = omega arith in rw e
drop-append (suc n) lo [] r h = let e : lo ≡ suc n = omega arith in rw e
drop-append zero lo (x ∷ t) r h = absurd (omega arith)
drop-append (suc n) lo (x ∷ t) r h = drop-append n lo t r (omega arith)

length-append_two :
    (t : Text) (h m : ℕ) → length t ≡ 8 → length (t ++ (two_digits h ++ two_digits m)) ≡ 12
length-append_two t h m e = omega (arith, length-append t (two_digits h ++ two_digits m))

module _ (cal : Calendar) (last_day : ℕ) (law : IsCalendar cal last_day) where
  pub parse_kma_base_at_hour :
      (d h : ℕ)
      → d ≤ last_day
      → h < 24
      → parse_kma_base_at cal (cal.ymd d) (two_digits h ++ two_digits 0)
        ≡ some (midnight d + h * hour_us)
  unfolding parse_kma_base_at
  parse_kma_base_at_hour d h dl hl = rw (law.length-ymd d dl) (
      rw (law.int_year d dl) (
        rw (law.int_month d dl) (
          rw (law.int_day d dl) (
            rw (law.int_two h (omega arith)) (
              rw (law.int_two 0 (omega arith))
                (law.datetime_of d h 0 dl hl (omega arith) ∙ ap some (omega arith)))))))

  pub parse_kma_tm_fc_hour :
      (d h : ℕ)
      → d ≤ last_day
      → h < 24
      → parse_kma_tm_fc cal (cal.ymd d ++ (two_digits h ++ two_digits 0))
        ≡ some (midnight d + h * hour_us)
  unfolding parse_kma_tm_fc
  parse_kma_tm_fc_hour d h dl hl =
      let t = cal.ymd d in
      let r = two_digits h ++ two_digits 0 in
      let eight = law.length-ymd d dl in
      rw (length-append_two t h 0 eight) (
        rw (take-drop-append 4 0 t r (omega arith)) (
          rw (take-drop-append 2 4 t r (omega arith)) (
            rw (take-drop-append 2 6 t r (omega arith)) (
              rw (drop-append 8 0 t r (omega arith)) (
                rw (drop-append 10 2 t r (omega arith)) (
                  rw (law.int_year d dl) (
                    rw (law.int_month d dl) (
                      rw (law.int_day d dl) (
                        rw (law.int_two h (omega arith)) (
                          rw (law.int_two 0 (omega arith)) (
                            law.datetime_of d h 0 dl hl (omega arith)
                            ∙ ap some (omega arith))))))))))))
