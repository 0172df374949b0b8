-- ===== src/Kma.antt =====
-- Times of the weather agency: app/utils/kma_grid.py, and the two choices of a publication in
-- app/scheduler/hub_scheduler.py. A text is the list of its code points. What Python does with
-- digits and dates is the record `Calendar`.
pub mod Publication
pub mod Nowcast
pub mod RoundTrip
use Prim.Native.Char.{code}
use map_service_hub.Base.{
  ℕ, ◌+◌, ◌-◌, ◌*◌, ◌/◌, ◌%◌, ◌≡◌, ◌≤◌, ◌<◌, Bool, Option, none, some, List, [], ◌∷◌, ◌++◌, String,
  ◌==◌, leb, if◌then◌else◌, take, drop, length, not, ◌||◌, ◌&&◌,
}
use map_service_hub.Base.Int.{ℤ, pos}
use map_service_hub.Weather.Rows.{day_us, hour_us, midnight}

abbrev pub Text : Type 0
Text = List ℕ

abbrev pub codes : String → Text
codes String.[] = []
codes (String.◌∷◌ c s) = code c ∷ codes s

-- `int(text)`, `datetime(y, m, d, hour, minute, tzinfo=KST)` as a number of microseconds (none for a
-- ValueError), `strftime("%Y%m%d")` of a day, and the day of `date.max`.
pub record Calendar : Type 0 where
  pub int : Text → Option ℤ
  pub datetime : ℤ → ℤ → ℤ → ℤ → ℤ → Option ℕ
  pub ymd : ℕ → Text
  pub last_day : ℕ

-- f"{n:02d}" of a number below 100
abbrev pub two_digits : ℕ → Text
two_digits n = (48 + n / 10) ∷ (48 + n % 10) ∷ []

abbrev pub minute_us : ℕ
minute_us = 60_000_000

abbrev pub day_of : ℕ → ℕ
day_of t = t / day_us

abbrev pub hour_of : ℕ → ℕ
hour_of t = t % day_us / hour_us

abbrev pub minute_of : ℕ → ℕ
minute_of t = t % hour_us / minute_us

infixl 5 ◌>>=◌
abbrev pub ◌>>=◌ {ℓ κ} : {A : Type ℓ} {B : Type κ} → Option A → (A → Option B) → Option B
none >>= f = none
some a >>= f = f a

-- `text[lo:hi]`
abbrev pub slice : ℕ → ℕ → Text → Text
slice lo hi t = take (hi - lo) (drop lo t)

-- `_SHORT_SLOTS`, reversed
abbrev pub reversed_short_slots : List ℕ
reversed_short_slots = 23 ∷ 20 ∷ 17 ∷ 14 ∷ 11 ∷ 8 ∷ 5 ∷ 2 ∷ []

-- `cutoff.replace(hour=h, minute=0, second=0, microsecond=0)`
abbrev pub slot_at : ℕ → ℕ → ℕ
slot_at cutoff h = midnight (day_of cutoff) + h * hour_us

module _ (cal : Calendar) where
  unfoldable pub parse_kma_base_at : Text → Text → Option ℕ
  parse_kma_base_at base_date base_time =
      if not (length base_date == 8) || not (length base_time == 4) then none else do
        year ← cal.int (slice 0 4 base_date)
        month ← cal.int (slice 4 6 base_date)
        day ← cal.int (slice 6 8 base_date)
        hour ← cal.int (slice 0 2 base_time)
        minute ← cal.int (slice 2 4 base_time)
        cal.datetime year month day hour minute

  unfoldable pub parse_kma_tm_fc : Text → Option ℕ
  parse_kma_tm_fc tm_fc = if not (length tm_fc == 12) then none else do
    year ← cal.int (slice 0 4 tm_fc)
    month ← cal.int (slice 4 6 tm_fc)
    day ← cal.int (slice 6 8 tm_fc)
    hour ← cal.int (slice 8 10 tm_fc)
    minute ← cal.int (slice 10 12 tm_fc)
    cal.datetime year month day hour minute

  unfoldable pub parse_kma_fcst_at : Text → Text → Option ℕ
  parse_kma_fcst_at fcst_date fcst_time = parse_kma_base_at fcst_date fcst_time

  unfoldable pub resolve_nowcast_base : ℕ → Text × Text
  resolve_nowcast_base now =
      let base = if leb 15 (minute_of now) then now else now - hour_us in
      (cal.ymd (day_of base), two_digits (hour_of base) ++ two_digits 0)

  -- the loop over the slots, and the return after it
  unfoldable pub latest_slot : ℕ → ℕ → List ℕ → Text × Text
  latest_slot now cutoff [] = (cal.ymd (day_of (now - day_us)), two_digits 23 ++ two_digits 0)
  latest_slot now cutoff (h ∷ slots) =
      if leb (slot_at cutoff h) cutoff
      then (cal.ymd (day_of (slot_at cutoff h)), two_digits h ++ two_digits 0)
      else latest_slot now cutoff slots

  unfoldable pub resolve_short_term_base : ℕ → Text × Text
  unfolding latest_slot
  resolve_short_term_base now = latest_slot now (now - 10 * minute_us) reversed_short_slots

  unfoldable pub resolve_mid_tm_fc : ℕ → Text
  resolve_mid_tm_fc now =
      let cutoff = now - 10 * minute_us in
      if leb 18 (hour_of cutoff)
      then cal.ymd (day_of cutoff) ++ (two_digits 18 ++ two_digits 0)
      else if leb 6 (hour_of cutoff)
      then cal.ymd (day_of cutoff) ++ (two_digits 6 ++ two_digits 0)
      else cal.ymd (day_of (cutoff - day_us)) ++ (two_digits 18 ++ two_digits 0)
