-- ===== src/Store/Mid/Fetch/Distinct.antt =====
-- Which rows `fetch_mid_temp_range` of app/db/forecast_repo.py returns.
use map_service_hub.Base.{
  ℕ, ◌-◌, ◌≡◌, ◌≤◌, inl, inr, not, List, [], ◌∷◌, map, String, arith, refl, sym, ap, ◌∙◌, Option,
  ◌==◌, if◌then◌else◌, filter_by, count_by, In, In-All, In-filter_by, In-filter_by_of,
}
use map_service_hub.Base.Order.{
  Before, IsOrdered, order_by-IsOrdered, In-order_by, In-order_by_of, order_by,
}
use map_service_hub.Weather.Rows.{TempRow}
use map_service_hub.Store.{TempStored, Tables}
use map_service_hub.Store.Greatest.{IsGreatest, choose_of-IsGreatest}
use map_service_hub.Store.Mid.Fetch.{
  temp_day, is_valid_temp, distinct_on_day, temp_row_of, read_temp, fetch_mid_temp_range,
}
use map_service_hub.Store.Mid.Fetch.Latest.{IsLatestTemp, IsValidTemp, IsValid-of, is_valid_at_of}

In-distinct : (r : TempStored) (rows : List TempStored) → In r (distinct_on_day rows) → In r rows
In-distinct r [] i = i
In-distinct r (x ∷ rows) (inl e) = inl e
In-distinct r (x ∷ rows) (inr i) = inr (
    In-distinct r rows
      (In-filter_by (λ s. not (temp_day s == temp_day x)) r (distinct_on_day rows) i).0)

-- the row of a day is the first of the day
distinct-first :
    (age : TempStored → ℕ) (rows : List TempStored)
    → IsOrdered temp_day age rows
    → (r s : TempStored) → In r (distinct_on_day rows)
    → In s rows
    → temp_day s ≡ temp_day r
    → age r ≤ age s
distinct-first age [] o r s i j same = elim i [ ]
distinct-first age (x ∷ rows) o r s (inl e) (inl f) same = let q = ap age (e ∙ sym f) in omega arith
distinct-first age (x ∷ rows) o r s (inl e) (inr j) same =
    let before = In-All (Before temp_day age x) s rows o.0 j in
    let q = ap age e in let d = ap temp_day e in ground arith
distinct-first age (x ∷ rows) o r s (inr i) (inl f) same =
    let other = (In-filter_by (λ y. not (temp_day y == temp_day x)) r (distinct_on_day rows) i).1 in
    let d = ap temp_day f in ground arith
distinct-first age (x ∷ rows) o r s (inr i) (inr j) same =
    distinct-first age rows o.1 r s
      (In-filter_by (λ y. not (temp_day y == temp_day x)) r (distinct_on_day rows) i).0 j same

count-filter_other :
    (d e : ℕ) (rows : List TempStored)
    → count_by (λ r. temp_day r == d) (filter_by (λ r. not (temp_day r == e)) rows)
      ≡ (if d == e then 0 else count_by (λ r. temp_day r == d) rows)
count-filter_other d e [] = ground arith
count-filter_other d e (r ∷ rows) = ground (arith, count-filter_other d e rows)

-- each day that a row has is left once
count-distinct :
    (rows : List TempStored) (s : TempStored)
    → In s rows
    → count_by (λ r. temp_day r == temp_day s) (distinct_on_day rows) ≡ 1
count-distinct [] s i = elim i [ ]
count-distinct (x ∷ rows) s (inl e) =
    let d = ap temp_day e in
    let other = count-filter_other (temp_day s) (temp_day x) (distinct_on_day rows) in ground arith
count-distinct (x ∷ rows) s (inr i) =
    let rest = count-distinct rows s i in
    let other = count-filter_other (temp_day s) (temp_day x) (distinct_on_day rows) in ground arith

-- What a read of the temperatures promises of the rows behind it.
pub record ReadsTemp (t : Tables) (now : ℕ) (reg_id : String) (lo hi : ℕ)
    (result : List TempRow × Option ℕ) : Type 0 where
  pub rows : List TempStored
  pub shown : result.0 ≡ map temp_row_of rows
  pub sound : (r : TempStored) → In r rows → IsLatestTemp now reg_id lo hi t r
  pub complete :
      (s : TempStored)
      → In s t.mid_temp
      → IsValidTemp now reg_id lo hi s
      → count_by (λ r. temp_day r == temp_day s) rows ≡ 1
  pub newest : IsGreatest (λ (r : TempStored). r.tm_fc) rows result.1

-- For every table, region and range of offsets, a read of the temperatures returns exactly one row for
-- each day that a valid row of the region is about, a row of the latest valid publication for that
-- day, no row for another day, and with them the newest publication among them.
pub fetch_mid_temp_range-ReadsTemp :
    (t : Tables) (now : ℕ) (reg_id : String) (lo hi : ℕ)
    → ReadsTemp t now reg_id lo hi (fetch_mid_temp_range t now reg_id lo hi)
unfolding fetch_mid_temp_range
fetch_mid_temp_range-ReadsTemp t now reg_id lo hi =
    let test = is_valid_temp now reg_id lo hi in
    let valid = filter_by test t.mid_temp in
    let age = λ (r : TempStored). now - r.tm_fc in
    let ordered = order_by temp_day age valid in
    let at : (s : TempStored) → In s t.mid_temp → IsValidTemp now reg_id lo hi s → In s ordered =
      λ s j v. In-order_by_of temp_day age s valid (
        In-filter_by_of test s t.mid_temp j
          (is_valid_at_of now reg_id lo hi s.reg_id s.fcst_day_offset s.tm_fc s.expires_at v)) in
    record {
      rows = read_temp t now reg_id lo hi;
      shown = refl;
      sound = λ r i.
          let both =
            In-filter_by test r t.mid_temp
              (In-order_by temp_day age r valid (In-distinct r ordered i)) in
          let here =
            IsValid-of now reg_id lo hi r.reg_id r.fcst_day_offset r.tm_fc r.expires_at both.1 in
          (
            both.0,
            here,
            λ s j v e.
                let first =
                  distinct-first age ordered (order_by-IsOrdered temp_day age valid) r s i
                    (at s j v) e in
                let made = v.live in omega (arith, first, made.0, here.live.0),
          );
      complete = λ s j v. count-distinct ordered s (at s j v);
      newest = choose_of-IsGreatest (λ (r : TempStored). r.tm_fc) (read_temp t now reg_id lo hi);
    }
