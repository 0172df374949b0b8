-- ===== src/Store/Mid/Fetch/Latest.antt =====
-- Which rows `fetch_mid_land_range` of app/db/forecast_repo.py returns.
use map_service_hub.Base.{
  ℕ, ◌≡◌, ◌≤◌, ◌<◌, ◌↔◌, true, Option, none, some, List, map, String, arith, refl, eq_iff, ==_iff,
  ◌==◌, filter_by, In, In-All, In-filter_by, In-filter_by_of,
}
use mathlib.Core.Path.{subst}
use map_service_hub.Base.Order.{IsOrdered, order_by-IsOrdered, In-order_by, In-order_by_of}
use map_service_hub.Weather.Rows.{LandRow}
use map_service_hub.Weather.Item.{later, choose_of}
use map_service_hub.Store.{LandStored, TempStored, Tables}
use map_service_hub.Store.Greatest.{IsGreatest, choose_of-IsGreatest}
use map_service_hub.Store.Mid.{am_pm_rank}
use map_service_hub.Store.Mid.Fetch.{
  land_day, temp_day, is_valid_at, is_valid_land, is_opt, latest_tm_fc, ranked, land_row_of,
  read_land, fetch_mid_land_range,
}

-- a row of the region and of the offsets that has been published and has not expired
pub record IsValid (now : ℕ) (reg_id : String) (lo hi : ℕ) (row_reg : String)
    (offset tm_fc expires_at : ℕ) : Type 0 where
  pub region : row_reg ≡ reg_id
  pub offsets : (lo ≤ offset) × (offset ≤ hi)
  pub live : (tm_fc ≤ now) × (now < expires_at)

pub IsValid-of :
    (now : ℕ) (reg_id : String) (lo hi : ℕ) (row_reg : String) (offset tm_fc expires_at : ℕ)
    → is_valid_at now reg_id lo hi row_reg offset tm_fc expires_at ≡ true
    → IsValid now reg_id lo hi row_reg offset tm_fc expires_at
IsValid-of now reg_id lo hi row_reg offset tm_fc expires_at h = record {
  region = (eq_iff row_reg reg_id).0 (ground arith);
  offsets = (ground arith, ground arith);
  live = (ground arith, ground arith);
}

pub is_valid_at_of :
    (now : ℕ) (reg_id : String) (lo hi : ℕ) (row_reg : String) (offset tm_fc expires_at : ℕ)
    → IsValid now reg_id lo hi row_reg offset tm_fc expires_at
    → is_valid_at now reg_id lo hi row_reg offset tm_fc expires_at ≡ true
is_valid_at_of now reg_id lo hi row_reg offset tm_fc expires_at h =
    let same = (eq_iff row_reg reg_id).1 h.region in ground (arith, h.offsets, h.live)

module _ (now : ℕ) (reg_id : String) (lo hi : ℕ) where
  abbrev pub IsValidLand : LandStored → Type 0
  IsValidLand r = IsValid now reg_id lo hi r.reg_id r.fcst_day_offset r.tm_fc r.expires_at

  abbrev pub IsValidTemp : TempStored → Type 0
  IsValidTemp r = IsValid now reg_id lo hi r.reg_id r.fcst_day_offset r.tm_fc r.expires_at

  -- a valid row of the table that no valid row of its day is later than
  abbrev pub IsLatestLand : Tables → LandStored → Type 0
  IsLatestLand t r =
      In r t.mid_land
      × IsValidLand r
      × ((s : LandStored)
          → In s t.mid_land
          → IsValidLand s
          → land_day s ≡ land_day r
          → s.tm_fc ≤ r.tm_fc)

  abbrev pub IsLatestTemp : Tables → TempStored → Type 0
  IsLatestTemp t r =
      In r t.mid_temp
      × IsValidTemp r
      × ((s : TempStored)
          → In s t.mid_temp
          → IsValidTemp s
          → temp_day s ≡ temp_day r
          → s.tm_fc ≤ r.tm_fc)

same_day_rows : List LandStored → ℕ → List LandStored
same_day_rows valid d = filter_by (λ r. land_day r == d) valid

-- the maximum of a partition, by the rows
is_opt-greatest :
    (rows : List LandStored) (o : Option ℕ) (r : LandStored)
    → IsGreatest (λ (s : LandStored). s.tm_fc) rows o
    → In r rows
    → (is_opt o r.tm_fc ≡ true → (s : LandStored) → In s rows → s.tm_fc ≤ r.tm_fc)
      × (((s : LandStored) → In s rows → s.tm_fc ≤ r.tm_fc) → is_opt o r.tm_fc ≡ true)
is_opt-greatest rows none r h i = elim (subst (In r) h i) [ ]
is_opt-greatest rows (some b) r (w, h) i = (
  λ e s j. let above = In-All (λ (x : LandStored). x.tm_fc ≤ b) s rows h j in ground arith,
  λ k.
      let above = In-All (λ (x : LandStored). x.tm_fc ≤ b) r rows h i in
      let below = k w.0 w.1 in let at = w.2 in ground arith,
)

-- the day's rows of the valid rows
In-same_day :
    (valid : List LandStored) (s r : LandStored)
    → In s valid
    → land_day s ≡ land_day r
    → In s (same_day_rows valid (land_day r))
unfolding same_day_rows
In-same_day valid s r i e =
    In-filter_by_of (λ x. land_day x == land_day r) s valid i
      ((==_iff (land_day s) (land_day r)).1 e)

-- a filtered row of the partition by day is a row that no valid row of its day is later than
ranked-In :
    (valid : List LandStored) (r : LandStored)
    → In r valid
    → (is_opt (latest_tm_fc valid (land_day r)) r.tm_fc ≡ true)
      ↔ ((s : LandStored) → In s valid → land_day s ≡ land_day r → s.tm_fc ≤ r.tm_fc)
unfolding same_day_rows
ranked-In valid r i =
    let rows = same_day_rows valid (land_day r) in
    let tm = λ (s : LandStored). s.tm_fc in
    let both =
      is_opt-greatest rows (choose_of later (map tm rows)) r (choose_of-IsGreatest tm rows)
        (In-same_day valid r r i refl) in
    (
      λ e s j same. both.0 e s (In-same_day valid s r j same),
      λ k. both.1 (λ s j.
          let parts = In-filter_by (λ x. land_day x == land_day r) s valid j in
          k s parts.0 ((==_iff (land_day s) (land_day r)).0 parts.1)),
    )

-- What a read of the land forecasts promises of the rows behind it: each day has all the rows of the
-- latest publication that is valid for it, and no other, in the order of the day and of the period.
pub record ReadsLand (t : Tables) (now : ℕ) (reg_id : String) (lo hi : ℕ)
    (result : List LandRow × Option ℕ) : Type 0 where
  pub rows : List LandStored
  pub shown : result.0 ≡ map land_row_of rows
  pub sound : (r : LandStored) → In r rows → IsLatestLand now reg_id lo hi t r
  pub complete : (r : LandStored) → IsLatestLand now reg_id lo hi t r → In r rows
  pub ordered : IsOrdered land_day (λ (r : LandStored). am_pm_rank r.am_pm) rows
  pub newest : IsGreatest (λ (r : LandStored). r.tm_fc) rows result.1

-- For every table, region and range of offsets, a read of the land forecasts returns for each day all
-- the rows of the latest publication that has been made and has not expired for that day, no other
-- row, in the order of the day and of the period, and with them the newest publication among them.
pub fetch_mid_land_range-ReadsLand :
    (t : Tables) (now : ℕ) (reg_id : String) (lo hi : ℕ)
    → ReadsLand t now reg_id lo hi (fetch_mid_land_range t now reg_id lo hi)
unfolding fetch_mid_land_range
fetch_mid_land_range-ReadsLand t now reg_id lo hi =
    let test = is_valid_land now reg_id lo hi in
    let valid = filter_by test t.mid_land in
    let best = λ (r : LandStored). is_opt (latest_tm_fc valid (land_day r)) r.tm_fc in
    let period = λ (r : LandStored). am_pm_rank r.am_pm in
    let is_valid : (s : LandStored)
        → In s t.mid_land
        → IsValidLand now reg_id lo hi s
        → In s valid =
      λ s j v.
        In-filter_by_of test s t.mid_land j
          (is_valid_at_of now reg_id lo hi s.reg_id s.fcst_day_offset s.tm_fc s.expires_at v) in
    record {
      rows = read_land t now reg_id lo hi;
      shown = refl;
      sound = λ r i.
          let kept = In-filter_by best r valid (In-order_by land_day period r (ranked valid) i) in
          let both = In-filter_by test r t.mid_land kept.0 in
          (
            both.0,
            IsValid-of now reg_id lo hi r.reg_id r.fcst_day_offset r.tm_fc r.expires_at both.1,
            λ s j v e. (ranked-In valid r kept.0).0 kept.1 s (is_valid s j v) e,
          );
      complete = λ r h.
          let i = is_valid r h.0 h.1 in
          In-order_by_of land_day period r (ranked valid) (
            In-filter_by_of best r valid i (
              (ranked-In valid r i).1 (λ s j e.
                let both = In-filter_by test s t.mid_land j in
                h.2 s both.0
                  (IsValid-of now reg_id lo hi s.reg_id s.fcst_day_offset s.tm_fc s.expires_at
                    both.1)
                  e)));
      ordered = order_by-IsOrdered land_day period (ranked valid);
      newest = choose_of-IsGreatest (λ (r : LandStored). r.tm_fc) (read_land t now reg_id lo hi);
    }
