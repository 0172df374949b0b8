-- ===== src/Polling/Mid/Missing.antt =====
-- Which regions a round of the mid-term loop of app/scheduler/hub_scheduler.py polls.
use mathlib.Core.Path.{subst}
use map_service_hub.Base.{
  ℕ, ◌≡◌, ◌⊎◌, inl, inr, refl, ap, ◌∙◌, Bool, true, List, [], ◌∷◌, ◌++◌, map, arith, if-cases,
  if◌then◌else◌, filter_by, In, All, All-In, In-filter_by_of, Bool-cases, String, str_eq, eq_iff,
}
use map_service_hub.Kma.{codes}
use map_service_hub.Store.{SubscribedGrid, Tables}
use map_service_hub.Polling.Mid.{
  loaded_mid_land_regs, loaded_mid_temp_regs, text_leb, insert_reg, sorted_set, is_missing,
  land_regs, temp_regs, land_pending, temp_pending,
}
use map_service_hub.Polling.Mid.Loaded.{Grows, HasLand, HasTemp, loaded-HasLand, loaded-HasTemp}

-- each region of an active grid, where the grid names one, has a row of the publication
abbrev pub AllLoaded : ℕ → Tables → Type 0
AllLoaded tm_fc t =
    All (λ r. (r ≡ "") ⊎ HasLand tm_fc r t) (land_regs t)
    × All (λ r. (r ≡ "") ⊎ HasTemp tm_fc r t) (temp_regs t)

In-insert_reg_of : (a r : String) (qs : List String) → In a (r ∷ qs) → In a (insert_reg r qs)
In-insert_reg_of a r [] i = i
In-insert_reg_of a r (q ∷ qs) i =
    if-cases (In a) (str_eq r q) (q ∷ qs)
      (if text_leb (codes r) (codes q) then r ∷ q ∷ qs else q ∷ insert_reg r qs)
      (λ e. elim i [ inl p ↦ inl (p ∙ (eq_iff r q).0 e) | inr j ↦ j ])
      (λ _.
        if-cases (In a) (text_leb (codes r) (codes q)) (r ∷ q ∷ qs) (q ∷ insert_reg r qs) (λ _. i)
          (λ _. elim i [
            | inl p ↦ inr (In-insert_reg_of a r qs (inl p))
            | inr (inl p) ↦ inl p
            | inr (inr j) ↦ inr (In-insert_reg_of a r qs (inr j))
          ]))

In-sorted_set_of : (a : String) (rs : List String) → In a rs → In a (sorted_set rs)
In-sorted_set_of a [] i = i
In-sorted_set_of a (r ∷ rs) (inl p) = In-insert_reg_of a r (sorted_set rs) (inl p)
In-sorted_set_of a (r ∷ rs) (inr j) =
    In-insert_reg_of a r (sorted_set rs) (inr (In-sorted_set_of a rs j))

-- a region is loaded, unnamed, or among those that a round polls
pub missing-cases :
    (loaded : String → Bool) (r : String) (regs : List String)
    → In r regs
    → (r ≡ "") ⊎ (loaded r ≡ true) ⊎ In r (sorted_set (filter_by (is_missing loaded) regs))
missing-cases loaded r regs i = elim (Bool-cases (is_missing loaded r)) [
  | inl e ↦ inr (
      inr (
        In-sorted_set_of r (filter_by (is_missing loaded) regs)
          (In-filter_by_of (is_missing loaded) r regs i e)))
  | inr e ↦ elim (Bool-cases (str_eq r "")) [
    | inl unnamed ↦ inl ((eq_iff r "").0 unnamed)
    | inr named ↦ inr (inl (ground arith))
  ]
]

pub append-empty : (xs ys : List String) → xs ++ ys ≡ [] → (xs ≡ []) × (ys ≡ [])
append-empty [] ys e = (refl, e)
append-empty (x ∷ xs) ys e = absurd (ground arith)

-- After a growth that gave each pending region a row, every region of an active grid has one.
module _ (tm_fc : ℕ) (t u : Tables) (grows : Grows t u) where
  land-there :
      ((r : String) → In r (land_pending tm_fc t) → HasLand tm_fc r u)
      → (r : String) → In r (land_regs t)
      → (r ≡ "") ⊎ HasLand tm_fc r u
  unfolding land_pending
  land-there got r i = elim (missing-cases (loaded_mid_land_regs t tm_fc) r (land_regs t) i) [
    | inl unnamed ↦ inl unnamed
    | inr (inl loaded) ↦ inr (grows.kept_land tm_fc r (loaded-HasLand t tm_fc r loaded))
    | inr (inr j) ↦ inr (got r j)
  ]

  temp-there :
      ((r : String) → In r (temp_pending tm_fc t) → HasTemp tm_fc r u)
      → (r : String) → In r (temp_regs t)
      → (r ≡ "") ⊎ HasTemp tm_fc r u
  unfolding temp_pending
  temp-there got r i = elim (missing-cases (loaded_mid_temp_regs t tm_fc) r (temp_regs t) i) [
    | inl unnamed ↦ inl unnamed
    | inr (inl loaded) ↦ inr (grows.kept_temp tm_fc r (loaded-HasTemp t tm_fc r loaded))
    | inr (inr j) ↦ inr (got r j)
  ]

  pub pending-AllLoaded :
      ((r : String) → In r (land_pending tm_fc t) → HasLand tm_fc r u)
      → ((r : String) → In r (temp_pending tm_fc t) → HasTemp tm_fc r u)
      → AllLoaded tm_fc u
  pending-AllLoaded got_land got_temp =
      let lands = ap (map (λ (g : SubscribedGrid). g.mid_land_reg_id)) grows.grids in
      let temps = ap (map (λ (g : SubscribedGrid). g.mid_temp_reg_id)) grows.grids in
      (
        All-In (λ r. (r ≡ "") ⊎ HasLand tm_fc r u) (land_regs u)
            (λ r i. land-there got_land r (subst (In r) lands i)),
        All-In (λ r. (r ≡ "") ⊎ HasTemp tm_fc r u) (temp_regs u)
            (λ r i. temp-there got_temp r (subst (In r) temps i)),
      )
