-- ===== src/Polling/Short/Finished.antt =====
-- What holds where the short-term loop returns with nothing left, and that it ends.
use mathlib.Core.Path.{subst}
use map_service_hub.Base.{
  ℕ, suc, ◌≡◌, ◌⊎◌, inl, inr, refl, sym, ap, ◌∙◌, Bool, true, false, not, ◌&&◌, Option, none, some,
  List, [], ◌∷◌, arith, ◌==◌, In, All, In-filter_by_of, In-any_by, Bool-cases, String,
}
use map_service_hub.Base.Json.{Json, Fields}
use map_service_hub.Kma.{Calendar, Text}
use map_service_hub.Store.{ShortStored, SubscribedGrid, Tables}
use map_service_hub.Store.Grids.{select_active_grids}
use map_service_hub.Store.Short.{loaded_short_term_grids, upsert_short_term_items}
use map_service_hub.Polling.{World, State, Pace, complete, poll_each, plan_of, write_if, in_read}
use map_service_hub.Polling.Outcome.{
  Finishes, poll_each-Keeps, poll_each-Reaches, rounds-Finishes, IsPlan, Plans, in_read-Plans,
}
use map_service_hub.Polling.Short.{
  store_items, attempt_grid, unloaded, with_pending, plan_short, short_rounds,
}
use map_service_hub.Polling.Short.Loaded.{HasForecast, Writes, upsert-Writes}

-- What other tasks do to the tables while the loop sleeps: they neither change the subscribed grids
-- nor remove a forecast with no later one of its cell.
pub record IsCalm {S : Type 0} (w : World S) : Type 0 where
  pub grids :
      (n : ℕ) (s : S) (t : Tables) → select_active_grids (w.sleep n s t).1 ≡ select_active_grids t
  pub kept :
      (n : ℕ) (s : S) (t : Tables) (b x y : ℕ)
      → HasForecast b x y t.short_term
      → HasForecast b x y (w.sleep n s t).1.short_term

abbrev pub EachLoaded : ℕ → Tables → Type 0
EachLoaded base_at t =
    (g : SubscribedGrid) → In g (select_active_grids t) → HasForecast base_at g.nx g.ny t.short_term

-- every active grid has a forecast of the publication, or of a later one
abbrev pub AllLoaded : ℕ → Tables → Type 0
AllLoaded base_at t =
    All (λ (g : SubscribedGrid). HasForecast base_at g.nx g.ny t.short_term) (select_active_grids t)

loaded-HasForecast :
    (t : Tables) (base_at nx ny : ℕ)
    → loaded_short_term_grids t base_at nx ny ≡ true
    → HasForecast base_at nx ny t.short_term
unfolding loaded_short_term_grids
loaded-HasForecast t base_at nx ny h =
    let test = λ (r : ShortStored). (r.base_at == base_at) && ((r.nx == nx) && (r.ny == ny)) in
    let (r, i, e) = In-any_by test t.short_term h in
    (r, i, ground arith, ground arith, ground arith)

module _ {F S : Type 0} (w : World S) (cal : Calendar) (show : Json F → String)
    (fetch_short_term : ℕ → ℕ → Text → Text → S → Option (List (Fields F)) × S) where
  write_if-Writes :
      (ok : Bool) (base_at nx ny now : ℕ) (items : List (Fields F)) (st : State S)
      → let result =
          write_if w ok (λ t. upsert_short_term_items cal show t nx ny base_at now items) st in
        Writes base_at nx ny st.tables (result.0, result.1.tables)
  write_if-Writes false base_at nx ny now items st = record {
    grids = refl;
    kept = λ b x y k. k;
    done = λ e. ground arith;
  }
  write_if-Writes true base_at nx ny now items st =
      upsert-Writes cal show nx ny base_at now st.tables items

  store_items-Writes :
      (base_at : ℕ) (g : SubscribedGrid) (items : Option (List (Fields F))) (st : State S)
      → let result = store_items w cal show fetch_short_term base_at g items st in
        Writes base_at g.nx g.ny st.tables (result.0, result.1.tables)
  store_items-Writes base_at g none st = record {
    grids = refl;
    kept = λ b x y k. k;
    done = λ e. ground arith;
  }
  store_items-Writes base_at g (some items) st =
      let opened = w.session st.world in
      let clock = w.clock opened.1 in
      write_if-Writes opened.0 base_at g.nx g.ny clock.0 items
        (record { world = clock.1; tables = st.tables })

  abbrev IsLeft : ℕ → Tables → List SubscribedGrid → Type 0
  IsLeft base_at t gs = unloaded w cal show fetch_short_term base_at t ≡ gs

  plan_of-IsPlan :
      (base_at : ℕ) (t : Tables) (gs : List SubscribedGrid)
      → IsLeft base_at t gs
      → IsPlan w (IsLeft base_at) (λ t'. IsLeft base_at t' []) t (plan_of gs) t
  plan_of-IsPlan base_at t [] e = (refl, e)
  plan_of-IsPlan base_at t (g ∷ gs) e = (refl, e)

  plan_short-Plans :
      (base_at : ℕ)
      → Plans w
          (IsLeft base_at)
          (λ t. IsLeft base_at t [])
          (plan_short w cal show fetch_short_term base_at)
  unfolding plan_short
  plan_short-Plans base_at =
      let none_left = λ (t : Tables). IsLeft base_at t [] in
      let last = with_pending w cal show fetch_short_term base_at in
      in_read-Plans w (IsLeft base_at) none_left (in_read w last) (
        in_read-Plans w (IsLeft base_at) none_left last (λ s.
          plan_of-IsPlan base_at s.tables (unloaded w cal show fetch_short_term base_at s.tables)
            refl))

  module _ (calm : IsCalm w) (base_date base_time : Text) (base_at : ℕ) where
    abbrev attempt : SubscribedGrid → State S → Bool × State S
    attempt = attempt_grid w cal show fetch_short_term base_date base_time base_at

    attempt-Writes :
        (g : SubscribedGrid) (st : State S)
        → Writes base_at g.nx g.ny st.tables ((attempt g st).0, (attempt g st).1.tables)
    unfolding attempt_grid
    attempt-Writes g st =
        let fetched = fetch_short_term g.nx g.ny base_date base_time st.world in
        store_items-Writes base_at g fetched.0 (record { world = fetched.1; tables = st.tables })

    abbrev round : ℕ → ℕ → List SubscribedGrid → State S → List SubscribedGrid × State S
    round interval deadline targets = poll_each w interval deadline attempt targets

    round-grids :
        (interval deadline : ℕ) (targets : List SubscribedGrid) (g : SubscribedGrid) (st : State S)
        → select_active_grids (round interval deadline targets st).1.tables
          ≡ select_active_grids st.tables
    round-grids interval deadline targets g st =
        poll_each-Keeps w attempt (λ _ t. select_active_grids t ≡ select_active_grids st.tables)
          (λ a b s k. (attempt-Writes a s).grids ∙ k) (λ n b s t k. calm.grids n s t ∙ k) interval
          deadline targets g st refl

    round-kept :
        (interval deadline : ℕ) (targets : List SubscribedGrid) (g : SubscribedGrid) (st : State S)
        → HasForecast base_at g.nx g.ny st.tables.short_term
        → HasForecast base_at g.nx g.ny (round interval deadline targets st).1.tables.short_term
    round-kept interval deadline targets g st =
        poll_each-Keeps w attempt (λ b t. HasForecast base_at b.nx b.ny t.short_term)
          (λ a b s k. (attempt-Writes a s).kept base_at b.nx b.ny k)
          (λ n b s t k. calm.kept n s t base_at b.nx b.ny k) interval deadline targets g st

    round-reaches :
        (interval deadline : ℕ) (targets : List SubscribedGrid) (st : State S)
        → (round interval deadline targets st).0 ≡ []
        → (g : SubscribedGrid) → In g targets
        → HasForecast base_at g.nx g.ny (round interval deadline targets st).1.tables.short_term
    round-reaches interval deadline targets =
        poll_each-Reaches w attempt (λ b t. HasForecast base_at b.nx b.ny t.short_term)
          (λ a b s k. (attempt-Writes a s).kept base_at b.nx b.ny k)
          (λ n b s t k. calm.kept n s t base_at b.nx b.ny k) (λ a s e. (attempt-Writes a s).done e)
          interval deadline targets

    -- a grid is loaded already, or it is among those that are not
    loaded_or_pending :
        (t : Tables) (g : SubscribedGrid)
        → In g (select_active_grids t)
        → HasForecast base_at g.nx g.ny t.short_term
          ⊎ In g (unloaded w cal show fetch_short_term base_at t)
    loaded_or_pending t g i = elim (Bool-cases (loaded_short_term_grids t base_at g.nx g.ny)) [
      | inl e ↦ inl (loaded-HasForecast t base_at g.nx g.ny e)
      | inr e ↦ inr (
          In-filter_by_of
            (λ (h : SubscribedGrid). not (loaded_short_term_grids t base_at h.nx h.ny)) g
            (select_active_grids t) i (ap not e))
    ]

    round-EachLoaded :
        (interval deadline : ℕ) (t : Tables) (targets : List SubscribedGrid) (st : State S)
        → st.tables ≡ t
        → unloaded w cal show fetch_short_term base_at t ≡ targets
        → (round interval deadline targets st).0 ≡ []
        → EachLoaded base_at (round interval deadline targets st).1.tables
    round-EachLoaded interval deadline t targets st same pending_eq none_failed g i =
        let after_round = round interval deadline targets st in
        let before : In g (select_active_grids t) =
          subst (In g) (round-grids interval deadline targets g st ∙ ap select_active_grids same)
            i in
        elim (loaded_or_pending t g before) [
          | inl h ↦
              round-kept interval deadline targets g st
                (subst (λ (u : Tables). HasForecast base_at g.nx g.ny u.short_term) (sym same) h)
          | inr j ↦
              round-reaches interval deadline targets st none_failed g (subst (In g) pending_eq j)
        ]

    complete-EachLoaded :
        (t u : Tables)
        → IsPlan w (IsLeft base_at) (λ t'. IsLeft base_at t' []) t complete u
        → EachLoaded base_at u
    complete-EachLoaded t u (same, empty) g i =
        elim (loaded_or_pending t g (subst (λ v. In g (select_active_grids v)) same i)) [
          | inl h ↦ subst (λ (v : Tables). HasForecast base_at g.nx g.ny v.short_term) (sym same) h
          | inr j ↦ elim (subst (In g) empty j) [ ]
        ]

    pub short_rounds-Finishes :
        (pace : Pace) (deadline : ℕ) (st : State S)
        → Finishes w
            (λ (s : State S). EachLoaded base_at s.tables)
            (short_rounds w cal show fetch_short_term pace base_date base_time base_at deadline st)
    unfolding short_rounds
    short_rounds-Finishes pace deadline st =
        let plan = plan_short w cal show fetch_short_term base_at in
        rounds-Finishes w plan (round pace.poll_interval deadline) pace.retry_interval
          (λ (s : State S). EachLoaded base_at s.tables)
          (λ s e. complete-EachLoaded s.tables (plan s).1.tables (
            subst
              (λ found.
                IsPlan w (IsLeft base_at) (λ t. IsLeft base_at t []) s.tables found
                  (plan s).1.tables)
              e (plan_short-Plans base_at s)))
          (λ s p e none_failed.
            let is_plan =
              subst
                (λ found.
                  IsPlan w (IsLeft base_at) (λ t. IsLeft base_at t []) s.tables found
                    (plan s).1.tables)
                e (plan_short-Plans base_at s) in
            round-EachLoaded pace.poll_interval deadline s.tables p (plan s).1 is_plan.0 is_plan.1
              none_failed)
          (suc deadline) deadline [] st
