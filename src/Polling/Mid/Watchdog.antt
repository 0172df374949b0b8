-- ===== src/Polling/Mid/Watchdog.antt =====
-- What one run of the watchdog of app/scheduler/hub_scheduler.py does, by the tables it finds.
use mathlib.Core.Path.{subst}
use mathlib.Core.Option.{some-injective}
use map_service_hub.Base.{
  ℕ, ◌≡◌, ◌⊎◌, ◌≤◌, inl, inr, refl, sym, ap, ◌∙◌, Bool, true, false, Option, none, some, arith,
  String, Bool-cases, if-cases,
}
use map_service_hub.Base.Json.{Json, Fields}
use map_service_hub.Kma.{Calendar, Text, parse_kma_tm_fc, resolve_mid_tm_fc}
use map_service_hub.Store.{Tables}
use map_service_hub.Store.Mid.{Ints, latest_mid_tm_fc}
use map_service_hub.Polling.{World, State, Pace, tick}
use map_service_hub.Polling.Mid.{
  Watched, up_to_date, already_running, refilled, all_loaded, refill, poll_guarded, unless_loaded,
  then_watch, watch_read, is_current, compare_current, watch_for, mid_freshness_watchdog,
  mid_term_polling_loop,
}
use map_service_hub.Polling.Mid.Missing.{AllLoaded}
use map_service_hub.Polling.Mid.Fresh.{IsFresh, all_loaded-AllLoaded, AllLoaded-all_loaded}

module _ {F S : Type 0} (w : World S) (cal : Calendar) (ints : Ints F)
    (bind_text : Json F → Option (Option String))
    (fetch_mid_land fetch_mid_temp : String → Text → S → Option (Fields F) × S)
    (tasks active : S → Bool) (stub : Bool) (pace : Pace) (expected : ℕ) where
  -- the test of the latest publication that is stored
  is_current_iff :
      (o : Option ℕ)
      → ((c : ℕ) × (o ≡ some c) × (expected ≤ c))
        ⊎ (((c : ℕ) × (o ≡ some c) × (expected ≤ c) → ⊥)
            × (is_current w cal ints bind_text fetch_mid_land fetch_mid_temp tasks active expected o
                ≡ false))
  is_current_iff none = inr (λ h. ground (arith, h.1), refl)
  is_current_iff (some c) =
      elim (Bool-cases (
        is_current w cal ints bind_text fetch_mid_land fetch_mid_temp tasks active expected
          (some c))) [
            | inl e ↦ inl (c, refl, ground arith)
            | inr e ↦
                inr (λ h. let (d, q, le) = h in let p = some-injective c d q in ground arith, e)
          ]

  current-is_current :
      (o : Option ℕ)
      → ((c : ℕ) × (o ≡ some c) × (expected ≤ c))
      → is_current w cal ints bind_text fetch_mid_land fetch_mid_temp tasks active expected o ≡ true
  current-is_current none h = absurd (ground (arith, h.1))
  current-is_current (some c) (d, q, le) = let p = some-injective c d q in ground arith

  -- What a refill does: nothing where a task of the loop runs already or its guard is held, else a run
  -- of the mid-term loop.
  abbrev pub Refills : State S → Watched × State S → Type 0
  Refills s r =
      ((tasks s.world ≡ true) × (r ≡ (already_running, s)))
      ⊎ ((tasks s.world ≡ false) × (active s.world ≡ true) × (r ≡ (refilled none, s)))
      ⊎ ((tasks s.world ≡ false)
          × (active s.world ≡ false)
          × (r ≡ (
            refilled
                (mid_term_polling_loop w cal ints bind_text fetch_mid_land fetch_mid_temp stub pace
                  s).0,
            (mid_term_polling_loop w cal ints bind_text fetch_mid_land fetch_mid_temp stub pace
                s).1,
          )))

  -- What a run of the watchdog over the tables does.
  abbrev pub Watches : Tables → Watched × State S → Type 0
  Watches t r =
      (IsFresh expected t × (r.0 ≡ up_to_date) × (r.1.tables ≡ t))
      ⊎ ((IsFresh expected t → ⊥) × (s : State S) × (s.tables ≡ t) × Refills s r)

  refill-Refills :
      (s : State S)
      → Refills s (
          refill w cal ints bind_text fetch_mid_land fetch_mid_temp tasks active
            (tasks s.world)
            stub
            pace
            s)
  refill-Refills s =
      let run = refill w cal ints bind_text fetch_mid_land fetch_mid_temp tasks active in
      elim (Bool-cases (tasks s.world)) [
        | inl e ↦ inl (e, ap (λ b. run b stub pace s) e)
        | inr e ↦ elim (Bool-cases (active s.world)) [
          | inl g ↦ inr (
              inl (
                e,
                g,
                ap (λ b. run b stub pace s) e
                    ∙ ap
                        (λ b.
                          poll_guarded w cal ints bind_text fetch_mid_land fetch_mid_temp tasks
                            active b stub pace s)
                        g,
              ))
          | inr g ↦ inr (
              inr (
                e,
                g,
                ap (λ b. run b stub pace s) e
                    ∙ ap
                        (λ b.
                          poll_guarded w cal ints bind_text fetch_mid_land fetch_mid_temp tasks
                            active b stub pace s)
                        g,
              ))
        ]
      ]

  unless_loaded-Watches :
      (t : Tables)
      → ((c : ℕ) × (latest_mid_tm_fc t ≡ some c) × (expected ≤ c))
      → (s : State S) → s.tables ≡ t
      → Watches t (
          unless_loaded w cal ints bind_text fetch_mid_land fetch_mid_temp tasks active expected
            stub pace s)
  unless_loaded-Watches t current s q =
      if-cases (Watches t)
        (all_loaded w cal ints bind_text fetch_mid_land fetch_mid_temp expected s.tables)
        (up_to_date, s)
        (refill w cal ints bind_text fetch_mid_land fetch_mid_temp tasks active (tasks s.world) stub
          pace s)
        (λ e. inl (
          (
            current,
            subst (AllLoaded expected) q (
                all_loaded-AllLoaded w cal ints bind_text fetch_mid_land fetch_mid_temp expected
                  s.tables e),
          ),
          refl,
          q,
        ))
        (λ e. inr (
          λ fresh.
              let there =
                AllLoaded-all_loaded w cal ints bind_text fetch_mid_land fetch_mid_temp expected
                  s.tables (subst (AllLoaded expected) (sym q) fresh.1) in
              ground arith,
          s,
          q,
          refill-Refills s,
        ))

  module _ (opens : (s : S) → (w.session s).0 ≡ true) where
    then_watch-Watches :
        (t : Tables) (next : State S → Watched × State S) (ok : Bool) (s : State S)
        → ok ≡ true
        → Watches t (next s)
        → Watches t
            (then_watch w cal ints bind_text fetch_mid_land fetch_mid_temp tasks active next ok s)
    then_watch-Watches t next false s e h = absurd (ground arith)
    then_watch-Watches t next true s e h = h

    watch_read-Watches :
        (t : Tables) (next : State S → Watched × State S)
        → ((s : State S) → s.tables ≡ t → Watches t (next s))
        → (s : State S) → s.tables ≡ t
        → Watches t
            (watch_read w cal ints bind_text fetch_mid_land fetch_mid_temp tasks active next s)
    watch_read-Watches t next h s q =
        let opened = w.session s.world in
        let s' : State S = record { world = opened.1; tables = s.tables } in
        then_watch-Watches t next opened.0 s' (opens s.world) (h s' q)

    compare_current-Watches :
        (t : Tables) (s : State S)
        → s.tables ≡ t
        → Watches t (
            compare_current w cal ints bind_text fetch_mid_land fetch_mid_temp tasks active expected
              (is_current w cal ints bind_text fetch_mid_land fetch_mid_temp tasks active expected
                (latest_mid_tm_fc s.tables))
              stub
              pace
              s)
    compare_current-Watches t s q =
        let read = watch_read w cal ints bind_text fetch_mid_land fetch_mid_temp tasks active in
        let last =
          unless_loaded w cal ints bind_text fetch_mid_land fetch_mid_temp tasks active expected
            stub pace in
        let compare = λ (b : Bool). Watches t (
          compare_current w cal ints bind_text fetch_mid_land fetch_mid_temp tasks active expected b
            stub pace s) in
        elim (is_current_iff (latest_mid_tm_fc s.tables)) [
          | inl current ↦
              subst compare (sym (current-is_current (latest_mid_tm_fc s.tables) current)) (
                watch_read-Watches t (read (read last))
                  (watch_read-Watches t (read last) (
                    watch_read-Watches t last (
                      unless_loaded-Watches t (
                        subst
                          (λ (u : Tables). (c : ℕ) × (latest_mid_tm_fc u ≡ some c) × (expected ≤ c))
                          q current))))
                  s q)
          | inr (behind, e) ↦ subst compare (sym e) (
              inr (
                λ fresh. behind (
                    subst (λ (u : Tables). (c : ℕ) × (latest_mid_tm_fc u ≡ some c) × (expected ≤ c))
                      (sym q) fresh.0),
                s,
                q,
                refill-Refills s,
              ))
        ]

    watch_for-Watches :
        (parsed : Option ℕ) (s : State S)
        → parsed ≡ some expected
        → Watches s.tables (
            watch_for w cal ints bind_text fetch_mid_land fetch_mid_temp tasks active parsed stub
              pace s)
    watch_for-Watches none s e = absurd (ground arith)
    watch_for-Watches (some at) s e =
        subst
          (λ b. Watches s.tables (
            watch_for w cal ints bind_text fetch_mid_land fetch_mid_temp tasks active (some b) stub
              pace s))
          (sym (some-injective at expected e))
          (watch_read-Watches s.tables
            (λ u.
              compare_current w cal ints bind_text fetch_mid_land fetch_mid_temp tasks active
                expected
                (is_current w cal ints bind_text fetch_mid_land fetch_mid_temp tasks active expected
                  (latest_mid_tm_fc u.tables))
                stub pace u)
            (compare_current-Watches s.tables) s refl)

    -- Where the tables can be read and the time of the publication that the clock calls for is parsed, a
    -- run of the watchdog does one of two things. If the latest stored publication is that one or a later
    -- one, and every land region and every temperature region that an active grid names has a row of
    -- that publication, it returns and changes no table. If not, it refills from the tables as they
    -- were: it does nothing where a task of the mid-term loop runs already or the loop's guard is held,
    -- and else is a run of the mid-term loop.
    pub mid_freshness_watchdog-Watches :
        (st : State S)
        → parse_kma_tm_fc cal (resolve_mid_tm_fc cal (tick w st).0) ≡ some expected
        → Watches st.tables (
            mid_freshness_watchdog w cal ints bind_text fetch_mid_land fetch_mid_temp tasks active
              stub pace st)
    unfolding mid_freshness_watchdog
    mid_freshness_watchdog-Watches st parses =
        watch_for-Watches (parse_kma_tm_fc cal (resolve_mid_tm_fc cal (tick w st).0)) (tick w st).1
          parses
