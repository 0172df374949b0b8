-- ===== src/Polling/Guard/Single.antt =====
-- How many bodies of one name run at once under the guard of app/scheduler/hub_scheduler.py.
use mathlib.Core.Path.{subst}
use map_service_hub.Base.{
  ℕ, ◌≡◌, ◌≤◌, inl, inr, refl, sym, ◌∙◌, Bool, true, false, not, ◌||◌, ◌-◌, List, [], ◌∷◌, String,
  str_eq, eq_iff, if◌then◌else◌, if-cases, count_by, In, arith, Bool-cases,
}
use map_service_hub.Polling.Guard.{
  Guard, is_in, discard, remove_one, enter, leave, Step, calls, ends, Reachable, at_start, after,
}

abbrev pub running : String → Guard → ℕ
running name g = count_by (λ n. str_eq n name) g.bodies

-- the guard of a name is held exactly while one body of the name runs, and no second one does
abbrev pub IsSingle : Guard → Type 0
IsSingle g = (name : String) → running name g ≡ (if is_in name g.polling_active then 1 else 0)

enter-IsSingle : (name : String) (g : Guard) → IsSingle g → IsSingle (enter name g).1
unfolding enter
enter-IsSingle name g h =
    if-cases (λ (r : Bool × Guard). IsSingle r.1) (is_in name g.polling_active) (false, g)
      (true, record { polling_active = name ∷ g.polling_active; bodies = name ∷ g.bodies }) (λ _. h)
      (λ free other. elim (Bool-cases (str_eq name other)) [
        | inl same ↦
            let before = h other in
            let q = (eq_iff name other).0 same in
            let free_other : is_in other g.polling_active ≡ false =
              subst (λ n. is_in n g.polling_active ≡ false) q free in
            ground arith
        | inr different ↦ let before = h other in ground arith
      ])

-- two texts compare to a third as they compare to each other
discard-other :
    (name other : String) (names : List String)
    → str_eq name other ≡ false
    → is_in other (discard name names) ≡ is_in other names
discard-other name other [] d = refl
discard-other name other (n ∷ ns) d =
    let rest = discard-other name other ns d in
    if-cases (λ ms. is_in other ms ≡ is_in other (n ∷ ns)) (not (str_eq n name))
      (n ∷ discard name ns) (discard name ns) (λ _. ground arith)
      (λ e.
        let q = (eq_iff n name).0 (ground arith) in
        let apart : str_eq n other ≡ false = subst (λ m. str_eq m other ≡ false) (sym q) d in
        ground arith)

or_false : (a b : Bool) → not a ≡ true → b ≡ false → (a || b) ≡ false
or_false true b h k = absurd (ground arith)
or_false false b h k = k

discard-same : (name : String) (names : List String) → is_in name (discard name names) ≡ false
discard-same name [] = refl
discard-same name (n ∷ ns) =
    let rest = discard-same name ns in
    if-cases (λ ms. is_in name ms ≡ false) (not (str_eq n name)) (n ∷ discard name ns)
      (discard name ns) (λ e. or_false (str_eq n name) (is_in name (discard name ns)) e rest)
      (λ _. rest)

remove_one-other :
    (name other : String) (names : List String)
    → str_eq name other ≡ false
    → count_by (λ n. str_eq n other) (remove_one name names) ≡ count_by (λ n. str_eq n other) names
remove_one-other name other [] d = refl
remove_one-other name other (n ∷ ns) d =
    let rest = remove_one-other name other ns d in
    if-cases (λ ms. count_by (λ m. str_eq m other) ms ≡ count_by (λ m. str_eq m other) (n ∷ ns))
      (str_eq n name) ns (n ∷ remove_one name ns)
      (λ e.
        let q = (eq_iff n name).0 e in
        let apart : str_eq n other ≡ false = subst (λ m. str_eq m other ≡ false) (sym q) d in
        ground arith)
      (λ _. ground arith)

remove_one-same :
    (name : String) (names : List String)
    → count_by (λ n. str_eq n name) (remove_one name names)
      ≡ count_by (λ n. str_eq n name) names - 1
remove_one-same name [] = refl
remove_one-same name (n ∷ ns) =
    let rest = remove_one-same name ns in
    if-cases (λ ms. count_by (λ m. str_eq m name) ms ≡ count_by (λ m. str_eq m name) (n ∷ ns) - 1)
      (str_eq n name) ns (n ∷ remove_one name ns) (λ e. ground arith) (λ e. ground arith)

at_most_one : (b : Bool) (n : ℕ) → n ≡ (if b then 1 else 0) → n - 1 ≡ 0
at_most_one true n e = omega arith
at_most_one false n e = omega arith

leave-same : (name : String) (g : Guard) → IsSingle g → running name (leave name g) ≡ 0
unfolding leave
leave-same name g h =
    remove_one-same name g.bodies
    ∙ at_most_one (is_in name g.polling_active) (running name g) (h name)

leave-IsSingle : (name : String) (g : Guard) → IsSingle g → IsSingle (leave name g)
unfolding leave
leave-IsSingle name g h other = elim (Bool-cases (str_eq name other)) [
  | inl same ↦
      let gone = leave-same name g h in
      let free = discard-same name g.polling_active in
      subst
        (λ o. running o (leave name g) ≡ (if is_in o (discard name g.polling_active) then 1 else 0))
        ((eq_iff name other).0 same) (ground arith)
  | inr different ↦
      let before = h other in
      let freed = discard-other name other g.polling_active different in
      let removed = remove_one-other name other g.bodies different in ground arith
]

Step-IsSingle : {g h : Guard} → Step g h → IsSingle g → IsSingle h
Step-IsSingle (calls name g) k = enter-IsSingle name g k
Step-IsSingle (ends name g i) k = leave-IsSingle name g k

-- However the startup, the schedule, the watchdog and manual starts interleave, at every moment the
-- guard of a name is held exactly while a body of the name runs, and never two bodies of a name run.
pub guard-IsSingle : {g : Guard} → Reachable g → IsSingle g
guard-IsSingle at_start name = refl
guard-IsSingle (after g h r s) name = Step-IsSingle s (guard-IsSingle r) name

In-running :
    (name : String) (names : List String) → In name names → 1 ≤ count_by (λ n. str_eq n name) names
In-running name [] i = elim i [ ]
In-running name (n ∷ ns) (inl q) = let same = (eq_iff n name).1 (sym q) in ground arith
In-running name (n ∷ ns) (inr j) = let rest = In-running name ns j in omega arith

held : (b : Bool) (n : ℕ) → n ≡ (if b then 1 else 0) → 1 ≤ n → b ≡ true
held true n e k = refl
held false n e k = absurd (omega arith)

-- At a reachable moment at which a body of a name runs, a further call of the name is refused; after
-- the end of the body, however it ends, the guard is reachable again and a call starts.
pub leave-enter :
    {g : Guard} (name : String)
    → Reachable g
    → In name g.bodies
    → ((enter name g).0 ≡ false) × Reachable (leave name g) × ((enter name (leave name g)).0 ≡ true)
unfolding enter leave
leave-enter {g} name r i =
    let taken =
      held (is_in name g.polling_active) (running name g) (guard-IsSingle r name)
        (In-running name g.bodies i) in
    let free = discard-same name g.polling_active in
    (ground arith, after g (leave name g) r (ends name g i), ground arith)
