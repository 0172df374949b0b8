-- ===== src/Rules/Dwell.antt =====
-- `estimate_dwell` of app/rules/rule_engine.py. `int(x)` of a float is the parameter `trunc`, none
-- where it raises.
use mathlib.Core.Path.{subst}
use map_service_hub.Base.{
  ℕ, In, ◌≡◌, ◌⊎◌, ◌≤◌, ◌<◌, sym, inl, inr, refl, true, false, Option, none, some, List, [], ◌∷◌,
  arith, if◌then◌else◌, if-cases,
}
use map_service_hub.Base.Int.{ℤ, pos, negsuc, ltb_ℤ, ◌≤ℤ◌}
use map_service_hub.Base.Json.{Json, null, bool, int, float, str, list, dict, Fields, get, Floats}
use map_service_hub.Rules.{dwell_minutes, minutes_in}

pub data Source : Type 0 where
  course_actual category default : Source

pub record Dwell (F : Type 0) : Type 0 where
  pub content_id : Json F
  pub stay_minutes : ℤ
  pub source : Source

-- `max(DWELL_MIN_MINUTES, min(DWELL_MAX_MINUTES, minutes))` of a positive number
abbrev pub folded : ℤ → ℤ
folded minutes =
    if ltb_ℤ (pos 0) minutes
    then (let m = if ltb_ℤ minutes (pos 240) then minutes else pos 240 in
        if ltb_ℤ (pos 10) m then m else pos 10)
    else minutes

abbrev pub of_table : Option ℕ → ℤ × Source
of_table none = (pos 45, default)
of_table (some m) = (pos m, category)

-- `code in DWELL_MINUTES` and the value: none is the TypeError of a list or a dictionary
abbrev pub by_code : {F : Type 0} → Json F → Option (ℤ × Source)
by_code (str s) = some (of_table (minutes_in dwell_minutes s))
by_code (list xs) = none
by_code (dict d) = none
by_code _ = some (pos 45, default)

abbrev pub with_source : Option ℤ → Option (ℤ × Source)
with_source none = none
with_source (some z) = some (z, course_actual)

module _ {F : Type 0} (fl : Floats F) (trunc : F → Option ℤ) where
  -- `isinstance(course, (int, float)) and course > 0`, where True is the number 1
  abbrev pub minutes_of : Json F → Json F → Option (ℤ × Source)
  minutes_of (bool true) code = some (pos 1, course_actual)
  minutes_of (int z) code = if ltb_ℤ (pos 0) z then some (z, course_actual) else by_code code
  minutes_of (float x) code =
      if fl.lt (fl.lit (pos 0)) x then with_source (trunc x) else by_code code
  minutes_of _ code = by_code code

  abbrev pub dwell_at :
      Json F → Option (ℤ × Source) → Option (List (Dwell F)) → Option (List (Dwell F))
  dwell_at id none rest = none
  dwell_at id (some (m, source)) none = none
  dwell_at id (some (m, source)) (some rest) =
      some (record { content_id = id; stay_minutes = folded m; source = source } ∷ rest)

  unfoldable pub estimate_dwell : List (Fields F) → Option (List (Dwell F))
  estimate_dwell [] = some []
  estimate_dwell (place ∷ places) =
      dwell_at (get "content_id" place)
        (minutes_of (get "course_minutes" place) (get "category_group_code" place))
        (estimate_dwell places)

  -- `int(x)` of a float above 0 is not negative
  abbrev pub TruncsUp : Type 0
  TruncsUp = (x : F) (z : ℤ) → fl.lt (fl.lit (pos 0)) x ≡ true → trunc x ≡ some z → pos 0 ≤ℤ z

-- the minutes of a stay, from those of the course, of the category or of the rule's default
abbrev pub FoldsTo : ℕ → ℤ → Type 0
FoldsTo given stay =
    ((given ≡ 0) × (stay ≡ pos 0))
    ⊎ ((1 ≤ given) × (given < 10) × (stay ≡ pos 10))
    ⊎ ((10 ≤ given) × (given ≤ 240) × (stay ≡ pos given))
    ⊎ ((240 < given) × (stay ≡ pos 240))

-- the minutes of a category, none where the table does not have it
abbrev pub InTable : Option ℕ → ℕ → Source → Type 0
InTable (some minutes) given source = (given ≡ minutes) × (source ≡ category)
InTable none given source = (given ≡ 45) × (source ≡ default)

module _ {F : Type 0} (fl : Floats F) (trunc : F → Option ℤ) where
  abbrev pub ByCategory : Json F → ℕ → Source → Type 0
  ByCategory (str s) given source = InTable (minutes_in dwell_minutes s) given source
  ByCategory _ given source = (given ≡ 45) × (source ≡ default)

  -- a positive time of the course, cut to whole minutes, goes before the category
  abbrev pub IsPlanned : Json F → Json F → ℕ → Source → Type 0
  IsPlanned (bool true) code given source = (given ≡ 1) × (source ≡ course_actual)
  IsPlanned (int z) code given source =
      ((z ≡ pos given) × (1 ≤ given) × (source ≡ course_actual))
      ⊎ ((z ≤ℤ pos 0) × ByCategory code given source)
  IsPlanned (float x) code given source =
      ((fl.lt (fl.lit (pos 0)) x ≡ true) × (trunc x ≡ some (pos given)) × (source ≡ course_actual))
      ⊎ ((fl.lt (fl.lit (pos 0)) x ≡ false) × ByCategory code given source)
  IsPlanned _ code given source = ByCategory code given source

  -- what makes the minutes of a place end with an exception
  abbrev pub IsUnhashable : Json F → Type 0
  IsUnhashable (list xs) = Unit
  IsUnhashable (dict d) = Unit
  IsUnhashable _ = ⊥

  abbrev pub Breaks : Json F → Json F → Type 0
  Breaks (bool true) code = ⊥
  Breaks (int z) code = (z ≤ℤ pos 0) × IsUnhashable code
  Breaks (float x) code =
      ((fl.lt (fl.lit (pos 0)) x ≡ true) × (trunc x ≡ none))
      ⊎ ((fl.lt (fl.lit (pos 0)) x ≡ false) × IsUnhashable code)
  Breaks _ code = IsUnhashable code

  -- the stay of one place
  abbrev pub IsStay : Fields F → Dwell F → Type 0
  IsStay place d =
      (d.content_id ≡ get "content_id" place)
      × (given : ℕ) × IsPlanned (get "course_minutes" place) (get "category_group_code" place) given
          d.source
      × FoldsTo given d.stay_minutes

  -- What the call promises of its result.
  abbrev pub EachStay : List (Fields F) → List (Dwell F) → Type 0
  EachStay [] [] = Unit
  EachStay [] (d ∷ ds) = ⊥
  EachStay (place ∷ places) [] = ⊥
  EachStay (place ∷ places) (d ∷ ds) = IsStay place d × EachStay places ds

  abbrev pub Dwells : List (Fields F) → Option (List (Dwell F)) → Type 0
  Dwells places none =
      (place : Fields F) × In place places
      × Breaks (get "course_minutes" place) (get "category_group_code" place)
  Dwells places (some stays) = EachStay places stays

  folded-FoldsTo : (given : ℕ) → FoldsTo given (folded (pos given))
  folded-FoldsTo given = ground arith

  -- what is computed for a place, against the description of it
  abbrev Agrees : Json F → Json F → Option (ℤ × Source) → Type 0
  Agrees course code none = Breaks course code
  Agrees course code (some (m, source)) =
      (given : ℕ) × (m ≡ pos given) × IsPlanned course code given source

  abbrev AgreesByCode : Json F → Option (ℤ × Source) → Type 0
  AgreesByCode code none = IsUnhashable code
  AgreesByCode code (some (m, source)) =
      (given : ℕ) × (m ≡ pos given) × ByCategory code given source

  of_table-InTable :
      (o : Option ℕ) → (given : ℕ) × ((of_table o).0 ≡ pos given) × InTable o given (of_table o).1
  of_table-InTable none = (45, refl, (refl, refl))
  of_table-InTable (some m) = (m, refl, (refl, refl))

  by_code-Agrees : (code : Json F) → AgreesByCode code (by_code code)
  by_code-Agrees null = (45, refl, (refl, refl))
  by_code-Agrees (bool b) = (45, refl, (refl, refl))
  by_code-Agrees (int z) = (45, refl, (refl, refl))
  by_code-Agrees (float x) = (45, refl, (refl, refl))
  by_code-Agrees (str s) = of_table-InTable (minutes_in dwell_minutes s)
  by_code-Agrees (list xs) = tt
  by_code-Agrees (dict d) = tt

  int_code-Agrees :
      (z : ℤ) (code : Json F) (o : Option (ℤ × Source))
      → z ≤ℤ pos 0
      → AgreesByCode code o
      → Agrees (int z) code o
  int_code-Agrees z code none h k = (h, k)
  int_code-Agrees z code (some (m, source)) h (given, e, k) = (given, e, inr (h, k))

  float_code-Agrees :
      (x : F) (code : Json F) (o : Option (ℤ × Source))
      → fl.lt (fl.lit (pos 0)) x ≡ false
      → AgreesByCode code o
      → Agrees (float x) code o
  float_code-Agrees x code none h k = inr (h, k)
  float_code-Agrees x code (some (m, source)) h (given, e, k) = (given, e, inr (h, k))

  int-Agrees :
      (z : ℤ) (code : Json F)
      → ltb_ℤ (pos 0) z ≡ true
      → Agrees (int z) code (some (z, course_actual))
  int-Agrees (pos n) code h = (n, refl, inl (refl, ground arith, refl))
  int-Agrees (negsuc n) code h = absurd (ground arith)

  with_source-Agrees :
      (x : F) (code : Json F) (o : Option ℤ)
      → fl.lt (fl.lit (pos 0)) x ≡ true
      → trunc x ≡ o
      → ((z : ℤ) → o ≡ some z → pos 0 ≤ℤ z)
      → Agrees (float x) code (with_source o)
  with_source-Agrees x code none h e up = inl (h, e)
  with_source-Agrees x code (some (pos n)) h e up = (n, refl, inl (h, e, refl))
  with_source-Agrees x code (some (negsuc n)) h e up =
      let k = up (negsuc n) refl in absurd (ground arith)

  module _ (law : TruncsUp fl trunc) where
    minutes_of-Agrees :
        (course code : Json F) → Agrees course code (minutes_of fl trunc course code)
    minutes_of-Agrees null code = by_code-Agrees code
    minutes_of-Agrees (bool true) code = (1, refl, (refl, refl))
    minutes_of-Agrees (bool false) code = by_code-Agrees code
    minutes_of-Agrees (int z) code =
        if-cases (Agrees (int z) code) (ltb_ℤ (pos 0) z) (some (z, course_actual)) (by_code code)
          (int-Agrees z code)
          (λ e. int_code-Agrees z code (by_code code) (ground arith) (by_code-Agrees code))
    minutes_of-Agrees (float x) code =
        if-cases (Agrees (float x) code) (fl.lt (fl.lit (pos 0)) x) (with_source (trunc x))
          (by_code code) (λ e. with_source-Agrees x code (trunc x) e refl (λ z. law x z e))
          (λ e. float_code-Agrees x code (by_code code) e (by_code-Agrees code))
    minutes_of-Agrees (str s) code = by_code-Agrees code
    minutes_of-Agrees (list xs) code = by_code-Agrees code
    minutes_of-Agrees (dict d) code = by_code-Agrees code

    dwell_at-Dwells :
        (place : Fields F) (places : List (Fields F)) (given : Option (ℤ × Source))
        (rest : Option (List (Dwell F)))
        → Agrees (get "course_minutes" place) (get "category_group_code" place) given
        → Dwells places rest
        → Dwells (place ∷ places) (dwell_at fl trunc (get "content_id" place) given rest)
    dwell_at-Dwells place places none rest g h = (place, inl refl, g)
    dwell_at-Dwells place places (some (m, source)) none g h = (h.0, inr h.1, h.2)
    dwell_at-Dwells place places (some (m, source)) (some rest) (given, e, g) h = (
      (refl, given, g, subst (λ (z : ℤ). FoldsTo given (folded z)) (sym e) (folded-FoldsTo given)),
      h,
    )

    -- Where `int` of a float above 0 is not negative, the estimate gives one stay for each place, in
    -- order and under its id. The minutes of a place are those of its course where they are above 0, cut
    -- to a whole number, else those of its category in the table, else 45; the stay is 0 for 0 minutes,
    -- 10 for fewer than 10, 240 for more than 240, and else as long as the minutes, and its source says
    -- where they come from. No estimate is given only where the minutes of some place end with an
    -- exception: `int` of its course's time, or the search for a category that is a list or a dictionary.
    pub estimate_dwell-Dwells :
        (places : List (Fields F)) → Dwells places (estimate_dwell fl trunc places)
    unfolding estimate_dwell
    estimate_dwell-Dwells [] = tt
    estimate_dwell-Dwells (place ∷ places) =
        let course = get "course_minutes" place in
        let code = get "category_group_code" place in
        dwell_at-Dwells place places (minutes_of fl trunc course code)
          (estimate_dwell fl trunc places) (minutes_of-Agrees course code)
          (estimate_dwell-Dwells places)
