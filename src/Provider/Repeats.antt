-- ===== src/Provider/Repeats.antt =====
-- The test for repeated rows of `KMAClient.fetch_short_term` of app/clients/hub_clients.py.
use mathlib.Core.Path.{subst}
use map_service_hub.Base.{
  suc, ◌≡◌, ◌≤◌, refl, ap, Bool, false, not, List, [], ◌∷◌, ◌==◌, if◌then◌else◌, if-cases, length,
  all_by, any_by, All, arith,
}
use map_service_hub.Base.Json.{Fields}
use map_service_hub.Provider.{duplicate_items, type_error, ok, error, Python}
use map_service_hub.Provider.Client.{same_key, has_key, keys, unrepeated}

module _ {F : Type 0} (py : Python F) where
  -- no two items have the same date, time and category
  abbrev pub NoRepeat : List (Fields F) → Type 0
  NoRepeat [] = Unit
  NoRepeat (it ∷ items) = All (λ other. same_key py it other ≡ false) items × NoRepeat items

  none_same :
      (p : Fields F → Bool) (items : List (Fields F))
      → any_by p items ≡ false
      → All (λ other. p other ≡ false) items
  none_same p [] e = tt
  none_same p (it ∷ items) e = (ground arith, none_same p items (ground arith))

  length-keys : (items : List (Fields F)) → length (keys py items) ≤ length items
  length-keys [] = omega arith
  length-keys (it ∷ items) =
      let rest = length-keys items in
      if-cases (λ ks. length ks ≤ suc (length items)) (any_by (same_key py it) (keys py items))
        (keys py items) (it ∷ keys py items) (λ _. omega arith) (λ _. omega arith)

  keys-NoRepeat :
      (items : List (Fields F))
      → length (keys py items) ≡ length items
      → (keys py items ≡ items) × NoRepeat items
  keys-NoRepeat [] = λ e. (refl, tt)
  keys-NoRepeat (it ∷ items) =
      let bound = length-keys items in
      if-cases (λ ks. length ks ≡ suc (length items) → (ks ≡ it ∷ items) × NoRepeat (it ∷ items))
        (any_by (same_key py it) (keys py items)) (keys py items) (it ∷ keys py items)
        (λ _ e. absurd (omega arith))
        (λ fresh e.
          let (same, apart) = keys-NoRepeat items (omega arith) in
          let fresh_items : any_by (same_key py it) items ≡ false =
            subst (λ ks. any_by (same_key py it) ks ≡ false) same fresh in
          (ap (λ ks. it ∷ ks) same, (none_same (same_key py it) items fresh_items, apart)))

  pub unrepeated-NoRepeat :
      (items result : List (Fields F))
      → unrepeated py items ≡ ok result
      → (result ≡ items) × NoRepeat items
  unrepeated-NoRepeat items result =
      if-cases (λ r. r ≡ ok result → (result ≡ items) × NoRepeat items)
        (not (all_by (has_key py) items)) (error type_error)
        (if length (keys py items) == length items then ok items else error duplicate_items)
        (λ _ e. absurd (ground arith))
        (λ _.
          if-cases (λ r. r ≡ ok result → (result ≡ items) × NoRepeat items)
            (length (keys py items) == length items) (ok items) (error duplicate_items)
            (λ same e. (ground arith, (keys-NoRepeat items (ground arith)).1))
            (λ _ e. absurd (ground arith)))
