-- ===== src/Provider/Pages.antt =====
-- Which editions `KMAClient.fetch_short_term` of app/clients/hub_clients.py takes.
use mathlib.Core.Path.{subst}
use map_service_hub.Base.{
  ℕ, ◌≡◌, ◌<◌, refl, sym, ap, ◌∙◌, true, not, List, [], ◌∷◌, ◌++◌, Option, none, some, ◌==◌,
  if◌then◌else◌, if-cases, leb, length, arith,
}
use map_service_hub.Base.Json.{Fields, get}
use map_service_hub.Kma.{Text}
use map_service_hub.Provider.{
  invalid_total, Fetched, ok, error, Reply, Request, short_page, Python, total_of,
}
use map_service_hub.Provider.Client.{
  unrepeated, answer, close_page, agrees, with_total, add_page, fetch_pages, page_budget,
  fetch_short_term,
}
use map_service_hub.Provider.Repeats.{NoRepeat, unrepeated-NoRepeat}

module _ {F : Type 0} (py : Python F) where
  module _ {S : Type 0} (send : Request → S → Reply F × S) (pause : S → S)
      (request : ℕ → Request) where
    -- Asked for the pages in turn, the provider gives a batch for each, announces the same row count
    -- with each, and the items reach it with the last page and not before.
    pub data Collects (total : ℕ)
        : List ℕ → List (Fields F) → S → List (Fields F) → S → Type 0 where
      last :
          (page : ℕ) (pages : List ℕ) (before : List (Fields F)) (s : S) (body : Fields F)
          (it : Fields F) (batch : List (Fields F)) (after_page : S)
          → answer py send pause (request page) s ≡ (ok (body, it ∷ batch), after_page)
          → total_of (get "totalCount" body) ≡ some total
          → length (before ++ (it ∷ batch)) ≡ total
          → Collects total (page ∷ pages) before s (before ++ (it ∷ batch)) after_page
      more :
          (page : ℕ) (pages : List ℕ) (before : List (Fields F)) (s : S) (body : Fields F)
          (it : Fields F) (batch : List (Fields F)) (after_page : S) (items : List (Fields F))
          (at_end : S)
          → answer py send pause (request page) s ≡ (ok (body, it ∷ batch), after_page)
          → total_of (get "totalCount" body) ≡ some total
          → length (before ++ (it ∷ batch)) < total
          → Collects total pages (before ++ (it ∷ batch)) after_page items at_end
          → Collects total (page ∷ pages) before s items at_end

    -- an edition of that many items, with no item repeated
    abbrev IsTaken : Option ℕ → List ℕ → List (Fields F) → S → List (Fields F) → S → Type 0
    IsTaken expected pages before s items at_end =
        (total : ℕ) × (agrees py send pause expected total ≡ true)
        × Collects total pages before s items at_end
        × (length items ≡ total)
        × NoRepeat py items

    abbrev Loop : Type 0
    Loop = List (Fields F) → Option ℕ → S → Fetched (List (Fields F)) × S

    -- what the rest of the loop takes is an edition
    abbrev Sound : List ℕ → Loop → Type 0
    Sound pages again =
        (before : List (Fields F)) (expected : Option ℕ) (s : S) (items : List (Fields F))
        (at_end : S)
        → again before expected s ≡ (ok items, at_end)
        → IsTaken expected pages before s items at_end

    module _ (page : ℕ) (pages : List ℕ) (again : Loop) (sound : Sound pages again)
        (before : List (Fields F)) (expected : Option ℕ) (s : S) (items : List (Fields F))
        (at_end : S) where
      module _ (body it : Fields F) (batch : List (Fields F)) (after_page : S)
          (answers : answer py send pause (request page) s ≡ (ok (body, it ∷ batch), after_page))
          (total : ℕ) (announces : total_of (get "totalCount" body) ≡ some total)
          (agreed : agrees py send pause expected total ≡ true) where
        abbrev so_far : List (Fields F)
        so_far = before ++ (it ∷ batch)

        close_page-IsTaken :
            close_page py send pause again so_far total after_page ≡ (ok items, at_end)
            → IsTaken expected (page ∷ pages) before s items at_end
        close_page-IsTaken =
            if-cases
              (λ r. r ≡ (ok items, at_end) → IsTaken expected (page ∷ pages) before s items at_end)
              (not (leb total (length so_far))) (again so_far (some total) after_page)
              (if not (total == length so_far)
                then (error invalid_total, after_page)
                else (unrepeated py so_far, after_page))
              (λ short e.
                let (t, same, rest, count, apart) =
                  sound so_far (some total) after_page items at_end e in
                let q : t ≡ total = ground arith in
                let rest' = subst (λ n. Collects n pages so_far after_page items at_end) q rest in
                (
                  total,
                  agreed,
                  more page pages before s body it batch after_page items at_end answers announces
                      (ground arith) rest',
                  count ∙ q,
                  apart,
                ))
              (λ enough.
                if-cases
                  (λ r.
                    r ≡ (ok items, at_end) → IsTaken expected (page ∷ pages) before s items at_end)
                  (not (total == length so_far)) (error invalid_total, after_page)
                  (unrepeated py so_far, after_page) (λ _ e. absurd (ground arith))
                  (λ exact e.
                    let (same, apart) =
                      unrepeated-NoRepeat py so_far items
                        (ap (λ (r : Fetched (List (Fields F)) × S). r.0) e) in
                    let here : after_page ≡ at_end =
                      ap (λ (r : Fetched (List (Fields F)) × S). r.1) e in
                    let count : length so_far ≡ total = ground arith in
                    let taken : IsTaken expected (page ∷ pages) before s so_far after_page = (
                      total,
                      agreed,
                      last page pages before s body it batch after_page answers announces count,
                      count,
                      apart,
                    ) in
                    subst (λ u. IsTaken expected (page ∷ pages) before s items u) here
                      (subst (λ is. IsTaken expected (page ∷ pages) before s is after_page)
                        (sym same) taken)))

      with_total-IsTaken :
          (body it : Fields F) (batch : List (Fields F)) (after_page : S) (raw : Option ℕ)
          → answer py send pause (request page) s ≡ (ok (body, it ∷ batch), after_page)
          → total_of (get "totalCount" body) ≡ raw
          → with_total py send pause again (before ++ (it ∷ batch)) expected raw after_page
            ≡ (ok items, at_end)
          → IsTaken expected (page ∷ pages) before s items at_end
      with_total-IsTaken body it batch after_page none answers announces =
          λ e. absurd (ground arith)
      with_total-IsTaken body it batch after_page (some total) answers announces =
          if-cases
            (λ r. r ≡ (ok items, at_end) → IsTaken expected (page ∷ pages) before s items at_end)
            (not (agrees py send pause expected total)) (error invalid_total, after_page)
            (close_page py send pause again (before ++ (it ∷ batch)) total after_page)
            (λ _ e. absurd (ground arith))
            (λ agreed.
              close_page-IsTaken body it batch after_page answers total announces (ground arith))

      add_page-IsTaken :
          (got : Fetched (Fields F × List (Fields F))) (after_page : S)
          → answer py send pause (request page) s ≡ (got, after_page)
          → add_page py send pause again before expected got after_page ≡ (ok items, at_end)
          → IsTaken expected (page ∷ pages) before s items at_end
      add_page-IsTaken (error p) after_page answers e = absurd (ground arith)
      add_page-IsTaken (ok (body, [])) after_page answers e = absurd (ground arith)
      add_page-IsTaken (ok (body, it ∷ batch)) after_page answers e =
          with_total-IsTaken body it batch after_page (total_of (get "totalCount" body)) answers
            refl e

    fetch_pages-IsTaken : (pages : List ℕ) → Sound pages (fetch_pages py send pause request pages)
    unfolding fetch_pages
    fetch_pages-IsTaken [] before expected s items at_end e = absurd (ground arith)
    fetch_pages-IsTaken (page ∷ pages) before expected s items at_end e =
        let got = answer py send pause (request page) s in
        add_page-IsTaken page pages (fetch_pages py send pause request pages)
          (fetch_pages-IsTaken pages) before expected s items at_end got.0 got.1 refl e

  module _ {S : Type 0} (send : Request → S → Reply F × S) (pause : S → S) where
    -- A successful fetch has asked for pages 1, 2, … in turn, at most five; each gave at least one item
    -- and the same row count, the items of the pages in order are the result and as many as that count,
    -- which they reached with the last page only, and no two have the same date, time and category.
    pub fetch_short_term-IsEdition :
        (nx ny : ℕ) (base_date base_time : Text) (s : S) (items : List (Fields F)) (at_end : S)
        → fetch_short_term py send pause nx ny base_date base_time s ≡ (ok items, at_end)
        → Collects send pause
            (short_page nx ny base_date base_time)
            (length items)
            (page_budget py send pause)
            []
            s
            items
            at_end
          × NoRepeat py items
    unfolding fetch_short_term
    fetch_short_term-IsEdition nx ny base_date base_time s items at_end e =
        let request = short_page nx ny base_date base_time in
        let (total, agreed, pages, count, apart) =
          fetch_pages-IsTaken send pause request (page_budget py send pause) [] none s items at_end
            e in
        (
          subst (λ n. Collects send pause request n (page_budget py send pause) [] s items at_end)
              (sym count) pages,
          apart,
        )
