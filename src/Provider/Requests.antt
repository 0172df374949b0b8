-- ===== src/Provider/Requests.antt =====
-- How many requests the calls of `KMAClient` of app/clients/hub_clients.py send.
use map_service_hub.Base.{
  ℕ, suc, ◌+◌, ◌*◌, ◌≡◌, ◌≤◌, not, List, [], ◌∷◌, ◌++◌, Option, none, some, String, ◌==◌,
  if◌then◌else◌, if-cases, leb, length, arith,
}
use map_service_hub.Base.Json.{Json, Fields, get}
use map_service_hub.Kma.{Text}
use map_service_hub.Provider.{
  invalid_total, Fetched, ok, error, Reply, no_reply, reply, Request, short_page, mid_land,
  mid_temp, nowcast, Python, total_of,
}
use map_service_hub.Provider.Client.{
  read_reply, or_again, get_json, answer, unrepeated, close_page, agrees, with_total, add_page,
  fetch_pages, page_budget, fetch_short_term, fetch_mid_land, fetch_mid_temp, fetch_nowcast,
}

-- `sent` counts the requests of the transport.
pub record Counts {F S : Type 0} (send : Request → S → Reply F × S) (pause : S → S) (sent : S → ℕ)
    : Type 0 where
  pub by_send : (r : Request) (s : S) → sent (send r s).1 ≡ suc (sent s)
  pub by_pause : (s : S) → sent (pause s) ≡ sent s

module _ {F : Type 0} (py : Python F) {S : Type 0} (send : Request → S → Reply F × S)
    (pause : S → S) (sent : S → ℕ) (counts : Counts send pause sent) where
  or_again-bound :
      (r : Request) (first : Reply F) (s : S)
      → sent (or_again py send pause r first s).1 ≤ sent s + 1
  or_again-bound r no_reply s = omega arith
  or_again-bound r (reply status json) s =
      let again = counts.by_send r (pause s) in
      let slept = counts.by_pause s in
      if-cases (λ (x : Fetched (Json F) × S). sent x.1 ≤ sent s + 1) (status == 429)
        (read_reply py send pause (send r (pause s)).0, (send r (pause s)).1)
        (read_reply py send pause (reply status json), s) (λ _. omega arith) (λ _. omega arith)

  answer-bound : (r : Request) (s : S) → sent (answer py send pause r s).1 ≤ sent s + 2
  unfolding answer get_json
  answer-bound r s =
      let first = counts.by_send r s in
      let rest = or_again-bound r (send r s).0 (send r s).1 in omega arith

  abbrev Loop : Type 0
  Loop = List (Fields F) → Option ℕ → S → Fetched (List (Fields F)) × S

  abbrev AtMost : ℕ → Loop → Type 0
  AtMost n again =
      (items : List (Fields F)) (expected : Option ℕ) (s : S)
      → sent (again items expected s).1 ≤ sent s + n

  with_total-bound :
      (n : ℕ) (again : Loop) (items : List (Fields F)) (expected raw : Option ℕ) (s : S)
      → AtMost n again
      → sent (with_total py send pause again items expected raw s).1 ≤ sent s + n
  with_total-bound n again items expected none s h = omega arith
  with_total-bound n again items expected (some total) s h =
      let bound = λ (x : Fetched (List (Fields F)) × S). sent x.1 ≤ sent s + n in
      if-cases bound (not (agrees py send pause expected total)) (error invalid_total, s)
        (close_page py send pause again items total s) (λ _. omega arith)
        (λ _.
          if-cases bound (not (leb total (length items))) (again items (some total) s)
            (if not (total == length items)
              then (error invalid_total, s)
              else (unrepeated py items, s))
            (λ _. h items (some total) s)
            (λ _.
              if-cases bound (not (total == length items)) (error invalid_total, s)
                (unrepeated py items, s) (λ _. omega arith) (λ _. omega arith)))

  add_page-bound :
      (n : ℕ) (again : Loop) (items : List (Fields F)) (expected : Option ℕ)
      (got : Fetched (Fields F × List (Fields F))) (s : S)
      → AtMost n again
      → sent (add_page py send pause again items expected got s).1 ≤ sent s + n
  add_page-bound n again items expected (error p) s h = omega arith
  add_page-bound n again items expected (ok (body, [])) s h = omega arith
  add_page-bound n again items expected (ok (body, it ∷ batch)) s h =
      with_total-bound n again (items ++ (it ∷ batch)) expected (total_of (get "totalCount" body)) s
        h

  fetch_pages-bound :
      (request : ℕ → Request) (pages : List ℕ)
      → AtMost (2 * length pages) (fetch_pages py send pause request pages)
  unfolding fetch_pages
  fetch_pages-bound request [] items expected s = omega arith
  fetch_pages-bound request (page ∷ pages) items expected s =
      let first = answer-bound (request page) s in
      let got = answer py send pause (request page) s in
      let rest =
        add_page-bound (2 * length pages) (fetch_pages py send pause request pages) items expected
          got.0 got.1 (fetch_pages-bound request pages) in
      omega arith

  -- Whatever it returns or raises, a fetch of a short-term edition has sent at most ten requests, and one
  -- of a mid-term forecast or of an observation at most two.
  pub fetch-bound :
      (nx ny : ℕ) (base_date base_time : Text) (reg_id : String) (tm_fc : Text) (s : S)
      → (sent (fetch_short_term py send pause nx ny base_date base_time s).1 ≤ sent s + 10)
        × (sent (fetch_mid_land py send pause reg_id tm_fc s).1 ≤ sent s + 2)
        × (sent (fetch_mid_temp py send pause reg_id tm_fc s).1 ≤ sent s + 2)
        × (sent (fetch_nowcast py send pause nx ny base_date base_time s).1 ≤ sent s + 2)
  unfolding fetch_short_term fetch_mid_land fetch_mid_temp fetch_nowcast
  fetch-bound nx ny base_date base_time reg_id tm_fc s = (
    fetch_pages-bound (short_page nx ny base_date base_time) (page_budget py send pause) [] none s,
    answer-bound (mid_land reg_id tm_fc) s,
    answer-bound (mid_temp reg_id tm_fc) s,
    answer-bound (nowcast nx ny base_date base_time) s,
  )
