-- ===== src/Tests/Provider.antt =====
-- A provider that refuses the first request with a 429 and then gives three forecasts on two pages.
use map_service_hub.Base.{
  ℕ, zero, suc, ◌≡◌, ◌≤◌, refl, true, false, none, some, List, [], ◌∷◌, String, if◌then◌else◌, ◌==◌,
}
use map_service_hub.Base.Int.{ℤ, pos}
use map_service_hub.Base.Json.{Json, str, int, dict, list, nil, cons, field, end, Fields}
use map_service_hub.Kma.{codes}
use map_service_hub.Tests.Store.{show}
use map_service_hub.Provider.{ok, Reply, reply, Request, short_page, Python, check, total_of}
use map_service_hub.Provider.Client.{
  get_json, answer, fetch_pages, page_budget, fetch_short_term, fetch_mid_land, fetch_mid_temp,
  fetch_nowcast,
}
use map_service_hub.Provider.Repeats.{NoRepeat}
use map_service_hub.Provider.Pages.{Collects, fetch_short_term-IsEdition}
use map_service_hub.Provider.Requests.{Counts, fetch-bound}

abbrev python : Python ℤ
python = record {
  float_eq = λ a b. false;
  float_is = λ a z. false;
  show = show;
  is_digit = λ s. true;
}

abbrev forecast : String → Fields ℤ
forecast category =
    field "fcstDate" (str "20260101")
      (field "fcstTime" (str "1500") (field "category" (str category) end))

abbrev envelope : Json ℤ → Json ℤ → Json ℤ
envelope total items = dict (
    field "response"
      (dict (
        field "header" (dict (field "resultCode" (str "00") end)) (
          field "body"
            (dict (field "totalCount" total (field "items" (dict (field "item" items end)) end)))
            end)))
      end)

abbrev first_page : Json ℤ
first_page =
    envelope (int (pos 3)) (list (cons (dict (forecast "TMX")) (cons (dict (forecast "POP")) nil)))

-- a single item comes without its list, the count as a text
abbrev second_page : Json ℤ
second_page = envelope (str "3") (dict (forecast "TMN"))

abbrev page_of : Request → Json ℤ
page_of (short_page nx ny d t page) = if page == 1 then first_page else second_page
page_of _ = second_page

-- the state is the number of requests
abbrev send : Request → ℕ → Reply ℤ × ℕ
send r zero = (reply 429 none, 1)
send r (suc n) = (reply 200 (some (page_of r)), suc (suc n))

abbrev pause : ℕ → ℕ
pause n = n

abbrev edition : List (Fields ℤ)
edition = forecast "TMX" ∷ forecast "POP" ∷ forecast "TMN" ∷ []

fetched_edition :
    fetch_short_term python send pause 60 127 (codes "20260101") (codes "0200") 0 ≡ (ok edition, 3)
unfolding fetch_short_term fetch_pages answer get_json check total_of
fetched_edition = refl

fetch_short_term-IsEdition_example :
    Collects python send pause
      (short_page 60 127 (codes "20260101") (codes "0200"))
      3
      (page_budget python send pause)
      []
      0
      edition
      3
    × NoRepeat python edition
fetch_short_term-IsEdition_example =
    fetch_short_term-IsEdition python send pause 60 127 (codes "20260101") (codes "0200") 0 edition
      3 fetched_edition

counted : (r : Request) (n : ℕ) → (send r n).1 ≡ suc n
counted r zero = refl
counted r (suc n) = refl

send-Counts : Counts send pause (λ n. n)
send-Counts = record { by_send = counted; by_pause = λ s. refl }

fetch-bound_example :
    ((fetch_short_term python send pause 60 127 (codes "20260101") (codes "0200") 0).1 ≤ 10)
    × ((fetch_mid_land python send pause "11B00000" (codes "202601010600") 0).1 ≤ 2)
    × ((fetch_mid_temp python send pause "11B00000" (codes "202601010600") 0).1 ≤ 2)
    × ((fetch_nowcast python send pause 60 127 (codes "20260101") (codes "0200") 0).1 ≤ 2)
fetch-bound_example =
    fetch-bound python send pause (λ n. n) send-Counts 60 127 (codes "20260101") (codes "0200")
      "11B00000" (codes "202601010600") 0
