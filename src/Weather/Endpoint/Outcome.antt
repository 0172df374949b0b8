-- ===== src/Weather/Endpoint/Outcome.antt =====
-- Which answer `get_weather` gives: the three refusals of a range, the unknown region, the response.
use map_service_hub.Base.{ℕ, ◌≡◌, String, arith, Option-cases, inl, inr}
use map_service_hub.Base.Json.{Floats}
use map_service_hub.Weather.Rows.{RegionLookup}
use map_service_hub.Weather.Endpoint.{Repo, WeatherResponse, ok, respond, get_weather}

module _ {F : Type 0} (fl : Floats F) where
  -- A success is the response for a region that the repository knows.
  pub get_weather_ok :
      (repo : Repo) (today now : ℕ) (province city : String) (date_start date_end : ℕ)
      (w : WeatherResponse)
      → get_weather fl repo today now province city date_start date_end ≡ ok w
      → (region : RegionLookup) × (respond fl repo region city date_start date_end today now ≡ w)
  unfolding get_weather
  get_weather_ok repo today now province city s e w h =
      elim (Option-cases (repo.lookup_region_by_name province city)) [
        | inl gone ↦ absurd (ground arith)
        | inr (region, found) ↦ (region, ground arith)
      ]
