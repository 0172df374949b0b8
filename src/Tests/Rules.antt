-- ===== src/Tests/Rules.antt =====
-- The rule engine with the integers as floats and a flat earth of one dimension.
use map_service_hub.Base.{some, List, [], ◌∷◌, arith}
use map_service_hub.Base.Int.{ℤ, pos}
use map_service_hub.Base.Json.{str, int, field, end, Fields}
use map_service_hub.Tests.Numbers.{whole}
use map_service_hub.Rules.{Trig}
use map_service_hub.Rules.Dwell.{TruncsUp, Dwells, estimate_dwell, estimate_dwell-Dwells}

abbrev flat : Trig ℤ
flat = record {
  radians = λ x. x;
  sin = λ x. some x;
  cos = λ x. some x;
  asin = λ x. some x;
  sqrt = λ x. some x;
  add = λ a b. a;
  mul = λ a b. b;
  half = λ x. x;
  square = λ x. x;
}

abbrev candidates : List (Fields ℤ)
candidates =
    field "lat" (int (pos 100)) (field "lng" (int (pos 0)) end)
    ∷ field "lat" (int (pos 9000)) (field "lng" (int (pos 0)) end)
    ∷ field "lat" (str "north") end
    ∷ []

abbrev places : List (Fields ℤ)
places =
    field "content_id" (str "a") (field "category_group_code" (str "CT1") end)
    ∷ field "content_id" (str "b") (field "course_minutes" (int (pos 600)) end)
    ∷ field "content_id" (str "c") (field "category_group_code" (str "AD5") end)
    ∷ []

some-TruncsUp : TruncsUp whole (λ x. some x)
some-TruncsUp x z h e = ground arith

estimate_dwell-Dwells_example :
    Dwells whole (λ x. some x) places (estimate_dwell whole (λ x. some x) places)
estimate_dwell-Dwells_example = estimate_dwell-Dwells whole (λ x. some x) some-TruncsUp places
