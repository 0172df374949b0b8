-- ===== src/Sealing/Params/Sealed.antt =====
-- Where the locations of app/routers/location_params.py come from when a key is configured.
use mathlib.Core.Path.{subst}
use map_service_hub.Base.{
  ◌≡◌, ◌≤◌, refl, sym, ap, true, false, not, ◌&&◌, ◌||◌, Option, none, some, String, if◌then◌else◌,
  if-cases, leb, arith, is_empty,
}
use map_service_hub.Base.Json.{
  Json, null, bool, int, float, str, list, dict, Items, Fields, get, Floats,
}
use map_service_hub.Kma.{Text}
use map_service_hub.Sealing.{Wire, Opened, opened, seal_error, escaped, is_sealed, open_seal}
use map_service_hub.Sealing.Opening.{IsAuthentic, open_seal-IsAuthentic}
use map_service_hub.Sealing.Params.{
  Resolved, resolved, rejected, ◌>>=◌, payload_of, Point, items_length, list_of, in_korea,
  number_of, sealing_required, opened_payload, opened_point, plain_point, plain_pair, check_point,
  opened_pair, check_pair, check_legs, resolve_point, resolve_pair, resolve_legs,
}
use map_service_hub.Sealing.Params.Chain.{
  bind-resolved, resolved-injective, check-resolved, neither, Holds, Holds-of,
}

module _ {F : Type 0} (fl : Floats F) (wire : Wire F) (now : F) (raw : Text) where
  -- the payload is that of the token of the request, sealed with the configured key and in time
  abbrev pub FromSeal : Option Text → Fields F → Type 0
  FromSeal loc payload =
      (token : Text) × (loc ≡ some token)
      × (is_sealed token ≡ true)
      × IsAuthentic fl wire now raw token payload

  payload_of-opened :
      (o : Opened F) (payload : Fields F) → payload_of o ≡ resolved payload → o ≡ opened payload
  payload_of-opened (opened p) payload e = ground arith
  payload_of-opened seal_error payload e = absurd (ground arith)
  payload_of-opened escaped payload e = absurd (ground arith)

  opened_payload-FromSeal :
      (loc : Option Text) (payload : Fields F)
      → opened_payload fl wire now raw loc ≡ resolved payload
      → FromSeal loc payload
  opened_payload-FromSeal none payload e = absurd (ground arith)
  opened_payload-FromSeal (some token) payload e =
      let (shaped, authentic) =
        open_seal-IsAuthentic fl wire now raw token payload
          (payload_of-opened (open_seal fl wire now raw token) payload e) in
      (token, refl, shaped, authentic)

  -- the coordinates of a point are the numbers of two fields
  abbrev pub IsPoint : String → String → Fields F → Point F → Type 0
  IsPoint lat_name lng_name payload p =
      (number_of fl wire (get lat_name payload) ≡ resolved p.lat)
      × (number_of fl wire (get lng_name payload) ≡ resolved p.lng)

  opened_point-IsPoint :
      (lat_name lng_name : String) (payload : Fields F) (p : Point F)
      → opened_point fl wire now raw lat_name lng_name payload ≡ resolved p
      → IsPoint lat_name lng_name payload p
  opened_point-IsPoint lat_name lng_name payload p e =
      let (lat, has_lat, rest) =
        bind-resolved (number_of fl wire (get lat_name payload))
          (λ lat.
            number_of fl wire (get lng_name payload)
            >>= (λ lng. resolved (record { lat = lat; lng = lng })))
          p e in
      let (lng, has_lng, last) =
        bind-resolved (number_of fl wire (get lng_name payload))
          (λ lng. resolved (record { lat = lat; lng = lng })) p rest in
      subst (IsPoint lat_name lng_name payload)
        (resolved-injective (record { lat = lat; lng = lng }) p last) (has_lat, has_lng)

  -- a location that the token's payload gives
  abbrev pub FromPayload : {A : Type 0} → Option Text → (Fields F → A → Type 0) → A → Type 0
  FromPayload loc P a = (payload : Fields F) × FromSeal loc payload × P payload a

  -- with a key configured, what a request resolves to comes through its token
  sealed-FromPayload :
      {A : Type 0} (loc : Option Text) (from_payload : Fields F → Resolved A) (plain : Resolved A)
      (check : A → Resolved A) (a : A)
      → is_empty raw ≡ false
      → (if sealing_required fl wire now raw
            then opened_payload fl wire now raw loc >>= from_payload
            else plain)
          >>= check
        ≡ resolved a
      → FromPayload loc (λ payload b. (from_payload payload >>= check) ≡ resolved b) a
  sealed-FromPayload loc from_payload plain check a configured =
      if-cases
        (λ r.
          (r >>= check) ≡ resolved a
          → FromPayload loc (λ payload b. (from_payload payload >>= check) ≡ resolved b) a)
        (sealing_required fl wire now raw) (opened_payload fl wire now raw loc >>= from_payload)
        plain
        (λ _ e.
          let (b, has_b, checked) =
            bind-resolved (opened_payload fl wire now raw loc >>= from_payload) check a e in
          let (payload, opens, gives) =
            bind-resolved (opened_payload fl wire now raw loc) from_payload b has_b in
          (
            payload,
            opened_payload-FromSeal loc payload opens,
            subst (λ r. (r >>= check) ≡ resolved a) (sym gives) checked,
          ))
        (λ off e. absurd (ground arith))

  -- a point in Korea, read from two fields
  abbrev pub IsPlace : String → String → Fields F → Point F → Type 0
  IsPlace lat_name lng_name payload p =
      IsPoint lat_name lng_name payload p × (in_korea fl wire p ≡ true)

  point-IsPlace :
      (payload : Fields F) (p : Point F)
      → opened_point fl wire now raw "lat" "lng" payload >>= check_point fl wire now raw
        ≡ resolved p
      → IsPlace "lat" "lng" payload p
  point-IsPlace payload p e =
      let (q, has_q, checked) =
        bind-resolved (opened_point fl wire now raw "lat" "lng" payload)
          (check_point fl wire now raw) p e in
      let (same, inside) = check-resolved (in_korea fl wire q) q p checked in
      subst (IsPlace "lat" "lng" payload) same
        (opened_point-IsPoint "lat" "lng" payload q has_q, inside)

  abbrev pub IsPair : Fields F → Point F × Point F → Type 0
  IsPair payload p =
      IsPlace "start_lat" "start_lng" payload p.0 × IsPlace "end_lat" "end_lng" payload p.1

  checked-pair :
      (start end : Point F) (p : Point F × Point F)
      → check_pair fl wire now raw (start, end) ≡ resolved p
      → ((start, end) ≡ p) × (in_korea fl wire start ≡ true) × (in_korea fl wire end ≡ true)
  checked-pair start end p =
      if-cases
        (λ r.
          r ≡ resolved p
          → ((start, end) ≡ p) × (in_korea fl wire start ≡ true) × (in_korea fl wire end ≡ true))
        (not (in_korea fl wire start) || not (in_korea fl wire end)) rejected
        (resolved (start, end)) (λ _ e. absurd (ground arith))
        (λ both e.
          let (first, second) = neither (in_korea fl wire start) (in_korea fl wire end) both in
          (resolved-injective (start, end) p e, first, second))

  opened_pair-IsPair :
      (payload : Fields F) (p : Point F × Point F)
      → opened_pair fl wire now raw payload >>= check_pair fl wire now raw ≡ resolved p
      → IsPair payload p
  opened_pair-IsPair payload p e =
      let (pair, has_pair, checked) =
        bind-resolved (opened_pair fl wire now raw payload) (check_pair fl wire now raw) p e in
      let (start, has_start, rest) =
        bind-resolved (opened_point fl wire now raw "start_lat" "start_lng" payload)
          (λ start.
            opened_point fl wire now raw "end_lat" "end_lng" payload
            >>= (λ end. resolved (start, end)))
          pair has_pair in
      let (end, has_end, both) =
        bind-resolved (opened_point fl wire now raw "end_lat" "end_lng" payload)
          (λ end. resolved (start, end)) pair rest in
      let paired : (start, end) ≡ pair = resolved-injective (start, end) pair both in
      let (same, first, second) =
        checked-pair start end p
          (subst (λ q. check_pair fl wire now raw q ≡ resolved p) (sym paired) checked) in
      subst (IsPair payload) same (
        (opened_point-IsPoint "start_lat" "start_lng" payload start has_start, first),
        (opened_point-IsPoint "end_lat" "end_lng" payload end has_end, second),
      )

  list-resolved : (v : Json F) (vs : Items F) → list_of v ≡ resolved vs → v ≡ list vs
  list-resolved (list ws) vs e = ap list (resolved-injective ws vs e)
  list-resolved null vs e = absurd (ground arith)
  list-resolved (bool b) vs e = absurd (ground arith)
  list-resolved (int z) vs e = absurd (ground arith)
  list-resolved (float x) vs e = absurd (ground arith)
  list-resolved (str t) vs e = absurd (ground arith)
  list-resolved (dict d) vs e = absurd (ground arith)

  abbrev pub AreLegs : Fields F → Items F → Type 0
  AreLegs payload legs =
      (get "legs" payload ≡ list legs) × (1 ≤ items_length legs) × (items_length legs ≤ 20)

  legs-AreLegs :
      (payload : Fields F) (legs : Items F)
      → list_of (get "legs" payload) >>= check_legs fl wire now raw ≡ resolved legs
      → AreLegs payload legs
  legs-AreLegs payload legs e =
      let (found, has, checked) =
        bind-resolved (list_of (get "legs" payload)) (check_legs fl wire now raw) legs e in
      let (same, few) =
        check-resolved (leb 1 (items_length found) && leb (items_length found) 20) found legs
          checked in
      subst (AreLegs payload) same
        (list-resolved (get "legs" payload) found has, ground arith, ground arith)

  -- With a key configured, what the readers of a point, of a pair and of legs return is what the token of
  -- the request carries, whatever plain values stand beside it: the token decrypts under the key, and
  -- was issued at most 300 seconds ago and at most 60 ahead; the points lie in Korea, the legs are 1 to 20.
  pub resolve-FromSeal :
      is_empty raw ≡ false
      → (loc : Option Text) (lat lng start_lat start_lng end_lat end_lng : Option F)
        (legs : Items F)
      → Holds (FromPayload loc (IsPlace "lat" "lng")) (resolve_point fl wire now raw loc lat lng)
        × Holds
            (FromPayload loc IsPair)
            (resolve_pair fl wire now raw loc start_lat start_lng end_lat end_lng)
        × Holds (FromPayload loc AreLegs) (resolve_legs fl wire now raw loc legs)
  unfolding resolve_point resolve_pair resolve_legs
  resolve-FromSeal configured loc lat lng start_lat start_lng end_lat end_lng legs = (
    Holds-of (FromPayload loc (IsPlace "lat" "lng")) (resolve_point fl wire now raw loc lat lng)
        (λ p e.
          let (payload, seal, gives) =
            sealed-FromPayload loc (opened_point fl wire now raw "lat" "lng")
              (plain_point fl wire now raw lat lng) (check_point fl wire now raw) p configured e in
          (payload, seal, point-IsPlace payload p gives)),
    Holds-of (FromPayload loc IsPair)
        (resolve_pair fl wire now raw loc start_lat start_lng end_lat end_lng)
        (λ p e.
          let (payload, seal, gives) =
            sealed-FromPayload loc (opened_pair fl wire now raw)
              (plain_pair fl wire now raw start_lat start_lng end_lat end_lng)
              (check_pair fl wire now raw) p configured e in
          (payload, seal, opened_pair-IsPair payload p gives)),
    Holds-of (FromPayload loc AreLegs) (resolve_legs fl wire now raw loc legs) (λ p e.
        let (payload, seal, gives) =
          sealed-FromPayload loc (λ payload. list_of (get "legs" payload)) (resolved legs)
            (check_legs fl wire now raw) p configured e in
        (payload, seal, legs-AreLegs payload p gives)),
  )
