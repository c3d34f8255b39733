-- ===== src/Broadcast/Encoder/Delta.antt =====
-- What a delta holds for each vehicle.
use public_transport_tracker.Base.{
  string_eq, nat_eq, ℕ, ◌+◌, ◌==◌, ◌≡◌, refl, ◌∙◌, true, false, Option, none, some, List, [], ◌∷◌,
  ◌++◌, String, if◌then◌else◌, ==_iff, arith, count, is_some, leb, append-nil, append_assoc, ap,
  Bool-cases, inl, inr, ◌⊎◌, All,
}
use public_transport_tracker.GoMap.{GoMap, empty, lookup, Enumerates}
use public_transport_tracker.Float.{Float}
use public_transport_tracker.Broadcast.{VehicleUpdate}
use public_transport_tracker.Broadcast.Encoder.{
  DeltaEncoder, index_by_id, is_news, add_changed, add_removed, removal, encode,
}
use public_transport_tracker.Broadcast.Encoder.Find.{
  last_for, IsDistinct, last_for-append, lookup-index_by_id,
}

module _ {F : Type 0} ⦃f : Float F⦄ where
  -- What the first loop adds.
  pub news : GoMap String (VehicleUpdate F) → List (VehicleUpdate F) → List (VehicleUpdate F)
  news prev [] = []
  news prev (v ∷ current) =
      let rest = news prev current in
      if is_news (lookup v.vehicle_id prev) v then v ∷ rest else rest

  -- What the second loop adds.
  pub removals : GoMap String (VehicleUpdate F) → List String → List (VehicleUpdate F)
  removals current_map [] = []
  removals current_map (id ∷ order) =
      let rest = removals current_map order in
      if is_some (lookup id current_map) then rest else removal id ∷ rest

  add_changed-news :
      (prev : GoMap String (VehicleUpdate F)) (current delta : List (VehicleUpdate F))
      → add_changed prev current delta ≡ delta ++ news prev current
  unfolding add_changed news
  add_changed-news prev [] delta = rw append-nil
  add_changed-news prev (v ∷ current) delta =
      elim (Bool-cases (is_news (lookup v.vehicle_id prev) v)) [
        | inl e ↦
            rw (e, add_changed, news)
              (add_changed-news prev current (delta ++ v ∷ [])
                ∙ append_assoc delta (v ∷ []) (news prev current))
        | inr e ↦ rw (e, add_changed, news) (add_changed-news prev current delta)
      ]

  add_removed-removals :
      (current_map : GoMap String (VehicleUpdate F)) (order : List String)
      (delta : List (VehicleUpdate F))
      → add_removed current_map order delta ≡ delta ++ removals current_map order
  unfolding add_removed removals
  add_removed-removals current_map [] delta = rw append-nil
  add_removed-removals current_map (id ∷ order) delta =
      elim (Bool-cases (is_some (lookup id current_map))) [
        | inl e ↦ rw (e, add_removed, removals) (add_removed-removals current_map order delta)
        | inr e ↦
            rw (e, add_removed, removals)
              (add_removed-removals current_map order (delta ++ removal id ∷ [])
                ∙ append_assoc delta (removal id ∷ []) (removals current_map order))
      ]

  pub encode-append :
      (order : List String) (current : List (VehicleUpdate F)) (e : DeltaEncoder F)
      → (encode order current e).1
        ≡ news e.prev current ++ removals (index_by_id current empty) order
  unfolding encode
  encode-append order current e =
      add_removed-removals (index_by_id current empty) order (add_changed e.prev current [])
      ∙ ap (λ d. d ++ removals (index_by_id current empty) order)
          (add_changed-news e.prev current [])

  -- An update if it is news.
  abbrev pub if_news :
      Option (VehicleUpdate F) → Option (VehicleUpdate F) → Option (VehicleUpdate F)
  if_news prev none = none
  if_news prev (some v) = if is_news prev v then some v else none

  last_for-news :
      (id : String) (prev : GoMap String (VehicleUpdate F)) (current : List (VehicleUpdate F))
      → IsDistinct current
      → last_for id (news prev current) ≡ if_news (lookup id prev) (last_for id current)
  unfolding news
  last_for-news id prev [] h = refl
  last_for-news id prev (v ∷ current) (fresh, h) =
      ground (arith, ==_iff v.vehicle_id id, last_for-news id prev current h)

  last_for-removals :
      (id : String) (current_map : GoMap String (VehicleUpdate F)) (order : List String)
      → last_for id (removals current_map order) ≡ (
          if leb 1 (count id order)
          then (if is_some (lookup id current_map) then none else some (removal id))
          else none)
  unfolding removals
  last_for-removals id current_map [] = refl
  last_for-removals id current_map (i ∷ order) =
      ground (arith, ==_iff i id, last_for-removals id current_map order)

  -- The entry of a delta for a vehicle, from its last update before and its update now.
  abbrev pub delta_of :
      Option (VehicleUpdate F) → String → Option (VehicleUpdate F) → Option (VehicleUpdate F)
  delta_of none id none = none
  delta_of (some p) id none = some (removal id)
  delta_of prev id (some v) = if_news prev (some v)

  -- The last entry of a delta for a vehicle.
  pub last_for-encode :
      (order : List String) (current : List (VehicleUpdate F)) (e : DeltaEncoder F)
      → IsDistinct current
      → Enumerates order e.prev
      → (id : String)
      → last_for id (encode order current e).1
        ≡ delta_of (lookup id e.prev) id (last_for id current)
  last_for-encode order current e distinct visits id = rw (encode-append order current e) (
      last_for-append id (news e.prev current) (removals (index_by_id current empty) order)
      ∙ (unfold lookup in
          ground (
            arith,
            visits id,
            last_for-news id e.prev current distinct,
            last_for-removals id (index_by_id current empty) order,
            lookup-index_by_id id current empty,
          )))

  -- How many entries of a list are for a vehicle.
  abbrev pub count_for : String → List (VehicleUpdate F) → ℕ
  count_for id [] = 0
  count_for id (v ∷ us) = (if v.vehicle_id == id then 1 else 0) + count_for id us

  count_for-append :
      (id : String) (us vs : List (VehicleUpdate F))
      → count_for id (us ++ vs) ≡ count_for id us + count_for id vs
  count_for-append id [] vs = omega arith
  count_for-append id (u ∷ us) vs = omega (arith, count_for-append id us vs)

  count_for-news :
      (id : String) (prev : GoMap String (VehicleUpdate F)) (current : List (VehicleUpdate F))
      → IsDistinct current
      → count_for id (news prev current)
        ≡ (if is_some (if_news (lookup id prev) (last_for id current)) then 1 else 0)
  unfolding news
  count_for-news id prev [] h = refl
  count_for-news id prev (v ∷ current) (fresh, h) =
      ground (arith, ==_iff v.vehicle_id id, count_for-news id prev current h)

  count_for-removals :
      (id : String) (current_map : GoMap String (VehicleUpdate F)) (order : List String)
      → count_for id (removals current_map order)
        ≡ (if is_some (lookup id current_map) then 0 else count id order)
  unfolding removals
  count_for-removals id current_map [] = ground arith
  count_for-removals id current_map (i ∷ order) =
      ground (arith, ==_iff i id, count_for-removals id current_map order)

  -- For a list with one update per vehicle, and whatever order the range over the previous vehicles
  -- takes, the entries of the delta for each ID are: one, the update, for a vehicle that is new or
  -- changed; one, a removal marker, for a vehicle that is gone; and none for every other ID.
  pub encode-delta_of :
      (order : List String) (current : List (VehicleUpdate F)) (e : DeltaEncoder F)
      → IsDistinct current
      → Enumerates order e.prev
      → (id : String)
      → let expected = delta_of (lookup id e.prev) id (last_for id current) in
        let delta = (encode order current e).1 in
        (last_for id delta ≡ expected) × (count_for id delta ≡ (if is_some expected then 1 else 0))
  encode-delta_of order current e distinct visits id = (
    last_for-encode order current e distinct visits id,
    rw (encode-append order current e) (
        count_for-append id (news e.prev current) (removals (index_by_id current empty) order)
        ∙ (unfold lookup in
            ground (
              arith,
              visits id,
              count_for-news id e.prev current distinct,
              count_for-removals id (index_by_id current empty) order,
              lookup-index_by_id id current empty,
            ))),
  )

  -- Where nothing is news, and every key of the range is there, nothing is sent.
  pub news-nil :
      (prev : GoMap String (VehicleUpdate F)) (current : List (VehicleUpdate F))
      → All (λ v. is_news (lookup v.vehicle_id prev) v ≡ false) current
      → news prev current ≡ []
  unfolding news
  news-nil prev [] h = refl
  news-nil prev (v ∷ current) (hv, h) = rw hv (news-nil prev current h)

  pub removals-nil :
      (current_map : GoMap String (VehicleUpdate F)) (order : List String)
      → ((id : String) → count id order ≡ 0 ⊎ (is_some (lookup id current_map) ≡ true))
      → removals current_map order ≡ []
  unfolding removals
  removals-nil current_map [] h = refl
  removals-nil current_map (i ∷ order) h =
      let rest = removals-nil current_map order λ id. ground (arith, h id) in
      ground (arith, h i, ==_iff i i)
