-- ===== src/Broadcast/Encoder/Replay.antt =====
-- A receiver that applies every delta, against the encoder.
use public_transport_tracker.Base.{
  string_eq, ◌≡◌, refl, ◌∙◌, ap, Bool, false, Option, none, some, List, [], ◌∷◌, String,
  if◌then◌else◌, ==_iff, ==_refl, arith, All, bool_eq,
}
use public_transport_tracker.Base.Int.{int_eq}
use public_transport_tracker.GoMap.{GoMap, empty, lookup, assign, delete, IsMap, Enumerates}
use public_transport_tracker.GoMap.Laws.{lookup-assign, lookup-delete, assign-IsMap, delete-IsMap}
use public_transport_tracker.Float.{Float, IsSelfClose}
use public_transport_tracker.Broadcast.{VehicleUpdate}
use public_transport_tracker.Broadcast.Encoder.{DeltaEncoder, index_by_id, changed, is_news, encode}
use public_transport_tracker.Broadcast.Encoder.Find.{
  index_by_id-IsMap, last_for, IsDistinct, lookup-index_by_id,
}
use public_transport_tracker.Broadcast.Encoder.Delta.{
  delta_of, last_for-encode, encode-append, news-nil, removals-nil,
}

All-map :
    {A : Type 0} {P Q : A → Type 0} (xs : List A) → ((x : A) → P x → Q x) → All P xs → All Q xs
All-map [] g h = tt
All-map (x ∷ xs) g (hx, h) = (g x hx, All-map xs g h)

module _ {F : Type 0} where
  -- What a receiver does with a delta: it forgets the removed vehicles and stores the others.
  unfoldable pub apply :
      List (VehicleUpdate F) → GoMap String (VehicleUpdate F) → GoMap String (VehicleUpdate F)
  apply [] view = view
  apply (u ∷ us) view =
      apply us (if u.removed then delete u.vehicle_id view else assign u.vehicle_id u view)

  abbrev pub effect : Option (VehicleUpdate F) → Option (VehicleUpdate F) → Option (VehicleUpdate F)
  effect none old = old
  effect (some u) old = if u.removed then none else some u

  apply_one-IsMap :
      (u : VehicleUpdate F) (view : GoMap String (VehicleUpdate F))
      → IsMap view
      → IsMap (if u.removed then delete u.vehicle_id view else assign u.vehicle_id u view)
  apply_one-IsMap u view h =
      ground (arith, delete-IsMap u.vehicle_id view h, assign-IsMap u.vehicle_id u view h)

  pub lookup-apply :
      (id : String) (us : List (VehicleUpdate F)) (view : GoMap String (VehicleUpdate F))
      → IsMap view
      → lookup id (apply us view) ≡ effect (last_for id us) (lookup id view)
  unfolding apply
  lookup-apply id [] view h = refl
  lookup-apply id (u ∷ us) view h =
      let next = if u.removed then delete u.vehicle_id view else assign u.vehicle_id u view in
      ground (
        arith,
        ==_iff u.vehicle_id id,
        lookup-apply id us next (apply_one-IsMap u view h),
        lookup-assign id u.vehicle_id u view,
        lookup-delete id u.vehicle_id view h,
      )

  pub apply-IsMap :
      (us : List (VehicleUpdate F)) (view : GoMap String (VehicleUpdate F))
      → IsMap view
      → IsMap (apply us view)
  unfolding apply
  apply-IsMap [] view h = h
  apply-IsMap (u ∷ us) view h = apply-IsMap us _ (apply_one-IsMap u view h)

  -- The updates made from states are never marked as removed.
  abbrev pub NoneRemoved : List (VehicleUpdate F) → Type 0
  NoneRemoved = All λ u. u.removed ≡ false

  abbrev pub is_removed : Option (VehicleUpdate F) → Bool
  is_removed none = false
  is_removed (some u) = u.removed

  pub last_for-removed :
      (id : String) (us : List (VehicleUpdate F))
      → NoneRemoved us
      → is_removed (last_for id us) ≡ false
  last_for-removed id [] h = refl
  last_for-removed id (x ∷ us) (hx, h) = ground (arith, last_for-removed id us h)

  All-last_for :
      (us : List (VehicleUpdate F))
      → IsDistinct us
      → All (λ v. last_for v.vehicle_id us ≡ some v) us
  All-last_for [] h = tt
  All-last_for (u ∷ us) (fresh, h) =
      (ground (arith, ==_refl u.vehicle_id), All-map us (λ v e. ground arith) (All-last_for us h))

module _ {F : Type 0} ⦃f : Float F⦄ where
  -- What the receiver has of a vehicle after a delta.
  abbrev pub expected :
      Option (VehicleUpdate F)
      → Option (VehicleUpdate F)
      → Option (VehicleUpdate F)
      → Option (VehicleUpdate F)
  expected prev none old = none
  expected prev (some v) old = if is_news prev v then some v else old

  -- What any receiver has of a vehicle after a delta: what the delta says of it, or what it had.
  pub lookup-apply-encode :
      (order : List String) (current : List (VehicleUpdate F)) (e : DeltaEncoder F)
      (view : GoMap String (VehicleUpdate F))
      → IsDistinct current
      → Enumerates order e.prev
      → IsMap view
      → (id : String)
      → lookup id (apply (encode order current e).1 view)
        ≡ effect (delta_of (lookup id e.prev) id (last_for id current)) (lookup id view)
  lookup-apply-encode order current e view distinct visits is_map id =
      lookup-apply id (encode order current e).1 view is_map
      ∙ ap (λ d. effect d (lookup id view)) (last_for-encode order current e distinct visits id)

  -- A receiver that has no vehicle beyond those that the encoder sent has, after the next delta,
  -- exactly the vehicles of the current list: with their current update if they are new or changed,
  -- and with what it had of them if they are not.
  pub apply-encode :
      (order : List String) (current : List (VehicleUpdate F)) (e : DeltaEncoder F)
      (view : GoMap String (VehicleUpdate F))
      → IsDistinct current
      → NoneRemoved current
      → Enumerates order e.prev
      → IsMap view
      → ((id : String) → lookup id e.prev ≡ none → lookup id view ≡ none)
      → (id : String)
      → lookup id (apply (encode order current e).1 view)
        ≡ expected (lookup id e.prev) (last_for id current) (lookup id view)
  apply-encode order current e view distinct present visits is_map within id = ground (
    arith,
    lookup-apply-encode order current e view distinct visits is_map id,
    last_for-removed id current present,
    within id,
  )

  pub lookup-prev-encode :
      (order : List String) (current : List (VehicleUpdate F)) (e : DeltaEncoder F) (id : String)
      → lookup id (encode order current e).0.prev ≡ last_for id current
  unfolding encode lookup
  lookup-prev-encode order current e id = ground (arith, lookup-index_by_id id current empty)

  pub prev-encode-IsMap :
      (order : List String) (current : List (VehicleUpdate F)) (e : DeltaEncoder F)
      → IsMap (encode order current e).0.prev
  unfolding encode
  prev-encode-IsMap order current e = index_by_id-IsMap current empty tt

  -- An update is never changed from itself.
  changed_self : IsSelfClose F → (v : VehicleUpdate F) → changed v v ≡ false
  unfolding changed
  changed_self close v = ground (
    arith,
    ==_refl v.trip_id,
    ==_refl v.route_id,
    ==_refl ⦃e = int_eq⦄ v.delay_seconds,
    ==_refl ⦃e = bool_eq⦄ v.removed,
    close.self_close v.lat 1 7,
    close.self_close v.lon 1 7,
    close.self_close v.bearing 1 7,
    close.self_close v.speed 1 7,
  )

  -- Encoding a list with one update per vehicle a second time yields nothing, whatever the encoder
  -- held before and whatever orders the two ranges take.
  pub encode_again :
      (order order' : List String) (current : List (VehicleUpdate F)) (e : DeltaEncoder F)
      → IsSelfClose F
      → IsDistinct current
      → Enumerates order' (encode order current e).0.prev
      → (encode order' current (encode order current e).0).1 ≡ []
  encode_again order order' current e close distinct visits =
      let e' = (encode order current e).0 in
      let known : (id : String) → lookup id e'.prev ≡ last_for id current =
        lookup-prev-encode order current e in
      encode-append order' current e'
      ∙ rw
          (
            news-nil e'.prev current (
                All-map current (λ v s. ground (arith, known v.vehicle_id, changed_self close v))
                  (All-last_for current distinct)),
            removals-nil (index_by_id current empty) order'
                λ id. unfold encode in ground (arith, visits id, known id),
          )
          refl
