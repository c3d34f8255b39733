-- ===== src/Broadcast/Encoder/Find.antt =====
-- The last update of a vehicle in a list, and how the encoder's index returns it.
use public_transport_tracker.Base.{
  string_eq, ◌≡◌, refl, Option, none, some, List, [], ◌∷◌, ◌++◌, String, if◌then◌else◌, ◌==◌,
  ==_iff, or_else, arith,
}
use public_transport_tracker.GoMap.{GoMap, lookup, assign, IsMap}
use public_transport_tracker.GoMap.Laws.{lookup-assign, assign-IsMap}
use public_transport_tracker.Float.{Float}
use public_transport_tracker.Broadcast.{VehicleUpdate}
use public_transport_tracker.Broadcast.Encoder.{index_by_id}

module _ {F : Type 0} where
  abbrev pub last_for : String → List (VehicleUpdate F) → Option (VehicleUpdate F)
  last_for id [] = none
  last_for id (u ∷ us) = or_else (last_for id us) (if u.vehicle_id == id then some u else none)

  -- No two updates of the list are of one vehicle.
  abbrev pub IsDistinct : List (VehicleUpdate F) → Type 0
  IsDistinct [] = Unit
  IsDistinct (u ∷ us) = (last_for u.vehicle_id us ≡ none) × IsDistinct us

  pub last_for-append :
      (id : String) (xs ys : List (VehicleUpdate F))
      → last_for id (xs ++ ys) ≡ or_else (last_for id ys) (last_for id xs)
  last_for-append id [] ys = ground arith
  last_for-append id (x ∷ xs) ys = ground (arith, last_for-append id xs ys)

  pub last_for-id :
      (id : String) (us : List (VehicleUpdate F)) (u : VehicleUpdate F)
      → last_for id us ≡ some u
      → u.vehicle_id ≡ id
  last_for-id id [] u h = ground arith
  last_for-id id (x ∷ us) u h = ground (arith, ==_iff x.vehicle_id id, last_for-id id us u)

module _ {F : Type 0} ⦃f : Float F⦄ where
  -- The index holds, for each ID, the last update of the list, or else what it held before.
  pub lookup-index_by_id :
      (id : String) (us : List (VehicleUpdate F)) (m : GoMap String (VehicleUpdate F))
      → lookup id (index_by_id us m) ≡ or_else (last_for id us) (lookup id m)
  unfolding index_by_id
  lookup-index_by_id id [] m = refl
  lookup-index_by_id id (u ∷ us) m =
      ground (
        arith,
        lookup-index_by_id id us (assign u.vehicle_id u m),
        lookup-assign id u.vehicle_id u m,
      )

  pub index_by_id-IsMap :
      (us : List (VehicleUpdate F)) (m : GoMap String (VehicleUpdate F))
      → IsMap m
      → IsMap (index_by_id us m)
  unfolding index_by_id
  index_by_id-IsMap [] m h = h
  index_by_id-IsMap (u ∷ us) m h = index_by_id-IsMap us _ (assign-IsMap u.vehicle_id u m h)
