-- ===== src/Vehicle/Manager/Isolation.antt =====
-- Vehicles do not disturb one another: the manager refines one independent tracker per vehicle.
use public_transport_tracker.Base.{
  string_eq, ◌≡◌, refl, Option, some, List, [], ◌∷◌, String, if◌then◌else◌, get_or, arith, ◌==◌,
  ==_iff,
}
use public_transport_tracker.Float.{Float}
use public_transport_tracker.GoMap.{lookup}
use public_transport_tracker.Vehicle.{RawUpdate, PositionFilter, RouteSnapper}
use public_transport_tracker.Vehicle.Manager.{
  VehicleEntry, DefaultStateManager, fresh_entry, process, update,
}
use public_transport_tracker.Vehicle.Manager.Reads.{IsValid, lookup-update, update-IsValid}

-- The updates of one vehicle, in their order.
abbrev pub updates_of : {F : Type 0} → String → List (RawUpdate F) → List (RawUpdate F)
updates_of id [] = []
updates_of id (u ∷ us) =
    let rest = updates_of id us in if u.vehicle_id == id then u ∷ rest else rest

module _ {F : Type 0} ⦃f : Float F⦄ (pf : PositionFilter F) (snap : RouteSnapper F) where
  open pf use {Filter}

  -- The handler that `runServe` gives to the poller: a batch of updates, one after the other.
  unfoldable pub handle_updates :
      List (RawUpdate F) → DefaultStateManager F Filter → DefaultStateManager F Filter
  handle_updates [] m = m
  handle_updates (u ∷ us) m = handle_updates us (update pf snap u m)

  -- The specification: one vehicle alone, with no map and no other vehicle.
  abbrev pub track :
      List (RawUpdate F) → Option (VehicleEntry F Filter) → Option (VehicleEntry F Filter)
  track [] o = o
  track (u ∷ us) o = track us (some (process pf snap (get_or o (fresh_entry pf snap)) u))

  -- The entry of a vehicle after a batch is what its own updates alone, in their order, make of the
  -- entry that it had, whatever updates of other vehicles stand between them.
  pub handle_updates-track :
      (id : String) (us : List (RawUpdate F)) (m : DefaultStateManager F Filter)
      → lookup id (handle_updates us m).vehicles ≡ track (updates_of id us) (lookup id m.vehicles)
  unfolding handle_updates
  handle_updates-track id [] m = refl
  handle_updates-track id (u ∷ us) m = ground (
    arith,
    ==_iff u.vehicle_id id,
    lookup-update pf snap id u m,
    handle_updates-track id us (update pf snap u m),
  )

  pub handle_updates-IsValid :
      (us : List (RawUpdate F)) (m : DefaultStateManager F Filter)
      → IsValid m
      → IsValid (handle_updates us m)
  unfolding handle_updates
  handle_updates-IsValid [] m v = v
  handle_updates-IsValid (u ∷ us) m v =
      handle_updates-IsValid us (update pf snap u m) (update-IsValid pf snap u m v)
