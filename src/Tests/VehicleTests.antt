-- ===== src/Tests/VehicleTests.antt =====
-- The state manager on two vehicles.
use public_transport_tracker.Base.{
  string_eq, ℕ, ◌≡◌, refl, Option, none, some, List, [], ◌∷◌, String,
}
use public_transport_tracker.Base.Int.{ℤ, pos}
use public_transport_tracker.GoMap.{lookup, assign, delete, Enumerates, len, keys}
use public_transport_tracker.GoMap.Range.{keys-Enumerates}
use public_transport_tracker.Vehicle.{RawUpdate}
use public_transport_tracker.Vehicle.Manager.{
  DefaultStateManager, VehicleEntry, new_default_state_manager, get, all, update, prune, process,
}
use public_transport_tracker.Vehicle.Manager.Reads.{
  IsValid, new_default_state_manager-IsValid, update-IsValid,
}
use public_transport_tracker.Vehicle.Manager.Isolation.{
  handle_updates, handle_updates-track, handle_updates-IsValid, track, updates_of,
}
use public_transport_tracker.Vehicle.Manager.Refines.{
  Call, lists, prunes, gets, removed, state, AreOrdered, Allowed, view, call, calls, calls-Allowed,
}
use public_transport_tracker.Tests.Samples.{decimal, counting, no_snap, here, report}

abbrev start : DefaultStateManager ℤ ℕ
start = new_default_state_manager

abbrev batch : List (RawUpdate ℤ)
batch =
    report "v1" (here (pos 1) (pos 2) (pos 10))
    ∷ report "v2" (here (pos 5) (pos 6) (pos 20))
    ∷ report "v1" (here (pos 3) (pos 4) (pos 30))
    ∷ []

abbrev two : DefaultStateManager ℤ ℕ
two = handle_updates counting no_snap batch start

two-IsValid : IsValid two
two-IsValid = handle_updates-IsValid counting no_snap batch start new_default_state_manager-IsValid

program : Unit {0}
unfolding new_default_state_manager handle_updates update process lookup assign delete get all prune
program = tt

abbrev order : List String
order = keys two.vehicles

order-Enumerates : Enumerates order two.vehicles
order-Enumerates = keys-Enumerates two.vehicles two-IsValid.is_map

abbrev filter_of : Option (VehicleEntry ℤ ℕ) → Option ℕ
filter_of none = none
filter_of (some entry) = some entry.filter

-- Each vehicle's filter has seen the measurements of its own.
two_vehicles :
    (len two.vehicles ≡ 2)
    × (filter_of (lookup "v1" two.vehicles) ≡ some 2)
    × (filter_of (lookup "v2" two.vehicles) ≡ some 1)
unfolding program
two_vehicles = (refl, refl, refl)

one_stale : (prune ("v2" ∷ "v1" ∷ []) (pos 25) two).1 ≡ 1
unfolding program
one_stale = refl

-- A list of all vehicles, the removal of the stale one, and what is left of it.
abbrev some_calls : List (Call ℤ)
some_calls = lists order ∷ prunes order (pos 25) ∷ gets "v2" ∷ []

some_calls-AreOrdered : AreOrdered counting no_snap some_calls two
unfolding call
some_calls-AreOrdered = (order-Enumerates, (order-Enumerates, (tt, tt)))

calls-Allowed_example :
    let (m', replies) = calls counting no_snap some_calls two in
    IsValid m'
    × Allowed counting no_snap some_calls replies
        (view counting no_snap two)
        (view counting no_snap m')
calls-Allowed_example =
    calls-Allowed counting no_snap some_calls two two-IsValid some_calls-AreOrdered

stale_gone :
    (calls counting no_snap (prunes ("v2" ∷ "v1" ∷ []) (pos 25) ∷ gets "v2" ∷ []) two).1
    ≡ removed 1 ∷ state none ∷ []
unfolding program calls call
stale_gone = refl

abbrev third : RawUpdate ℤ
third = report "v2" (here (pos 7) (pos 8) (pos 40))

update-IsValid_example : IsValid (update counting no_snap third two)
update-IsValid_example = update-IsValid counting no_snap third two two-IsValid

handle_updates-track_example :
    lookup "v1" (handle_updates counting no_snap batch start).vehicles
    ≡ track counting no_snap (updates_of "v1" batch) (lookup "v1" start.vehicles)
handle_updates-track_example = handle_updates-track counting no_snap "v1" batch start
