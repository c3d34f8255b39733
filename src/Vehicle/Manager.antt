-- ===== src/Vehicle/Manager.antt =====
-- internal/vehicle/state.go: the manager of the vehicles' states. Each method holds the manager's
-- lock from its first line to its last, so a method is one step on the manager's record.
pub mod Reads
pub mod Isolation
pub mod Prune
pub mod Refines
use public_transport_tracker.Base.{
  string_eq, ℕ, ◌+◌, ◌≡◌, Bool, Option, none, some, List, [], ◌∷◌, ◌++◌, String, if◌then◌else◌,
  get_or, is_some,
}
use public_transport_tracker.Base.Int.{pos}
use public_transport_tracker.Float.{Float}
use public_transport_tracker.GoMap.{GoMap, empty, lookup, assign, delete}
use public_transport_tracker.Vehicle.{
  Time, before, Position, RawUpdate, State, PositionFilter, RouteSnapper, zero_state,
}

pub record VehicleEntry (F Filter : Type 0) : Type 0 where
  pub filter : Filter
  pub state : State F

-- The factory and the snapper, which never change, are parameters of the methods.
pub record DefaultStateManager (F Filter : Type 0) : Type 0 where
  pub vehicles : GoMap String (VehicleEntry F Filter)

-- The trip ID is the key of the shape.
unfoldable pub shape_id_for_update : {F : Type 0} → RawUpdate F → String
shape_id_for_update u = u.trip_id

unfoldable pub new_default_state_manager : {F Filter : Type 0} → DefaultStateManager F Filter
new_default_state_manager = record { vehicles = empty }

module _ {F Filter : Type 0} where
  unfoldable pub get : DefaultStateManager F Filter → String → Option (State F)
  get m id = elim (lookup id m.vehicles) [ none ↦ none | some entry ↦ some entry.state ]

  -- The loop of `All`, with the keys in the order of the visits.
  unfoldable pub all_range :
      List String → GoMap String (VehicleEntry F Filter) → List (State F) → List (State F)
  all_range [] vehicles states = states
  all_range (id ∷ order) vehicles states =
      all_range order vehicles
        (elim (lookup id vehicles) [ none ↦ states | some entry ↦ states ++ entry.state ∷ [] ])

  unfoldable pub all : List String → DefaultStateManager F Filter → List (State F)
  unfolding all_range
  all order m = all_range order m.vehicles []

  -- One round of the loop of `Prune`.
  unfoldable pub prune_visit :
      Time
      → String
      → GoMap String (VehicleEntry F Filter) × ℕ
      → GoMap String (VehicleEntry F Filter) × ℕ
  prune_visit older_than id (vehicles, count) = elim (lookup id vehicles) [
    | none ↦ (vehicles, count)
    | some entry ↦
        if before entry.state.updated_at older_than
        then (delete id vehicles, count + 1)
        else (vehicles, count)
  ]

  unfoldable pub prune_range :
      Time
      → List String
      → GoMap String (VehicleEntry F Filter) × ℕ
      → GoMap String (VehicleEntry F Filter) × ℕ
  unfolding prune_visit
  prune_range older_than [] acc = acc
  prune_range older_than (id ∷ order) acc =
      prune_range older_than order (prune_visit older_than id acc)

  -- The manager afterwards, and the number of vehicles removed.
  unfoldable pub prune :
      List String → Time → DefaultStateManager F Filter → DefaultStateManager F Filter × ℕ
  unfolding prune_range
  prune order older_than m =
      let (vehicles, count) = prune_range older_than order (m.vehicles, 0) in
      (record { vehicles = vehicles }, count)

module _ {F : Type 0} ⦃f : Float F⦄ (pf : PositionFilter F) (snap : RouteSnapper F) where
  open pf use {Filter, factory, filter}

  abbrev pub fresh_entry : VehicleEntry F Filter
  fresh_entry = record { filter = factory; state = zero_state }

  -- The pipeline: raw, filtered, snapped. It writes the entry's filter and state.
  unfoldable pub process : VehicleEntry F Filter → RawUpdate F → VehicleEntry F Filter
  process entry u =
      let (next, filtered) = filter entry.filter u.position in
      let snapped = snap filtered (shape_id_for_update u) in
      record {
        filter = next;
        state = record {
          vehicle_id = u.vehicle_id;
          trip_id = u.trip_id;
          route_id = u.route_id;
          position = snapped;
          raw_position = u.position;
          delay_seconds = pos 0;
          updated_at = u.position.timestamp;
        };
      }

  -- The map holds pointers to the entries: a write to the entry is an assignment at its key.
  unfoldable pub update : RawUpdate F → DefaultStateManager F Filter → DefaultStateManager F Filter
  update u m =
      let found = lookup u.vehicle_id m.vehicles in
      let entry = get_or found fresh_entry in
      let vehicles =
        if is_some found then m.vehicles else assign u.vehicle_id fresh_entry m.vehicles in
      record { vehicles = assign u.vehicle_id (process entry u) vehicles }
