-- ===== src/Broadcast/Encoder.antt =====
-- internal/broadcast/encoder.go: the delta encoder.
pub mod Find
pub mod Delta
pub mod Replay
pub mod Drift
use public_transport_tracker.Base.{
  string_eq, ℕ, Bool, true, false, not, ◌||◌, ◌&&◌, Option, none, some, List, [], ◌∷◌, ◌++◌, String,
  if◌then◌else◌, ◌==◌, is_some, nat_beq, bool_eq,
}
use public_transport_tracker.Base.Int.{ℤ, pos, negsuc, int_eq}
use public_transport_tracker.Float.{Float, ◌-◌}
use public_transport_tracker.GoMap.{GoMap, empty, lookup, assign}
use public_transport_tracker.Broadcast.{VehicleUpdate}

pub record DeltaEncoder (F : Type 0) : Type 0 where
  pub prev : GoMap String (VehicleUpdate F)

unfoldable pub new_delta_encoder : {F : Type 0} → DeltaEncoder F
new_delta_encoder = record { prev = empty }

module _ {F : Type 0} ⦃f : Float F⦄ where
  open f use {lt, lit, abs}

  abbrev differs : F → F → Bool
  differs a b = lt (lit 1 7) (abs (a - b))

  unfoldable pub changed : VehicleUpdate F → VehicleUpdate F → Bool
  changed a b =
      if not (a.trip_id == b.trip_id) || not (a.route_id == b.route_id)
      then true
      else if not (a.delay_seconds == b.delay_seconds) || not (a.removed == b.removed)
      then true
      else if differs a.lat b.lat || differs a.lon b.lon
      then true
      else if differs a.bearing b.bearing || differs a.speed b.speed
      then true
      else false

  -- `currentMap`: a later vehicle replaces an earlier one with its ID.
  unfoldable pub index_by_id :
      List (VehicleUpdate F) → GoMap String (VehicleUpdate F) → GoMap String (VehicleUpdate F)
  index_by_id [] current_map = current_map
  index_by_id (v ∷ current) current_map = index_by_id current (assign v.vehicle_id v current_map)

  abbrev pub is_news : Option (VehicleUpdate F) → VehicleUpdate F → Bool
  is_news none v = true
  is_news (some p) v = changed p v

  -- The first loop: the changed and the new vehicles.
  unfoldable pub add_changed :
      GoMap String (VehicleUpdate F)
      → List (VehicleUpdate F)
      → List (VehicleUpdate F)
      → List (VehicleUpdate F)
  add_changed prev [] delta = delta
  add_changed prev (v ∷ current) delta =
      add_changed prev current
        (if is_news (lookup v.vehicle_id prev) v then delta ++ v ∷ [] else delta)

  abbrev pub removal : String → VehicleUpdate F
  removal id = record {
    vehicle_id = id;
    trip_id = "";
    route_id = "";
    lat = lit 0 0;
    lon = lit 0 0;
    bearing = lit 0 0;
    speed = lit 0 0;
    delay_seconds = pos 0;
    removed = true;
  }

  -- The second loop: the removed vehicles, with the keys of `prev` in the order of the visits.
  unfoldable pub add_removed :
      GoMap String (VehicleUpdate F) → List String → List (VehicleUpdate F) → List (VehicleUpdate F)
  add_removed current_map [] delta = delta
  add_removed current_map (id ∷ order) delta =
      add_removed current_map order
        (if is_some (lookup id current_map) then delta else delta ++ removal id ∷ [])

  unfoldable pub encode :
      List String
      → List (VehicleUpdate F)
      → DeltaEncoder F
      → DeltaEncoder F × List (VehicleUpdate F)
  encode order current e =
      let current_map = index_by_id current empty in
      let delta = add_removed current_map order (add_changed e.prev current []) in
      (record { prev = current_map }, delta)
