-- ===== src/Broadcast.antt =====
-- internal/broadcast/types.go: the updates and envelopes sent to the clients.
pub mod Encoder
pub mod Hub
pub mod WsClient
use public_transport_tracker.Base.{Bool, false, List, String}
use public_transport_tracker.Base.Int.{ℤ}
use public_transport_tracker.Vehicle.{State}

pub record VehicleUpdate (F : Type 0) : Type 0 where
  pub vehicle_id : String
  pub trip_id : String
  pub route_id : String
  pub lat : F
  pub lon : F
  pub bearing : F
  pub speed : F
  pub delay_seconds : ℤ
  pub removed : Bool

-- `type` is the Go field `Type`.
pub record Envelope (F : Type 0) : Type 0 where
  pub type : String
  pub vehicles : List (VehicleUpdate F)

unfoldable pub state_to_update : {F : Type 0} → State F → VehicleUpdate F
state_to_update s = record {
  vehicle_id = s.vehicle_id;
  trip_id = s.trip_id;
  route_id = s.route_id;
  lat = s.position.lat;
  lon = s.position.lon;
  bearing = s.position.bearing;
  speed = s.position.speed;
  delay_seconds = s.delay_seconds;
  removed = false;
}
