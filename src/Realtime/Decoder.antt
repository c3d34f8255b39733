-- ===== src/Realtime/Decoder.antt =====
-- internal/realtime/decoder.go: from protobuf messages to updates and delays. The generated
-- bindings and `proto.Unmarshal` are a parameter.
pub mod Positions
pub mod Delays
use public_transport_tracker.Base.{
  string_eq, nat_eq, ℕ, ◌*◌, ◌^◌, ◌%◌, Bool, Option, none, some, List, [], ◌∷◌, ◌++◌, String,
  if◌then◌else◌, ◌==◌, is_some, get_last?, or_else, not, ◌||◌, ltb,
}
use public_transport_tracker.Base.Int.{ℤ, pos, negsuc, ◌+ℤ◌, ◌*ℤ◌, sub_ℕ, wrap_int64}
use public_transport_tracker.GoMap.{GoMap, empty, assign}
use public_transport_tracker.Vehicle.{Time, Position, RawUpdate}
use public_transport_tracker.Realtime.{FeedDecoder}

-- The getters of the bindings that the decoder calls; `none` is `nil`. A getter of a string or a
-- number returns the zero value on a message without the field.
pub record Bindings (F Bytes : Type 0) : Type 1 where
  pub Entity : Type 0
  pub VehiclePosition : Type 0
  pub VehicleDescriptor : Type 0
  pub GeoPosition : Type 0
  pub Trip : Type 0
  pub TripUpdate : Type 0
  pub StopTimeUpdate : Type 0
  pub StopTimeEvent : Type 0
  -- `proto.Unmarshal` and `GetEntity`
  pub unmarshal : Bytes → Option (List Entity)
  pub entity_id : Entity → String
  pub entity_vehicle : Entity → Option VehiclePosition
  pub entity_trip_update : Entity → Option TripUpdate
  pub position : VehiclePosition → Option GeoPosition
  pub descriptor : VehiclePosition → Option VehicleDescriptor
  pub descriptor_id : VehicleDescriptor → String
  -- a uint64
  pub timestamp : VehiclePosition → ℕ
  pub vehicle_trip : VehiclePosition → Option Trip
  pub trip_id : Option Trip → String
  pub route_id : Option Trip → String
  -- float32 values, converted
  pub latitude : GeoPosition → F
  pub longitude : GeoPosition → F
  pub bearing : GeoPosition → F
  pub speed : GeoPosition → F
  pub update_trip : TripUpdate → Option Trip
  -- the field `Delay`
  pub delay : TripUpdate → Option ℤ
  pub stop_time_updates : TripUpdate → List StopTimeUpdate
  pub arrival : StopTimeUpdate → Option StopTimeEvent
  pub event_delay : StopTimeEvent → ℤ

-- `int64(t)` of a uint64.
abbrev pub to_int64 : ℕ → ℤ
to_int64 t = if ltb t (2 ^ 63) then pos t else sub_ℕ t (2 ^ 64)

-- `time.Unix(s, 0)`: the Unix epoch is 62135596800 seconds after Go's zero time, and the sum is an int64.
unfoldable pub unix : ℤ → Time
unfolding wrap_int64
unix s = wrap_int64 (s +ℤ pos 62_135_596_800) *ℤ pos 1_000_000_000

unfoldable pub record_delay : Option (String × ℤ) → GoMap String ℤ → GoMap String ℤ
record_delay none delays = delays
record_delay (some (trip_id, d)) delays = assign trip_id d delays

module _ {F Bytes : Type 0} (pb : Bindings F Bytes) where
  open pb use {Entity, VehiclePosition, GeoPosition, TripUpdate}

  -- The ID of the vehicle, or else that of the entity.
  unfoldable pub vehicle_id_of : Entity → VehiclePosition → String
  vehicle_id_of entity vp =
      let id : String = elim (pb.descriptor vp) [ none ↦ "" | some v ↦ pb.descriptor_id v ] in
      if id == "" then pb.entity_id entity else id

  -- `now` is what `time.Now` returns.
  unfoldable pub update_of : Time → Entity → VehiclePosition → GeoPosition → RawUpdate F
  update_of now entity vp geo = record {
    vehicle_id = vehicle_id_of entity vp;
    trip_id = pb.trip_id (pb.vehicle_trip vp);
    route_id = pb.route_id (pb.vehicle_trip vp);
    position = record {
      lat = pb.latitude geo;
      lon = pb.longitude geo;
      bearing = pb.bearing geo;
      speed = pb.speed geo;
      timestamp = if pb.timestamp vp == 0 then now else unix (to_int64 (pb.timestamp vp));
    };
  }

  -- `now` is what `time.Now` returns in the round of an entity.
  -- One round of the loop: `none` where it goes on without an update.
  unfoldable pub decode_entity : (Entity → Time) → Entity → Option (RawUpdate F)
  decode_entity now entity = elim (pb.entity_vehicle entity) [
    | none ↦ none
    | some vp ↦ elim (pb.position vp) [
      | none ↦ none
      | some geo ↦ some (update_of (now entity) entity vp geo)
    ]
  ]

  unfoldable pub decode_range :
      (Entity → Time) → List Entity → List (RawUpdate F) → List (RawUpdate F)
  decode_range now [] updates = updates
  decode_range now (entity ∷ entities) updates =
      decode_range now entities
        (elim (decode_entity now entity) [ none ↦ updates | some u ↦ updates ++ u ∷ [] ])

  -- `none` is the error of `proto.Unmarshal`.
  unfoldable pub decode_vehicle_positions : (Entity → Time) → Bytes → Option (List (RawUpdate F))
  decode_vehicle_positions now message = elim (pb.unmarshal message) [
    | none ↦ none
    | some entities ↦ some (decode_range now entities [])
  ]

  -- The delay of the last stop time update, if there is one with an arrival.
  unfoldable pub last_arrival_delay : TripUpdate → Option ℤ
  last_arrival_delay tu = elim (get_last? (pb.stop_time_updates tu)) [
    | none ↦ none
    | some last ↦ elim (pb.arrival last) [ none ↦ none | some arr ↦ some (pb.event_delay arr) ]
  ]

  -- The trip and the delay that one round of the loop records, if it does.
  unfoldable pub delay_entry : Entity → Option (String × ℤ)
  delay_entry entity = elim (pb.entity_trip_update entity) [
    | none ↦ none
    | some tu ↦
        if not (is_some (pb.update_trip tu)) || pb.trip_id (pb.update_trip tu) == ""
        then none
        else elim (or_else (pb.delay tu) (last_arrival_delay tu)) [
          | none ↦ none
          | some d ↦ some (pb.trip_id (pb.update_trip tu), d)
        ]
  ]

  unfoldable pub delay_range : List Entity → GoMap String ℤ → GoMap String ℤ
  unfolding record_delay
  delay_range [] delays = delays
  delay_range (entity ∷ entities) delays =
      delay_range entities (record_delay (delay_entry entity) delays)

  unfoldable pub decode_delays : Bytes → Option (GoMap String ℤ)
  decode_delays message = elim (pb.unmarshal message) [
    | none ↦ none
    | some entities ↦ some (delay_range entities empty)
  ]

  -- The decoder behind the interface. `clock` gives the times that `time.Now` shows during a call.
  unfoldable pub proto_decoder : (clock : Time → Entity → Time) → FeedDecoder F Bytes
  proto_decoder clock = record {
    decode_vehicle_positions = λ now message. decode_vehicle_positions (clock now) message;
    decode_delays = decode_delays;
  }
