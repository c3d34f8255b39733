-- ===== src/Vehicle.antt =====
-- internal/vehicle/types.go: the domain types of real-time tracking, and the interfaces of the two
-- stages that every position passes, the filter and the snapper.
pub mod Manager
pub mod Snapper
pub mod Kalman
use public_transport_tracker.Base.{Bool, String}
use public_transport_tracker.Base.Int.{ℤ, pos, ltb_ℤ}
use public_transport_tracker.Float.{Float}

-- `time.Time`: nanoseconds since Go's zero time.
abbrev pub Time : Type 0
Time = ℤ

-- t.Before(u)
abbrev pub before : Time → Time → Bool
before = ltb_ℤ

pub record Position (F : Type 0) : Type 0 where
  pub lat : F
  pub lon : F
  pub bearing : F
  pub speed : F
  pub timestamp : Time

pub record RawUpdate (F : Type 0) : Type 0 where
  pub vehicle_id : String
  pub trip_id : String
  pub route_id : String
  pub position : Position F

pub record State (F : Type 0) : Type 0 where
  pub vehicle_id : String
  pub trip_id : String
  pub route_id : String
  pub position : Position F
  pub raw_position : Position F
  pub delay_seconds : ℤ
  pub updated_at : Time

-- A filter object is a value of `Filter`; its one method returns the object's next value.
pub record PositionFilter (F : Type 0) : Type 1 where
  pub Filter : Type 0
  -- what the `PositionFilterFactory` returns
  pub factory : Filter
  pub filter : Filter → Position F → Filter × Position F

-- The `Snap` method of a `RouteSnapper` whose shapes are loaded.
abbrev pub RouteSnapper : Type 0 → Type 0
RouteSnapper F = Position F → String → Position F

module _ {F : Type 0} ⦃f : Float F⦄ where
  -- Go's zero values
  abbrev pub zero_position : Position F
  zero_position = record {
    lat = f.lit 0 0;
    lon = f.lit 0 0;
    bearing = f.lit 0 0;
    speed = f.lit 0 0;
    timestamp = pos 0;
  }

  abbrev pub zero_state : State F
  zero_state = record {
    vehicle_id = "";
    trip_id = "";
    route_id = "";
    position = zero_position;
    raw_position = zero_position;
    delay_seconds = pos 0;
    updated_at = pos 0;
  }
