-- ===== src/Realtime.antt =====
-- internal/realtime/types.go: the polling of a GTFS-RT feed, and the decoder that it goes by.
pub mod Decoder
pub mod Poller
pub mod Fetcher
use public_transport_tracker.Base.{Option, List, String}
use public_transport_tracker.Base.Int.{ℤ}
use public_transport_tracker.GoMap.{GoMap}
use public_transport_tracker.Vehicle.{RawUpdate, Time}

-- The first argument of `DecodeVehiclePositions` is the time at the call; `none` is an error.
pub record FeedDecoder (F Bytes : Type 0) : Type 0 where
  pub decode_vehicle_positions : Time → Bytes → Option (List (RawUpdate F))
  -- by trips, in seconds
  pub decode_delays : Bytes → Option (GoMap String ℤ)
