-- ===== src/Tests/RealtimeTests.antt =====
-- The decoder on a feed of three entities, and a run of the poller.
use public_transport_tracker.Base.{
  string_eq, nat_eq, ℕ, ◌≡◌, ◌⊎◌, inr, true, is_some, is_empty, if◌then◌else◌, refl, Option, none,
  some, List, [], ◌∷◌, ◌++◌, String, length,
}
use public_transport_tracker.Base.Int.{ℤ, pos}
use public_transport_tracker.GoMap.{GoMap, lookup}
use public_transport_tracker.Vehicle.{RawUpdate}
use public_transport_tracker.Realtime.Decoder.{
  Bindings, proto_decoder, decode_vehicle_positions, decode_delays, decode_range, decode_entity,
  update_of, vehicle_id_of,
}
use public_transport_tracker.Realtime.Decoder.Positions.{
  decode_vehicle_positions-Reports, Named, Reports,
}
use public_transport_tracker.Realtime.Decoder.Delays.{decode_delays-last_report, last_report}
use public_transport_tracker.Realtime.Poller.{
  Poller, Signal, tick, done, run, run_every, poll_once, poll_url,
}
use public_transport_tracker.Realtime.Poller.Stages.{Arrives, poll_url-Arrives}
use public_transport_tracker.Realtime.Fetcher.{Response}
use public_transport_tracker.Vehicle.Manager.{new_default_state_manager, get}
use public_transport_tracker.Vehicle.Manager.Isolation.{updates_of}
use public_transport_tracker.Tracker.Pipeline.{poller as manager_poller, decoded}
use public_transport_tracker.Tracker.Smoothing.{smoothed, position_of, run-smoothed}
use public_transport_tracker.Tracker.Pruned.{
  Turn, heard, pruned, since, Interleaves, prunes, handle_updates-Interleaves,
}
use public_transport_tracker.Vehicle.Kalman.{kalman}
use public_transport_tracker.Vehicle.Snapper.{snap, new_in_memory_snapper}
use public_transport_tracker.Tests.Samples.{decimal, report, here}
use public_transport_tracker.Base.{All, map, ◌==◌, false}
use public_transport_tracker.Vehicle.{RouteSnapper}
use public_transport_tracker.Vehicle.Manager.Isolation.{handle_updates}
use public_transport_tracker.Vehicle.Manager.{DefaultStateManager, prune, prune_range}
use public_transport_tracker.Tracker.{stale_before}
use public_transport_tracker.Base.Int.{◌-ℤ◌}

-- An entity of a feed: its ID, and either a vehicle, by its ID and timestamp, or the delay of a trip.
data FeedEntity : Type 0 where
  vehicle : String → String → ℕ → FeedEntity
  late : String → String → ℤ → FeedEntity

-- The bindings for feeds whose messages are lists of such entities.
abbrev feed : Bindings ℤ (Option (List FeedEntity))
feed = record {
  Entity = FeedEntity;
  VehiclePosition = String × ℕ;
  VehicleDescriptor = String;
  GeoPosition = Unit {0};
  Trip = String;
  TripUpdate = String × ℤ;
  StopTimeUpdate = Unit {0};
  StopTimeEvent = Unit {0};
  unmarshal = λ message. message;
  entity_id = λ entity. elim entity [ vehicle id v t ↦ id | late id trip d ↦ id ];
  entity_vehicle = λ entity. elim entity [ vehicle id v t ↦ some (v, t) | late id trip d ↦ none ];
  entity_trip_update =
      λ entity. elim entity [ vehicle id v t ↦ none | late id trip d ↦ some (trip, d) ];
  position = λ vp. some tt;
  descriptor = λ vp. some vp.0;
  descriptor_id = λ v. v;
  timestamp = λ vp. vp.1;
  vehicle_trip = λ vp. some "t1";
  trip_id = λ trip. elim trip [ none ↦ "" | some id ↦ id ];
  route_id = λ trip. "r1";
  latitude = λ geo. pos 1;
  longitude = λ geo. pos 2;
  bearing = λ geo. pos 0;
  speed = λ geo. pos 0;
  update_trip = λ tu. some tu.0;
  delay = λ tu. some tu.1;
  stop_time_updates = λ tu. [];
  arrival = λ stu. none;
  event_delay = λ e. pos 0;
}

abbrev entities : List FeedEntity
entities =
    vehicle "e1" "v1" 5 ∷ late "e2" "t1" (pos 30) ∷ vehicle "e3" "" 0 ∷ late "e4" "t1" (pos 60) ∷ []

decode_vehicle_positions-Reports_example :
    (updates : List (RawUpdate ℤ)) × (decode_vehicle_positions feed
        (λ entity. pos 1)
        (some entities)
      ≡ some updates)
    × Reports feed (λ entity. pos 1) entities updates
    × (All (λ entity. (feed.entity_id entity == "") ≡ false) entities
        → Named feed (λ entity. pos 1) updates)
decode_vehicle_positions-Reports_example =
    decode_vehicle_positions-Reports feed (λ entity. pos 1) (some entities) entities refl

decode_delays-last_report_example :
    (delays : GoMap String ℤ) × (decode_delays feed (some entities) ≡ some delays)
    × ((id : String) → lookup id delays ≡ last_report feed id entities)
decode_delays-last_report_example = decode_delays-last_report feed (some entities) entities refl

-- A poller whose handler keeps the batches.
abbrev poller : Poller ℤ (Option (List (RawUpdate ℤ))) (List (List (RawUpdate ℤ)))
poller = record {
  decoder = record {
    decode_vehicle_positions = λ now message. message;
    decode_delays = λ message. none;
  };
  handler = λ us batches. batches ++ us ∷ [];
}

abbrev signals : List (Signal (Option (List (RawUpdate ℤ))))
signals =
    tick (pos 1) (some none)
    ∷ tick (pos 2) (some (some (report "a" (here (pos 1) (pos 1) (pos 2)) ∷ [])))
    ∷ done
    ∷ tick (pos 3) (some (some []))
    ∷ []

abbrev answered : Option (Response (Option (List (RawUpdate ℤ))))
answered = some (record { status_code = 503; body = some (some []) })

poll_url-Arrives_example :
    ((updates : List (RawUpdate ℤ)) × Arrives poller true answered (pos 1) updates
      × (poll_url poller true answered (pos 1) []
          ≡ (if is_empty updates then [] else poller.handler updates [], none)))
    ⊎ (((updates : List (RawUpdate ℤ)) → ¬ Arrives poller true answered (pos 1) updates)
        × ((poll_url poller true answered (pos 1) []).0 ≡ [])
        × (is_some (poll_url poller true answered (pos 1) []).1 ≡ true))
poll_url-Arrives_example = poll_url-Arrives poller true answered (pos 1) []

-- An interval of 0 ends the process after the first poll.
ticker_panics :
    run_every poller
      (pos 0)
      (pos 0)
      (some (some (report "a" (here (pos 1) (pos 1) (pos 2)) ∷ [])))
      signals
      []
    ≡ inr ((report "a" (here (pos 1) (pos 1) (pos 2)) ∷ []) ∷ [])
unfolding run_every poll_once
ticker_panics = refl

-- A failed poll, and a feed of two vehicles.
abbrev feed_signals : List (Signal (Option (List FeedEntity)))
feed_signals = tick (pos 1) none ∷ tick (pos 2) (some (some entities)) ∷ done ∷ []

abbrev clock : ℤ → FeedEntity → ℤ
clock now entity = now

abbrev snapped : RouteSnapper ℤ
snapped = snap new_in_memory_snapper

abbrev polled : List (RawUpdate ℤ)
polled = decoded kalman snapped feed clock (tick (pos 0) none ∷ feed_signals)

abbrev alone : DefaultStateManager ℤ (kalman {F = ℤ}).Filter
alone = handle_updates kalman snapped polled new_default_state_manager

-- A prune, and then the updates of the poller.
abbrev turns : List (Turn ℤ)
turns = pruned (pos 5) ∷ map heard polled

turns-Interleaves : Interleaves kalman snapped polled new_default_state_manager turns alone
unfolding prune prune_range new_default_state_manager lookup
turns-Interleaves =
    prunes [] (pos 5) polled new_default_state_manager alone (map heard polled) (λ k. refl)
      (handle_updates-Interleaves kalman snapped polled new_default_state_manager)

-- A vehicle whose last update is older than five minutes starts anew.
pruned_forgets :
    let u = report "a" (here (pos 1) (pos 1) (pos 2)) in
    (since "a" [] (heard u ∷ pruned (pos 300_000_000_002) ∷ heard u ∷ []) ≡ u ∷ u ∷ [])
    × (since "a" [] (heard u ∷ pruned (pos 300_000_000_003) ∷ heard u ∷ []) ≡ u ∷ [])
unfolding stale_before ◌-ℤ◌
pruned_forgets = (refl, refl)

run-smoothed_example :
    (position_of kalman (get alone "v1")
      ≡ smoothed kalman (kalman {F = ℤ}).factory (since "v1" [] turns) none)
    × Interleaves kalman snapped polled new_default_state_manager (map heard polled) (
        run
          (manager_poller kalman snapped feed clock)
          (pos 0)
          none
          feed_signals
          new_default_state_manager)
run-smoothed_example =
    run-smoothed feed clock "v1" (pos 0) none feed_signals turns alone turns-Interleaves

one_update_heard :
    length (
      updates_of "v1"
        (decoded kalman (snap new_in_memory_snapper) feed clock (tick (pos 0) none ∷ feed_signals)))
    ≡ 1
unfolding proto_decoder decode_vehicle_positions decode_range decode_entity update_of vehicle_id_of
one_update_heard = refl
