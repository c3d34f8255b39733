-- ===== src/Tests/TrackerTests.antt =====
-- The loops of the tracker on a short run: an update, a client, and a tick of the broadcast loop.
use public_transport_tracker.Base.{
  string_eq, nat_eq, ℕ, ◌≡◌, refl, Bool, true, Option, some, List, [], String, length, is_some,
}
use public_transport_tracker.Base.Int.{ℤ, pos}
use public_transport_tracker.GoMap.{lookup, assign, delete, keys, Enumerates}
use public_transport_tracker.GoMap.Range.{keys-Enumerates}
use public_transport_tracker.Broadcast.{Envelope}
use public_transport_tracker.Broadcast.Encoder.{new_delta_encoder}
use public_transport_tracker.Broadcast.Encoder.Replay.{expected, apply}
use public_transport_tracker.Broadcast.Hub.{new_hub, register, client_count}
use public_transport_tracker.Broadcast.WsClient.{WsClient, connect}
use public_transport_tracker.Vehicle.Manager.{
  get, update, prune, process, new_default_state_manager,
}
use public_transport_tracker.Tracker.{
  System, counted, initial, tick_update, tick_count, tick_encode, tick_prune, stale_before, arrive,
  updates, arrives, counts, prunes, Reach,
}
use public_transport_tracker.Tracker.Mirror.{
  IsMirrored, Reach-IsMirrored, Reach-tick_encode, next_view, view, pending,
}
use public_transport_tracker.Tracker.Hydration.{page, hydrated, page-tick_encode}
use public_transport_tracker.Vehicle.{Time}
use public_transport_tracker.Tracker.Snapshot.{update_of}
use public_transport_tracker.Tests.Samples.{decimal, counting, no_snap, report, here as at_point}

abbrev marshal : Envelope ℤ → Option ℕ
marshal env = some (length env.vehicles)

abbrev pick : Envelope ℤ → WsClient ℕ → Bool
pick env c = true

abbrev one_vehicle : System ℤ ℕ ℕ
one_vehicle =
    tick_update counting no_snap marshal pick (report "a" (at_point (pos 1) (pos 2) (pos 3)))
      (initial counting no_snap marshal pick)

abbrev one_client : System ℤ ℕ ℕ
one_client = arrive counting no_snap marshal pick 1 one_vehicle

abbrev ticking : System ℤ ℕ ℕ
ticking = tick_count counting no_snap marshal pick one_client

program : Unit {0}
unfolding initial tick_update tick_count arrive connect register new_hub client_count update
    new_default_state_manager new_delta_encoder lookup assign
program = tt

ticking-Reach : Reach counting no_snap marshal pick ticking
unfolding program
ticking-Reach =
    Reach.next
      (Reach.next (Reach.next Reach.here (updates (report "a" (at_point (pos 1) (pos 2) (pos 3)))))
        (arrives 1))
      (counts refl)

Reach-IsMirrored_example : IsMirrored ticking
Reach-IsMirrored_example = Reach-IsMirrored counting no_snap marshal pick ticking-Reach

ticking-counted : ticking.loop ≡ counted
unfolding program
ticking-counted = refl

vehicles-Enumerates : Enumerates (keys ticking.manager.vehicles) ticking.manager.vehicles
vehicles-Enumerates = keys-Enumerates ticking.manager.vehicles Reach-IsMirrored_example.valid.is_map

abbrev order : List String
order = keys ticking.manager.vehicles

previous-Enumerates : Enumerates [] ticking.encoder.prev
unfolding program
previous-Enumerates = λ k. refl

Reach-tick_encode_example :
    let t = tick_encode counting no_snap marshal pick order [] ticking in
    (lookup "a" t.encoder.prev ≡ update_of (get ticking.manager "a"))
    × (lookup "a" (next_view t)
        ≡ expected
            (lookup "a" ticking.encoder.prev)
            (update_of (get ticking.manager "a"))
            (lookup "a" (view ticking)))
Reach-tick_encode_example =
    Reach-tick_encode counting no_snap marshal pick order [] ticking-Reach ticking-counted
      vehicles-Enumerates previous-Enumerates "a"

-- A page reads the vehicle, which is pruned before the first tick with a client.
abbrev much_later : Time
much_later = pos 400_000_000_000

abbrev gone : System ℤ ℕ ℕ
gone = tick_count counting no_snap marshal pick (
    arrive counting no_snap marshal pick 1
      (tick_prune counting no_snap marshal pick order much_later one_vehicle))

pruning : Unit {0}
unfolding program tick_prune prune stale_before process delete get
pruning = tt

one_vehicle-Reach : Reach counting no_snap marshal pick one_vehicle
one_vehicle-Reach = Reach.next Reach.here (updates (report "a" (at_point (pos 1) (pos 2) (pos 3))))

one_vehicle-Enumerates : Enumerates order one_vehicle.manager.vehicles
unfolding program
one_vehicle-Enumerates = vehicles-Enumerates

gone-Reach : Reach counting no_snap marshal pick gone
unfolding pruning
gone-Reach =
    Reach.next
      (Reach.next (Reach.next one_vehicle-Reach (prunes order much_later one_vehicle-Enumerates))
        (arrives 1))
      (counts refl)

gone-counted : gone.loop ≡ counted
unfolding pruning
gone-counted = refl

gone-Enumerates : Enumerates [] gone.manager.vehicles
unfolding pruning
gone-Enumerates = λ k. refl

nothing-Enumerates : Enumerates [] gone.encoder.prev
unfolding pruning
nothing-Enumerates = λ k. refl

page-tick_encode_example :
    let t = tick_encode counting no_snap marshal pick [] [] gone in
    lookup "a" (apply (pending t.loop) (page order one_vehicle.manager))
    ≡ hydrated
        (lookup "a" gone.encoder.prev)
        (update_of (get gone.manager "a"))
        (update_of (get one_vehicle.manager "a"))
page-tick_encode_example =
    page-tick_encode counting no_snap marshal pick order [] [] one_vehicle-Reach
      one_vehicle-Enumerates gone-Reach gone-counted gone-Enumerates nothing-Enumerates "a"

-- The vehicle stays on the page.
kept_on_page :
    is_some (
      hydrated
        (lookup "a" gone.encoder.prev)
        (update_of (get gone.manager "a"))
        (update_of (get one_vehicle.manager "a")))
    ≡ true
unfolding pruning
kept_on_page = refl
