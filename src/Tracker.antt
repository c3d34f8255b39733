-- ===== src/Tracker.antt =====
-- cmd/tracker/main.go: the loops of `runServe` that share the manager, the encoder and the hub. The
-- goroutines interleave at the locks of the shared objects, so a run is a sequence of steps.
pub mod Snapshot
pub mod Mirror
pub mod Hydration
pub mod Pipeline
pub mod Pruned
pub mod Smoothing
use public_transport_tracker.Base.{
  is_empty, string_eq, nat_eq, ℕ, ◌*◌, ◌≡◌, Bool, true, false, Option, none, some, List, [], ◌∷◌,
  ◌++◌, map, String, if◌then◌else◌, ◌==◌, nat_beq,
}
use public_transport_tracker.Base.Int.{ℤ, pos, ◌-ℤ◌}
use public_transport_tracker.Float.{Float}
use public_transport_tracker.GoMap.{Enumerates}
use public_transport_tracker.Vehicle.{Time, RawUpdate, PositionFilter, RouteSnapper}
use public_transport_tracker.Vehicle.Manager.{
  DefaultStateManager, new_default_state_manager, all, prune, update,
}
use public_transport_tracker.Broadcast.{Envelope, VehicleUpdate, state_to_update}
use public_transport_tracker.Broadcast.Encoder.{DeltaEncoder, new_delta_encoder, encode}
use public_transport_tracker.Broadcast.Hub.{ClientId, Hub, new_hub, client_count, broadcast}
use public_transport_tracker.Broadcast.WsClient.{
  WsClient, ws_ops, connect, disconnect, new_ws_client,
}

-- Where the broadcast loop stands: at its `select`, behind the test of `ClientCount`, or with a delta
-- that is not empty before `Broadcast`.
pub data Loop (F : Type 0) : Type 0 where
  waiting counted : Loop F
  encoded : List (VehicleUpdate F) → Loop F

pub record System (F Filter Bytes : Type 0) : Type 0 where
  pub manager : DefaultStateManager F Filter
  pub encoder : DeltaEncoder F
  pub hub : Hub
  pub clients : ClientId → WsClient Bytes
  pub loop : Loop F
  -- the envelopes given to `Hub.Broadcast` so far
  pub sent : List (Envelope F)

-- time.Now().Add(-5 * time.Minute)
unfoldable pub stale_before : Time → Time
unfolding ◌-ℤ◌
stale_before now = now -ℤ pos (5 * 60 * 1_000_000_000)

module _ {F Bytes : Type 0} ⦃f : Float F⦄ (pf : PositionFilter F) (snap : RouteSnapper F)
    (marshal : Envelope F → Option Bytes) (pick : Envelope F → WsClient Bytes → Bool) where
  open pf use {Filter}

  -- What `runServe` builds.
  unfoldable pub initial : System F Filter Bytes
  unfolding new_default_state_manager new_delta_encoder new_hub
  initial = record {
    manager = new_default_state_manager;
    encoder = new_delta_encoder;
    hub = new_hub;
    clients = λ c. new_ws_client;
    loop = waiting;
    sent = [];
  }

  -- The updates of a tick: `All`, converted one by one.
  unfoldable pub current_updates : List String → System F Filter Bytes → List (VehicleUpdate F)
  current_updates order s = map state_to_update (all order s.manager)

  abbrev pub envelope : List (VehicleUpdate F) → Envelope F
  envelope delta = record { type = "update"; vehicles = delta }

  -- A tick goes on only if there is a client.
  unfoldable pub tick_count : System F Filter Bytes → System F Filter Bytes
  tick_count s =
      if nat_beq (client_count s.hub) 0
      then record s { loop = waiting }
      else record s { loop = counted }

  -- `All` and `Encode`; an empty delta ends the tick.
  unfoldable pub tick_encode :
      (vehicles previous : List String) → System F Filter Bytes → System F Filter Bytes
  tick_encode vehicles previous s =
      let (encoder, delta) = encode previous (current_updates vehicles s) s.encoder in
      record s { encoder = encoder; loop = if is_empty delta then waiting else encoded delta }

  unfoldable pub tick_send :
      List ClientId → List (VehicleUpdate F) → System F Filter Bytes → System F Filter Bytes
  tick_send order delta s =
      let (hub, clients) =
        broadcast (ws_ops marshal pick) (envelope delta) order (s.hub, s.clients) in
      record s {
        hub = hub;
        clients = clients;
        loop = waiting;
        sent = s.sent ++ envelope delta ∷ [];
      }

  -- One tick of the prune loop.
  unfoldable pub tick_prune : List String → Time → System F Filter Bytes → System F Filter Bytes
  tick_prune order now s = record s { manager = (prune order (stale_before now) s.manager).0 }

  -- One update of the handler's loop.
  unfoldable pub tick_update : RawUpdate F → System F Filter Bytes → System F Filter Bytes
  tick_update u s = record s { manager = update pf snap u s.manager }

  -- The start and the end of a connection's handler.
  unfoldable pub arrive : ClientId → System F Filter Bytes → System F Filter Bytes
  arrive c s =
      let (hub, clients) = connect c (s.hub, s.clients) in record s { hub = hub; clients = clients }

  unfoldable pub leave : ClientId → System F Filter Bytes → System F Filter Bytes
  leave c s =
      let (hub, clients) = disconnect c (s.hub, s.clients) in
      record s { hub = hub; clients = clients }

  -- The steps. A range over a map takes any order that enumerates it. `pumps` is whatever the
  -- connections do to their own clients, so also the `Close` before `Unregister`: since closing again does
  -- nothing, a handler that others interrupt between the two is a `pumps` before `leaves`.
  pub data Step (s : System F Filter Bytes) : System F Filter Bytes → Type 0 where
    updates : (u : RawUpdate F) → Step s (tick_update u s)
    prunes :
        (order : List String) (now : Time)
        → Enumerates order s.manager.vehicles
        → Step s (tick_prune order now s)
    counts : s.loop ≡ waiting → Step s (tick_count s)
    encodes :
        (vehicles previous : List String)
        → s.loop ≡ counted
        → Enumerates vehicles s.manager.vehicles
        → Enumerates previous s.encoder.prev
        → Step s (tick_encode vehicles previous s)
    sends :
        (order : List ClientId) (delta : List (VehicleUpdate F))
        → s.loop ≡ encoded delta
        → Enumerates order s.hub.clients
        → Step s (tick_send order delta s)
    arrives : (c : ClientId) → Step s (arrive c s)
    leaves : (c : ClientId) → Step s (leave c s)
    pumps : (clients : ClientId → WsClient Bytes) → Step s (record s { clients = clients })

  pub data Reach : System F Filter Bytes → Type 0 where
    here : Reach initial
    next : {s t : System F Filter Bytes} → Reach s → Step s t → Reach t
