-- ===== src/Tests/BroadcastTests.antt =====
-- The encoder, the hub and the connections on small inputs.
use public_transport_tracker.Base.{
  string_eq, nat_eq, ℕ, zero, suc, ◌≡◌, refl, Bool, true, false, Option, none, some, List, [], ◌∷◌,
  String, if◌then◌else◌, length, presence, leb, ◌==◌, arith,
}
use public_transport_tracker.Base.Int.{ℤ, pos, ◌-ℤ◌}
use public_transport_tracker.GoMap.{lookup, assign, delete, Enumerates, IsMap, empty, keys}
use public_transport_tracker.GoMap.Range.{keys-Enumerates}
use public_transport_tracker.Broadcast.{VehicleUpdate, Envelope}
use public_transport_tracker.Broadcast.Encoder.{
  DeltaEncoder, new_delta_encoder, encode, add_changed, add_removed, changed, index_by_id, removal,
}
use public_transport_tracker.Broadcast.Encoder.Find.{last_for, IsDistinct, index_by_id-IsMap}
use public_transport_tracker.Broadcast.Encoder.Delta.{delta_of, count_for, encode-delta_of}
use public_transport_tracker.Broadcast.Hub.{ClientId, Hub, new_hub, register, broadcast, deliver}
use public_transport_tracker.Broadcast.Hub.Fanout.{registered, broadcast_lem}
use public_transport_tracker.Broadcast.WsClient.{
  WsClient, Connection, sends, offer, send, ws_ops, new_ws_client, open_connection, step, Reach,
  connect, handle_web_socket,
}
use public_transport_tracker.Broadcast.WsClient.Delivery.{IsOrderly, Reach-IsOrderly}
use public_transport_tracker.Broadcast.WsClient.Lifecycle.{
  IsClosed, handle_web_socket_lem, broadcast-slow_client,
}
use public_transport_tracker.Tests.Samples.{decimal}
use public_transport_tracker.Base.{is_some}

abbrev at : String → ℕ → VehicleUpdate ℤ
at id lat = record {
  vehicle_id = id;
  trip_id = "t";
  route_id = "r";
  lat = decimal.lit lat 0;
  lon = pos 0;
  bearing = pos 0;
  speed = pos 0;
  delay_seconds = pos 0;
  removed = false;
}

abbrev before : List (VehicleUpdate ℤ)
before = at "a" 1 ∷ at "b" 1 ∷ at "c" 1 ∷ []

abbrev now : List (VehicleUpdate ℤ)
now = at "a" 1 ∷ at "b" 2 ∷ at "d" 1 ∷ []

abbrev known : DeltaEncoder ℤ
known = record { prev = index_by_id before empty }

abbrev order : List String
order = keys known.prev

program : Unit {0}
unfolding new_delta_encoder encode add_changed add_removed changed index_by_id lookup assign delete
    ◌-ℤ◌
program = tt

one_moved_one_new_one_gone : (encode order now known).1 ≡ at "b" 2 ∷ at "d" 1 ∷ removal "c" ∷ []
unfolding program
one_moved_one_new_one_gone = refl

known-IsMap : IsMap known.prev
known-IsMap = index_by_id-IsMap before empty tt

order-Enumerates : Enumerates order known.prev
order-Enumerates = keys-Enumerates known.prev known-IsMap

now-IsDistinct : IsDistinct now
now-IsDistinct = ground arith

encode-delta_of_example :
    let expected = delta_of (lookup "c" known.prev) "c" (last_for "c" now) in
    let delta = (encode order now known).1 in
    (last_for "c" delta ≡ expected) × (count_for "c" delta ≡ (if is_some expected then 1 else 0))
encode-delta_of_example = encode-delta_of order now known now-IsDistinct order-Enumerates "c"

abbrev later : List String
later = keys (encode order now known).0.prev

later-Enumerates : Enumerates later (encode order now known).0.prev
later-Enumerates =
    keys-Enumerates (encode order now known).0.prev
      (unfold encode in index_by_id-IsMap now empty tt)

abbrev news_flash : Envelope ℤ
news_flash = record { type = "update"; vehicles = before }

-- An encoding of envelopes, and a runtime that prefers to queue.
abbrev marshal : Envelope ℤ → Option ℕ
marshal env = some (length env.vehicles)

abbrev pick : Envelope ℤ → WsClient ℕ → Bool
pick env c = true

abbrev hub : Hub
hub = register 2 (register 1 new_hub)

-- Client 1 is open and client 2 is closed with a full buffer.
abbrev filled : ℕ → List ℕ
filled zero = []
filled (suc n) = 0 ∷ filled n

abbrev clients : ClientId → WsClient ℕ
clients zero = new_ws_client
clients (suc zero) = record { send_ch = filled 64; done = false; once = false; conn_closed = false }
clients _ = record { send_ch = filled 64; done = true; once = true; conn_closed = true }

hub-IsMap : IsMap hub.clients
unfolding register new_hub assign lookup
hub-IsMap = (refl, (refl, tt))

hub-Enumerates : Enumerates (keys hub.clients) hub.clients
hub-Enumerates = keys-Enumerates hub.clients hub-IsMap

hub_program : Unit {0}
unfolding register new_hub assign lookup delete broadcast deliver send offer new_ws_client
hub_program = tt

closed_client_leaves :
    (registered 1 (broadcast (ws_ops marshal pick) news_flash (2 ∷ 1 ∷ []) (hub, clients)).0
      ≡ some tt)
    × (registered 2 (broadcast (ws_ops marshal pick) news_flash (2 ∷ 1 ∷ []) (hub, clients)).0
        ≡ none)
unfolding hub_program
closed_client_leaves = (refl, refl)

broadcast_lem_example :
    let (h', store') =
      broadcast (ws_ops marshal pick) news_flash (keys hub.clients) (hub, clients) in
    (store' 2 ≡ (
      if leb 1 (presence (registered 2 hub))
      then (send marshal pick news_flash (clients 2)).0
      else clients 2))
    × (registered 2 h'
        ≡ (if (send marshal pick news_flash (clients 2)).1 then registered 2 hub else none))
broadcast_lem_example =
    broadcast_lem (ws_ops marshal pick) news_flash (keys hub.clients) hub clients hub-IsMap
      hub-Enumerates 2

broadcast-slow_client_example :
    let (h', store') =
      broadcast (ws_ops marshal pick) news_flash (keys hub.clients) (hub, clients) in
    (registered 1 h' ≡ some tt) × (store' 1 ≡ clients 1)
unfolding register new_hub assign lookup
broadcast-slow_client_example =
    broadcast-slow_client marshal pick news_flash 3 (keys hub.clients) hub clients 1 hub-IsMap
      hub-Enumerates refl refl (omega arith) refl

abbrev one_sent : Connection ℕ
one_sent = record open_connection {
  client = record new_ws_client { send_ch = 7 ∷ [] };
  accepted = 7 ∷ [];
}

one_sent-Reach : Reach one_sent
unfolding step offer open_connection
one_sent-Reach = Reach.next Reach.here (sends true 7) refl

Reach-IsOrderly_example : IsOrderly one_sent
Reach-IsOrderly_example = Reach-IsOrderly one_sent-Reach

handle_web_socket_lem_example :
    let (h, store) = handle_web_socket true (λ s. s) 3 (hub, clients) in
    let (h', store') = connect 3 (hub, clients) in
    (registered 3 h ≡ none)
    × IsClosed (store 3)
    × ((store 3).send_ch ≡ (store' 3).send_ch)
    × ((d : ℕ)
        → ◌==◌ {K = ℕ} 3 d ≡ false
        → (registered d h ≡ registered d h') × (store d ≡ store' d))
unfolding hub_program connect
handle_web_socket_lem_example =
    handle_web_socket_lem (λ s. s) 3 (hub, clients) (refl, (refl, (refl, tt)))
      (λ h. absurd (unfold new_ws_client in ground arith))

-- Two steps that are each too small for a delta, and together are not.
abbrev crept : ℕ → List (VehicleUpdate ℤ)
crept n = record (at "a" 0) { lat = pos n } ∷ []

abbrev after_step : DeltaEncoder ℤ
after_step = (encode ("a" ∷ []) (crept 10) (record { prev = index_by_id (crept 0) empty })).0

steps_are_not_sent :
    ((encode ("a" ∷ []) (crept 10) (record { prev = index_by_id (crept 0) empty })).1 ≡ [])
    × ((encode ("a" ∷ []) (crept 20) after_step).1 ≡ [])
    × ((encode ("a" ∷ []) (crept 20) (record { prev = index_by_id (crept 0) empty })).1 ≡ crept 20)
unfolding program
steps_are_not_sent = (refl, refl, refl)
