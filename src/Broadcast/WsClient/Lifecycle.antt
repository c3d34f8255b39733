-- ===== src/Broadcast/WsClient/Lifecycle.antt =====
-- From the upgrade of a connection to its end, and what becomes of a slow client.
use public_transport_tracker.Base.{
  ◌≡◌, ◌≤◌, refl, Bool, true, false, Option, none, some, List, if◌then◌else◌, length, arith,
  Bool-cases, inl, inr, nat_eq, ◌==◌, ==_iff,
}
use public_transport_tracker.GoMap.{IsMap, Enumerates}
use public_transport_tracker.GoMap.Laws.{lookup-assign, lookup-delete}
use public_transport_tracker.Broadcast.{Envelope}
use public_transport_tracker.Broadcast.Hub.{ClientId, Hub, register, unregister, broadcast}
use public_transport_tracker.Broadcast.Hub.Fanout.{registered, broadcast_lem}
use public_transport_tracker.Broadcast.WsClient.{
  WsClient, offer, send, close, ws_ops, new_ws_client, connect, disconnect, handle_web_socket,
  buffer_size,
}

module _ {Bytes : Type 0} where
  -- The client is closed: its `done` channel and its connection, once and for all.
  pub record IsClosed (c : WsClient Bytes) : Type 0 where
    pub once_run : c.once ≡ true
    pub done_closed : c.done ≡ true
    pub conn_closed : c.conn_closed ≡ true

  -- A client whose `once` has run is closed.
  abbrev pub ClosesOnce : WsClient Bytes → Type 0
  ClosesOnce c = c.once ≡ true → IsClosed c

  new_ws_client-ClosesOnce : ClosesOnce new_ws_client
  unfolding new_ws_client
  new_ws_client-ClosesOnce h = absurd (ground arith)

  send-ClosesOnce :
      {F : Type 0} (marshal : Envelope F → Option Bytes) (pick : Envelope F → WsClient Bytes → Bool)
      (env : Envelope F) (c : WsClient Bytes)
      → ClosesOnce c
      → ClosesOnce (send marshal pick env c).0
  unfolding send offer
  send-ClosesOnce marshal pick env c closes h = record {
    once_run = h;
    done_closed = ground (arith, (closes (ground arith)).done_closed);
    conn_closed = ground (arith, (closes (ground arith)).conn_closed);
  }

  close-IsClosed : (c : WsClient Bytes) → ClosesOnce c → IsClosed (close c)
  unfolding close
  close-IsClosed c closes = elim (Bool-cases c.once) [
    | inl e ↦ record {
      once_run = ground arith;
      done_closed = ground (arith, (closes e).done_closed);
      conn_closed = ground (arith, (closes e).conn_closed);
    }
    | inr e ↦ record {
      once_run = ground arith;
      done_closed = ground arith;
      conn_closed = ground arith;
    }
  ]

  close-send_ch : (c : WsClient Bytes) → (close c).send_ch ≡ c.send_ch
  unfolding close
  close-send_ch c = ground arith

  -- When the handler of an accepted connection returns, its client is not registered and is closed: `done`
  -- and the connection, whatever has happened to it in between, `Close` by others included; what was in
  -- its buffer stays there. The registration and the client of everybody else are what the time in
  -- between made of them.
  pub handle_web_socket_lem :
      (during : Hub × (ClientId → WsClient Bytes) → Hub × (ClientId → WsClient Bytes))
      (c : ClientId) (s : Hub × (ClientId → WsClient Bytes))
      → IsMap (during (connect c s)).0.clients
      → ClosesOnce ((during (connect c s)).1 c)
      → let (h, store) = handle_web_socket true during c s in
        let (h', store') = during (connect c s) in
        (registered c h ≡ none)
        × IsClosed (store c)
        × ((store c).send_ch ≡ (store' c).send_ch)
        × ((d : ClientId)
            → (c == d) ≡ false
            → (registered d h ≡ registered d h') × (store d ≡ store' d))
  unfolding handle_web_socket disconnect unregister
  handle_web_socket_lem during c s is_map closes =
      let own : (c == c) ≡ true = (==_iff c c).1 refl in
      let between = during (connect c s) in
      (
        ground (arith, lookup-delete c c between.0.clients is_map),
        rw own (close-IsClosed (between.1 c) closes),
        rw own (close-send_ch (between.1 c)),
        λ d other. (ground (arith, lookup-delete d c between.0.clients is_map), rw other refl),
      )

  -- The new client is registered, with an empty buffer, and all others stay as they are.
  pub connect_lem :
      (c d : ClientId) (h : Hub) (store : ClientId → WsClient Bytes)
      → let (h', store') = connect c (h, store) in
        (registered d h' ≡ (if c == d then some tt else registered d h))
        × (store' d ≡ (if c == d then new_ws_client else store d))
  unfolding connect register
  connect_lem c d h store = (lookup-assign d c tt h.clients, refl)

  -- A registered client whose buffer is full, and which is not closed, stays registered when an
  -- envelope is broadcast, and the envelope is lost on it: its buffer is as before.
  pub broadcast-slow_client :
      {F : Type 0} (marshal : Envelope F → Option Bytes) (pick : Envelope F → WsClient Bytes → Bool)
      (env : Envelope F) (message : Bytes) (order : List ClientId) (h : Hub)
      (store : ClientId → WsClient Bytes) (c : ClientId)
      → IsMap h.clients
      → Enumerates order h.clients
      → registered c h ≡ some tt
      → marshal env ≡ some message
      → buffer_size ≤ length (store c).send_ch
      → (store c).done ≡ false
      → let (h', store') = broadcast (ws_ops marshal pick) env order (h, store) in
        (registered c h' ≡ some tt) × (store' c ≡ store c)
  unfolding send offer
  broadcast-slow_client marshal pick env message order h store c is_map visits reg enc full live =
      let (objects, sets) = broadcast_lem (ws_ops marshal pick) env order h store is_map visits c in
      let kept : send marshal pick env (store c) ≡ (store c, true) = ground arith in
      (ground (arith, sets), ground (arith, objects))
