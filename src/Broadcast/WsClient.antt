-- ===== src/Broadcast/WsClient.antt =====
-- internal/broadcast/ws_client.go: one WebSocket connection with its send buffer.
pub mod Delivery
pub mod Lifecycle
pub mod Termination
pub mod Ending
use public_transport_tracker.Base.{
  ℕ, ◌≡◌, Bool, true, false, ◌&&◌, Option, none, some, List, [], ◌∷◌, ◌++◌, if◌then◌else◌, length,
  ltb, nat_eq,
}
use public_transport_tracker.GoMap.{GoMap}
use public_transport_tracker.Broadcast.{Envelope}
use public_transport_tracker.Broadcast.Hub.{ClientId, ClientOps, Hub, register, unregister, put}

-- make(chan []byte, 64)
abbrev pub buffer_size : ℕ
buffer_size = 64

-- `Bytes` is the type of the encoded messages.
pub record WsClient (Bytes : Type 0) : Type 0 where
  pub send_ch : List Bytes
  -- the channel `done` is closed
  pub done : Bool
  -- `once` has run
  pub once : Bool
  -- `conn.Close` was called
  pub conn_closed : Bool

module _ {Bytes : Type 0} where
  unfoldable pub new_ws_client : WsClient Bytes
  new_ws_client = record { send_ch = []; done = false; once = false; conn_closed = false }

  -- The `select` of `Send`. Where both cases are ready the runtime picks one: `pick` is its choice.
  unfoldable pub offer : Bool → Bytes → WsClient Bytes → WsClient Bytes × Bool
  offer pick message c =
      let queued : WsClient Bytes × Bool =
        (record c { send_ch = c.send_ch ++ message ∷ [] }, true) in
      if ltb (length c.send_ch) buffer_size
      then (if c.done then (if pick then queued else (c, false)) else queued)
      else if c.done
      then (c, false)
      else (c, true)

  unfoldable pub close : WsClient Bytes → WsClient Bytes
  close c = if c.once then c else record c { done = true; once = true; conn_closed = true }

  -- `marshal` is `msgpack.Marshal`.
  unfoldable pub send :
      {F : Type 0}
      → (Envelope F → Option Bytes)
      → (Envelope F → WsClient Bytes → Bool)
      → Envelope F
      → WsClient Bytes
      → WsClient Bytes × Bool
  send marshal pick env c = elim (marshal env) [
    | none ↦ (c, false)
    | some message ↦ offer (pick env c) message c
  ]

-- The `Client` interface, as `WSClient` implements it.
abbrev pub ws_ops :
    {F Bytes : Type 0}
    → (Envelope F → Option Bytes)
    → (Envelope F → WsClient Bytes → Bool)
    → ClientOps F
ws_ops {F} {Bytes} marshal pick = record {
  Object = WsClient Bytes;
  send = send marshal pick;
  close = close;
}

-- Where the handler of a connection stands: in `readPump`, behind it, behind `Close`, or returned.
pub data Stage : Type 0 where
  reading left_read_pump closed_client returned : Stage

-- A `Read` of `readPump`, whose loop goes on until an error.
unfoldable pub read_pump : Bool → Stage → Option Stage
read_pump succeeds reading = some (if succeeds then reading else left_read_pump)
read_pump succeeds _ = none

-- A connection: the client, what its write pump has written, and whether the pump still runs.
pub record Connection (Bytes : Type 0) : Type 0 where
  pub client : WsClient Bytes
  pub ctx_done : Bool
  pub stage : Stage
  pub running : Bool
  pub written : List Bytes
  -- taken from the channel by a write that failed
  pub failed : List Bytes
  -- put into the channel by `Send`, in order
  pub accepted : List Bytes

-- What may happen at a connection: a `Send` of an encoded message, `Close`, the end of the context, a
-- round of `writePump` that takes one of the cases of its `select`, a `Read` of `readPump` that
-- returns with a message or with an error, or the handler's clean-up and return.
pub data Event (Bytes : Type 0) : Type 0 where
  sends : Bool → Bytes → Event Bytes
  closes : Event Bytes
  cancels : Event Bytes
  pump_ctx : Event Bytes
  pump_done : Event Bytes
  pump_write : Bool → Event Bytes
  reads : Bool → Event Bytes
  cleans_up handler_returns : Event Bytes

module _ {Bytes : Type 0} where
  unfoldable pub open_connection : Connection Bytes
  unfolding new_ws_client
  open_connection = record {
    client = new_ws_client;
    ctx_done = false;
    stage = reading;
    running = true;
    written = [];
    failed = [];
    accepted = [];
  }

  -- The case `data := <-c.sendCh`: on an error of `conn.Write` the pump returns.
  unfoldable pub write_next : Bool → List Bytes → Connection Bytes → Option (Connection Bytes)
  write_next succeeds [] s = none
  write_next succeeds (message ∷ rest) s =
      let client = record s.client { send_ch = rest } in
      if succeeds
      then some (record s { client = client; written = s.written ++ message ∷ [] })
      else some (record s { client = client; running = false; failed = message ∷ [] })

  -- `none` where the event cannot happen. `Unregister`, behind `Close`, is the hub's, and the return of
  -- the handler cancels the context.
  unfoldable pub step : Event Bytes → Connection Bytes → Option (Connection Bytes)
  step (sends pick message) s =
      let (client, sent) = offer pick message s.client in
      some (record s {
        client = client;
        accepted =
            if ltb (length s.client.send_ch) (length client.send_ch)
            then s.accepted ++ message ∷ []
            else s.accepted;
      })
  step closes s = some (record s { client = close s.client })
  step cancels s = some (record s { ctx_done = true })
  step pump_ctx s = if s.running && s.ctx_done then some (record s { running = false }) else none
  step pump_done s =
      if s.running && s.client.done then some (record s { running = false }) else none
  step (pump_write succeeds) s = if s.running then write_next succeeds s.client.send_ch s else none
  step (reads succeeds) s = elim (read_pump succeeds s.stage) [
    | none ↦ none
    | some stage ↦ some (record s { stage = stage })
  ]
  step cleans_up s = elim s.stage [
    | left_read_pump ↦ some (record s { client = close s.client; stage = closed_client })
    | _ ↦ none
  ]
  step handler_returns s = elim s.stage [
    | closed_client ↦ some (record s { ctx_done = true; stage = returned })
    | _ ↦ none
  ]

-- The states that a fresh connection can come to.
pub data Reach {Bytes : Type 0} : Connection Bytes → Type 0 where
  here : Reach open_connection
  next : {s t : Connection Bytes} → Reach s → (e : Event Bytes) → step e s ≡ some t → Reach t

-- HandleWebSocket up to the pumps, for an accepted connection: a new client is registered.
unfoldable pub connect :
    {Bytes : Type 0}
    → ClientId
    → Hub × (ClientId → WsClient Bytes)
    → Hub × (ClientId → WsClient Bytes)
connect c (h, store) = (register c h, put store c new_ws_client)

-- And after `readPump` has returned.
unfoldable pub disconnect :
    {Bytes : Type 0}
    → ClientId
    → Hub × (ClientId → WsClient Bytes)
    → Hub × (ClientId → WsClient Bytes)
disconnect c (h, store) = (unregister c h, put store c (close (store c)))

-- `accepted` is whether `websocket.Accept` succeeds, and `during` is all that happens to the hub and
-- to the clients while `readPump` blocks.
unfoldable pub handle_web_socket :
    {Bytes : Type 0}
    → Bool
    → (Hub × (ClientId → WsClient Bytes) → Hub × (ClientId → WsClient Bytes))
    → ClientId
    → Hub × (ClientId → WsClient Bytes)
    → Hub × (ClientId → WsClient Bytes)
handle_web_socket accepted during c s = if accepted then disconnect c (during (connect c s)) else s
