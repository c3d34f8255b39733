-- ===== src/Tests/ConnectionTests.antt =====
-- A connection that ends with a message in its buffer.
use public_transport_tracker.Base.{ℕ, ◌+◌, ◌≡◌, ◌≤◌, refl, true, false, some, List, [], ◌∷◌}
use public_transport_tracker.Broadcast.WsClient.{
  Connection, Event, sends, pump_ctx, pump_write, reads, cleans_up, handler_returns, left_read_pump,
  returned, read_pump, offer, close, write_next, new_ws_client, open_connection, step, Reach,
  buffer_size,
}
use public_transport_tracker.Broadcast.WsClient.Termination.{is_send, occurs, steps}
use public_transport_tracker.Broadcast.WsClient.Ending.{is_own, Goes, connection_ends}

program : Unit {0}
unfolding step read_pump offer close write_next open_connection new_ws_client steps
program = tt

-- `Read` has failed with a message in the buffer.
abbrev left_over : Connection ℕ
left_over = record open_connection {
  client = record new_ws_client { send_ch = 7 ∷ [] };
  stage = left_read_pump;
  accepted = 7 ∷ [];
}

left_over-Reach : Reach left_over
unfolding program
left_over-Reach = Reach.next (Reach.next Reach.here (sends true 7) refl) (reads false) refl

abbrev events : List (Event ℕ)
events =
    pump_write true ∷ cleans_up ∷ sends true 8 ∷ pump_write true ∷ handler_returns ∷ pump_ctx ∷ []

abbrev drained : Connection ℕ
drained = record {
  client = record { send_ch = []; done = true; once = true; conn_closed = true };
  ctx_done = true;
  stage = returned;
  running = false;
  written = 7 ∷ 8 ∷ [];
  failed = [];
  accepted = 7 ∷ 8 ∷ [];
}

events_run : steps events left_over ≡ some drained
unfolding program
events_run = refl

connection_ends_example :
    (occurs is_own events ≤ buffer_size + 3 + occurs is_send events) × Goes drained
unfolding open_connection
connection_ends_example = connection_ends events left_over drained left_over-Reach refl events_run
