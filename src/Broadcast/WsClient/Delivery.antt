-- ===== src/Broadcast/WsClient/Delivery.antt =====
-- The order and the bound of the messages of one connection.
use public_transport_tracker.Base.{
  ◌+◌, ◌≡◌, ◌≤◌, refl, Bool, true, some, List, [], ◌∷◌, ◌++◌, length, length-append, append_assoc,
  arith,
}
use public_transport_tracker.Broadcast.WsClient.{
  Connection, Event, sends, closes, cancels, pump_ctx, pump_done, pump_write, reads, read_pump,
  cleans_up, handler_returns, offer, close, open_connection, write_next, step, Reach, here, next,
  buffer_size,
}

pub record IsOrderly {Bytes : Type 0} (s : Connection Bytes) : Type 0 where
  -- Every accepted message was written, was lost in a failed write, or waits, in this order.
  pub in_order : s.accepted ≡ s.written ++ (s.failed ++ s.client.send_ch)
  pub bounded : length s.client.send_ch ≤ buffer_size
  pub stopped : s.running ≡ true → s.failed ≡ []

module _ {Bytes : Type 0} where
  length-snoc : (m : Bytes) (xs : List Bytes) → length (xs ++ m ∷ []) ≡ length xs + 1
  length-snoc m xs = omega (arith, length-append xs (m ∷ []))

  snoc_last :
      (m : Bytes) (ws fs qs : List Bytes)
      → (ws ++ (fs ++ qs)) ++ m ∷ [] ≡ ws ++ (fs ++ (qs ++ m ∷ []))
  snoc_last m ws fs qs = simp append_assoc

  sends-IsOrderly :
      (pick : Bool) (m : Bytes) (s t : Connection Bytes)
      → IsOrderly s
      → step (sends pick m) s ≡ some t
      → IsOrderly t
  unfolding step offer
  sends-IsOrderly pick m s t h e =
      ground
        (arith, length-snoc m s.client.send_ch, snoc_last m s.written s.failed s.client.send_ch)

  write_next-IsOrderly :
      (succeeds : Bool) (q : List Bytes) (s t : Connection Bytes)
      → IsOrderly s
      → s.running ≡ true
      → s.client.send_ch ≡ q
      → write_next succeeds q s ≡ some t
      → IsOrderly t
  unfolding write_next
  write_next-IsOrderly succeeds [] s t h r eq e = cc
  write_next-IsOrderly succeeds (m ∷ q) s t h r eq e =
      ground (arith, append_assoc s.written (m ∷ []) q)

  step-IsOrderly :
      (e : Event Bytes) (s t : Connection Bytes) → IsOrderly s → step e s ≡ some t → IsOrderly t
  step-IsOrderly (sends pick m) s t h eq = sends-IsOrderly pick m s t h eq
  step-IsOrderly (pump_write succeeds) s t h eq =
      write_next-IsOrderly succeeds s.client.send_ch s t h (unfold step in ground arith) refl
        (unfold step in ground arith)
  step-IsOrderly closes s t h eq = unfold step close in ground arith
  step-IsOrderly cancels s t h eq = unfold step in ground arith
  step-IsOrderly pump_ctx s t h eq = unfold step in ground arith
  step-IsOrderly pump_done s t h eq = unfold step in ground arith
  step-IsOrderly (reads succeeds) s t h eq = unfold step read_pump in ground arith
  step-IsOrderly cleans_up s t h eq = unfold step close in ground arith
  step-IsOrderly handler_returns s t h eq = unfold step in ground arith

  -- In every reachable state of a connection the messages written are the first ones accepted, in
  -- order, without a gap and without a repetition (what is left waits in the buffer, behind at most the
  -- message of a write that failed), and the buffer holds at most 64.
  pub Reach-IsOrderly : {s : Connection Bytes} → Reach s → IsOrderly s
  Reach-IsOrderly here = unfold open_connection in ground arith
  Reach-IsOrderly (next {s = s} {t = t} r e eq) = step-IsOrderly e s t (Reach-IsOrderly r) eq
