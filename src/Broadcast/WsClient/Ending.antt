-- ===== src/Broadcast/WsClient/Ending.antt =====
-- How a connection ends behind a failed `Read`: its two goroutines come to their ends.
use public_transport_tracker.Base.{
  ℕ, ◌+◌, ◌≡◌, ◌≤◌, refl, Bool, true, false, some, List, [], ◌∷◌, ◌⊎◌, inl, inr, if◌then◌else◌,
  arith, Option-cases, Bool-cases, subst,
}
use public_transport_tracker.Broadcast.WsClient.{
  Connection, Event, sends, closes, cancels, pump_ctx, pump_done, pump_write, reads, cleans_up,
  handler_returns, Stage, reading, left_read_pump, closed_client, returned, read_pump, offer, close,
  open_connection, write_next, step, Reach, here, next, buffer_size,
}
use public_transport_tracker.Broadcast.WsClient.Delivery.{Reach-IsOrderly}
use public_transport_tracker.Broadcast.WsClient.Termination.{
  is_send, occurs, steps, rounds, step-rounds,
}

-- The steps that the handler has left behind `readPump`.
abbrev left : Stage → ℕ
left reading = 0
left left_read_pump = 2
left closed_client = 1
left returned = 0

abbrev pub is_reading : Stage → Bool
is_reading reading = true
is_reading _ = false

module _ {Bytes : Type 0} where
  -- The events of the connection's own goroutines, the handler and the write pump.
  abbrev pub is_own : Event Bytes → Bool
  is_own (sends pick message) = false
  is_own closes = false
  is_own cancels = false
  is_own _ = true

  write_next_keeps :
      (succeeds : Bool) (q : List Bytes) (s t : Connection Bytes)
      → write_next succeeds q s ≡ some t
      → (t.stage ≡ s.stage) × (t.ctx_done ≡ s.ctx_done)
  unfolding write_next
  write_next_keeps succeeds [] s t h = cc
  write_next_keeps succeeds (m ∷ q) s t h = ground arith

  step-left :
      (e : Event Bytes) (s t : Connection Bytes)
      → step e s ≡ some t
      → is_reading s.stage ≡ false
      → (rounds t + left t.stage + (if is_own e then 1 else 0)
          ≤ rounds s + left s.stage + (if is_send e then 1 else 0))
        × (is_reading t.stage ≡ false)
  step-left (sends pick m) s t h r =
      let n = step-rounds (sends pick m) s t h in unfold step offer in ground arith
  step-left closes s t h r = unfold step close in ground arith
  step-left cancels s t h r = unfold step in ground arith
  step-left pump_ctx s t h r = unfold step in ground arith
  step-left pump_done s t h r = unfold step in ground arith
  step-left (pump_write succeeds) s t h r =
      let n = step-rounds (pump_write succeeds) s t h in
      let keeps = write_next_keeps succeeds s.client.send_ch s t (unfold step in ground arith) in
      ground arith
  step-left (reads succeeds) s t h r = unfold step read_pump in ground arith
  step-left cleans_up s t h r = unfold step close in ground arith
  step-left handler_returns s t h r = unfold step in ground arith

  -- The return of the handler has cancelled the context.
  step-returned :
      (e : Event Bytes) (s t : Connection Bytes)
      → step e s ≡ some t
      → (s.stage ≡ returned → s.ctx_done ≡ true)
      → t.stage ≡ returned
      → t.ctx_done ≡ true
  step-returned (sends pick m) s t h c r = unfold step offer in ground arith
  step-returned closes s t h c r = unfold step close in ground arith
  step-returned cancels s t h c r = unfold step in ground arith
  step-returned pump_ctx s t h c r = unfold step in ground arith
  step-returned pump_done s t h c r = unfold step in ground arith
  step-returned (pump_write succeeds) s t h c r =
      let keeps = write_next_keeps succeeds s.client.send_ch s t (unfold step in ground arith) in
      ground arith
  step-returned (reads succeeds) s t h c r = unfold step read_pump in ground arith
  step-returned cleans_up s t h c r = unfold step close in ground arith
  step-returned handler_returns s t h c r = unfold step in ground arith

  Reach-returned : {s : Connection Bytes} → Reach s → s.stage ≡ returned → s.ctx_done ≡ true
  unfolding open_connection
  Reach-returned here r = absurd (ground arith)
  Reach-returned (next {s = s} {t = t} reach e h) r = step-returned e s t h (Reach-returned reach) r

  steps-left :
      (es : List (Event Bytes)) (s t : Connection Bytes)
      → Reach s
      → steps es s ≡ some t
      → is_reading s.stage ≡ false
      → (rounds t + left t.stage + occurs is_own es ≤ rounds s + left s.stage + occurs is_send es)
        × (is_reading t.stage ≡ false)
        × Reach t
  unfolding steps
  steps-left [] s t reach h r =
      let same : s ≡ t = ground arith in (ground arith, ground arith, subst Reach same reach)
  steps-left (e ∷ es) s t reach h r = elim (Option-cases (step e s)) [
    | inl stuck ↦ absurd (ground arith)
    | inr (u, goes) ↦
        let (n, r') = step-left e s u goes r in
        let (m, r'', reach') = steps-left es u t (next reach e goes) (rw (goes, steps) at h) r' in
        (omega (arith, n, m), r'', reach')
  ]

  -- What the two goroutines can do next, if they have not both ended.
  abbrev pub Goes : Connection Bytes → Type 0
  Goes t =
      ((t.running ≡ false) × (t.stage ≡ returned))
      ⊎ ((e : Event Bytes) × (u : Connection Bytes) × (is_own e ≡ true) × (step e t ≡ some u))

  never_stuck :
      (t : Connection Bytes) (stage : Stage)
      → t.stage ≡ stage
      → is_reading stage ≡ false
      → (t.stage ≡ returned → t.ctx_done ≡ true)
      → Goes t
  never_stuck t reading e r c = absurd (ground arith)
  never_stuck t left_read_pump e r c = inr (
    cleans_up,
    record t { client = close t.client; stage = closed_client },
    refl,
    unfold step in ground arith,
  )
  never_stuck t closed_client e r c = inr (
    handler_returns,
    record t { ctx_done = true; stage = returned },
    refl,
    unfold step in ground arith,
  )
  never_stuck t returned e r c = elim (Bool-cases t.running) [
    | inr stopped ↦ inl (stopped, e)
    | inl runs ↦
        inr (pump_ctx, record t { running = false }, refl, unfold step in ground (arith, c e))
  ]

  -- Once `Read` has failed on a connection that was opened, its handler and its write pump make at most
  -- 67 steps more, and one more for each `Send` after that; and wherever they stand then, both have
  -- returned or one of them can go on: no goroutine is left behind.
  pub connection_ends :
      (es : List (Event Bytes)) (s t : Connection Bytes)
      → Reach s
      → is_reading s.stage ≡ false
      → steps es s ≡ some t
      → (occurs is_own es ≤ buffer_size + 3 + occurs is_send es) × Goes t
  connection_ends es s t reach r h =
      let (n, r', reach') = steps-left es s t reach h r in
      let few : left s.stage ≤ 2 = elim s.stage as (λ x. left x ≤ 2) [
        | reading ↦ omega arith
        | left_read_pump ↦ omega arith
        | closed_client ↦ omega arith
        | returned ↦ omega arith
      ] in
      (
        ground (arith, n, few, (Reach-IsOrderly reach).bounded),
        never_stuck t t.stage refl r' (Reach-returned reach'),
      )
