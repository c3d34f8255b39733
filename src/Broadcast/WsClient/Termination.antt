-- ===== src/Broadcast/WsClient/Termination.antt =====
-- How long the write pump of a connection can run, and when it is not stuck.
use public_transport_tracker.Base.{
  ℕ, ◌+◌, ◌≡◌, ◌≤◌, refl, Bool, true, false, ◌||◌, Option, none, some, List, [], ◌∷◌, ◌⊎◌, inl, inr,
  length, if◌then◌else◌, length-append, arith, Option-cases, Bool-cases,
}
use public_transport_tracker.Broadcast.WsClient.{
  Connection, Event, sends, closes, cancels, pump_ctx, pump_done, pump_write, reads, cleans_up,
  handler_returns, read_pump, offer, close, write_next, step, Reach, buffer_size,
}
use public_transport_tracker.Broadcast.WsClient.Delivery.{Reach-IsOrderly}

module _ {Bytes : Type 0} where
  abbrev pub is_pump : Event Bytes → Bool
  is_pump pump_ctx = true
  is_pump pump_done = true
  is_pump (pump_write succeeds) = true
  is_pump _ = false

  abbrev pub is_send : Event Bytes → Bool
  is_send (sends pick message) = true
  is_send _ = false

  -- How many of the events pass the test.
  abbrev pub occurs : (Event Bytes → Bool) → List (Event Bytes) → ℕ
  occurs test [] = 0
  occurs test (e ∷ es) = (if test e then 1 else 0) + occurs test es

  -- The events one after the other; `none` if one of them cannot happen.
  unfoldable pub steps : List (Event Bytes) → Connection Bytes → Option (Connection Bytes)
  steps [] s = some s
  steps (e ∷ es) s = elim (step e s) [ none ↦ none | some t ↦ steps es t ]

  -- The client is closed, or the context of the connection is.
  abbrev pub is_closing : Connection Bytes → Bool
  is_closing s = s.client.done || s.ctx_done

  -- The rounds that the pump has left if nothing more is sent.
  abbrev pub rounds : Connection Bytes → ℕ
  rounds s = length s.client.send_ch + (if s.running then 1 else 0)

  write_next-rounds :
      (succeeds : Bool) (q : List Bytes) (s t : Connection Bytes)
      → s.client.send_ch ≡ q
      → s.running ≡ true
      → write_next succeeds q s ≡ some t
      → (rounds t + 1 ≤ rounds s) × (is_closing t ≡ is_closing s)
  unfolding write_next
  write_next-rounds succeeds [] s t eq r h = cc
  write_next-rounds succeeds (m ∷ q) s t eq r h = ground arith

  -- An event costs the pump a round, or is a `Send`, which may add one.
  pub step-rounds :
      (e : Event Bytes) (s t : Connection Bytes)
      → step e s ≡ some t
      → rounds t + (if is_pump e then 1 else 0) ≤ rounds s + (if is_send e then 1 else 0)
  step-rounds (sends pick m) s t h =
      unfold step offer in ground (arith, length-append s.client.send_ch (m ∷ []))
  step-rounds closes s t h = unfold step close in ground arith
  step-rounds cancels s t h = unfold step in ground arith
  step-rounds pump_ctx s t h = unfold step in ground arith
  step-rounds pump_done s t h = unfold step in ground arith
  step-rounds (reads succeeds) s t h = unfold step read_pump in ground arith
  step-rounds cleans_up s t h = unfold step close in ground arith
  step-rounds handler_returns s t h = unfold step in ground arith
  step-rounds (pump_write succeeds) s t h = omega (
    arith,
    (write_next-rounds succeeds s.client.send_ch s t refl (unfold step in ground arith)
        (unfold step in ground arith)).0,
  )

  step-is_closing :
      (e : Event Bytes) (s t : Connection Bytes)
      → step e s ≡ some t
      → is_closing s ≡ true
      → is_closing t ≡ true
  step-is_closing (sends pick m) s t h c = unfold step offer in ground arith
  step-is_closing closes s t h c = unfold step close in ground arith
  step-is_closing cancels s t h c = unfold step in ground arith
  step-is_closing pump_ctx s t h c = unfold step in ground arith
  step-is_closing pump_done s t h c = unfold step in ground arith
  step-is_closing (reads succeeds) s t h c = unfold step read_pump in ground arith
  step-is_closing cleans_up s t h c = unfold step close in ground arith
  step-is_closing handler_returns s t h c = unfold step in ground arith
  step-is_closing (pump_write succeeds) s t h c = ground (
    arith,
    write_next-rounds succeeds s.client.send_ch s t refl (unfold step in ground arith)
        (unfold step in ground arith),
  )

  steps-rounds :
      (es : List (Event Bytes)) (s t : Connection Bytes)
      → steps es s ≡ some t
      → is_closing s ≡ true
      → (rounds t + occurs is_pump es ≤ rounds s + occurs is_send es) × (is_closing t ≡ true)
  unfolding steps
  steps-rounds [] s t h c = ground arith
  steps-rounds (e ∷ es) s t h c = elim (Option-cases (step e s)) [
    | inl stuck ↦ absurd (ground arith)
    | inr (u, goes) ↦
        let rest = steps-rounds es u t (rw (goes, steps) at h) (step-is_closing e s u goes c) in
        (omega (arith, step-rounds e s u goes, rest.0), rest.1)
  ]

  -- Once a connection that was opened is closed or its context is done, the write pump makes at most
  -- 65 rounds more, and one more for each `Send` after that; and wherever it stands then it has
  -- returned or it can take a case of its `select` with which it returns: it never blocks.
  pub write_pump_terminates :
      (es : List (Event Bytes)) (s t : Connection Bytes)
      → Reach s
      → is_closing s ≡ true
      → steps es s ≡ some t
      → (occurs is_pump es ≤ buffer_size + 1 + occurs is_send es)
        × ((t.running ≡ false)
            ⊎ ((e : Event Bytes) × (u : Connection Bytes) × (is_pump e ≡ true)
                × (step e t ≡ some u)
                × (u.running ≡ false)))
  write_pump_terminates es s t r c h =
      let (bound, closing) = steps-rounds es s t h c in
      (
        ground (arith, bound, (Reach-IsOrderly r).bounded),
        elim (Bool-cases t.running) [
          | inr stopped ↦ inl stopped
          | inl runs ↦ elim (Bool-cases t.client.done) [
            | inl d ↦
                inr
                  (pump_done, record t { running = false }, refl, unfold step in ground arith, refl)
            | inr d ↦
                inr
                  (pump_ctx, record t { running = false }, refl, unfold step in ground arith, refl)
          ]
        ],
      )
