-- ===== src/Realtime/Poller/Trace.antt =====
-- What a run of the poller delivers.
use public_transport_tracker.Base.{
  ◌≡◌, refl, Option, none, some, List, [], ◌∷◌, if◌then◌else◌, arith, ◌∙◌, ap, sym,
}
use public_transport_tracker.Vehicle.{RawUpdate, Time}
use public_transport_tracker.Realtime.Poller.{
  Poller, Signal, tick, done, poll_once, run_loop, run, is_empty,
}

module _ {F Bytes S : Type 0} (p : Poller F Bytes S) where
  -- The batch that a poll decodes: nothing if the feed fails or does not decode, or is empty.
  abbrev pub batch : Time → Option Bytes → List (RawUpdate F)
  batch now none = []
  batch now (some message) = elim (p.decoder.decode_vehicle_positions now message) [
    | none ↦ []
    | some updates ↦ updates
  ]

  -- A batch that is empty is not delivered.
  abbrev pub before : List (RawUpdate F) → List (List (RawUpdate F)) → List (List (RawUpdate F))
  before [] rest = rest
  before (u ∷ us) rest = (u ∷ us) ∷ rest

  -- The batches of the polls that a run makes, in order, up to the end of the context.
  abbrev pub batches : List (Signal Bytes) → List (List (RawUpdate F))
  batches [] = []
  batches (done ∷ signals) = []
  batches (tick now answer ∷ signals) = before (batch now answer) (batches signals)

  abbrev pub deliver_all : S → List (List (RawUpdate F)) → S
  deliver_all s [] = s
  deliver_all s (us ∷ rest) = deliver_all (p.handler us s) rest

  deliver_all-before :
      (us : List (RawUpdate F)) (rest : List (List (RawUpdate F))) (s : S)
      → deliver_all s (before us rest)
        ≡ deliver_all (if is_empty us then s else p.handler us s) rest
  deliver_all-before [] rest s = refl
  deliver_all-before (u ∷ us) rest s = refl

  poll_once-batch :
      (now : Time) (answer : Option Bytes) (s : S)
      → (poll_once p now answer s).0
        ≡ (if is_empty (batch now answer) then s else p.handler (batch now answer) s)
  unfolding poll_once
  poll_once-batch now none s = refl
  poll_once-batch now (some message) s = ground arith

  run_loop-batches :
      (signals : List (Signal Bytes)) (s : S)
      → run_loop p signals s ≡ deliver_all s (batches signals)
  unfolding run_loop
  run_loop-batches [] s = refl
  run_loop-batches (done ∷ signals) s = refl
  run_loop-batches (tick now answer ∷ signals) s =
      run_loop-batches signals (poll_once p now answer s).0
      ∙ ap (λ t. deliver_all t (batches signals)) (poll_once-batch now answer s)
      ∙ sym (deliver_all-before (batch now answer) (batches signals) s)

  -- A run delivers the decoded batches of the first poll and of every tick up to the end of the
  -- context, each once and in order, but for the empty ones; a poll that fails to fetch or to decode
  -- delivers nothing and does not stop the later ones.
  pub run-batches :
      (now : Time) (answer : Option Bytes) (signals : List (Signal Bytes)) (s : S)
      → run p now answer signals s ≡ deliver_all s (before (batch now answer) (batches signals))
  unfolding run run_loop
  run-batches now answer signals s = run_loop-batches (tick now answer ∷ signals) s
