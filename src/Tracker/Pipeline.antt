-- ===== src/Tracker/Pipeline.antt =====
-- The real-time pipeline of `runServe`: a poller whose handler updates the state manager.
use public_transport_tracker.Base.{string_eq, ◌≡◌, refl, sym, ◌∙◌, Option, List, [], ◌∷◌, ◌++◌}
use public_transport_tracker.Float.{Float}
use public_transport_tracker.Vehicle.{Time, RawUpdate, PositionFilter, RouteSnapper}
use public_transport_tracker.Vehicle.Manager.{DefaultStateManager}
use public_transport_tracker.Vehicle.Manager.Isolation.{handle_updates}
use public_transport_tracker.Realtime.Decoder.{Bindings, proto_decoder}
use public_transport_tracker.Realtime.Poller.{Poller, Signal, tick, done, run}
use public_transport_tracker.Realtime.Poller.Trace.{
  batch, before, batches, deliver_all, run-batches,
}

module _ {F Bytes : Type 0} ⦃f : Float F⦄ (pf : PositionFilter F) (snap : RouteSnapper F)
    (pb : Bindings F Bytes) (clock : Time → pb.Entity → Time) where
  open pf use {Filter}

  -- The poller that `runServe` builds.
  abbrev pub poller : Poller F Bytes (DefaultStateManager F Filter)
  poller = record { decoder = proto_decoder pb clock; handler = handle_updates pf snap }

  -- All updates that the polls decode up to the end of the context, in order.
  abbrev pub decoded : List (Signal Bytes) → List (RawUpdate F)
  decoded [] = []
  decoded (done ∷ signals) = []
  decoded (tick now answer ∷ signals) = batch poller now answer ++ decoded signals

  handle_updates-append :
      (us vs : List (RawUpdate F)) (m : DefaultStateManager F Filter)
      → handle_updates pf snap (us ++ vs) m
        ≡ handle_updates pf snap vs (handle_updates pf snap us m)
  unfolding handle_updates
  handle_updates-append [] vs m = refl
  handle_updates-append (u ∷ us) vs m = handle_updates-append us vs _

  deliver_before :
      (us : List (RawUpdate F)) (rest : List (List (RawUpdate F)))
      (m : DefaultStateManager F Filter)
      → deliver_all poller m (before poller us rest)
        ≡ deliver_all poller (handle_updates pf snap us m) rest
  unfolding handle_updates
  deliver_before [] rest m = refl
  deliver_before (u ∷ us) rest m = refl

  deliver_all-decoded :
      (signals : List (Signal Bytes)) (m : DefaultStateManager F Filter)
      → deliver_all poller m (batches poller signals) ≡ handle_updates pf snap (decoded signals) m
  unfolding handle_updates
  deliver_all-decoded [] m = refl
  deliver_all-decoded (done ∷ signals) m = refl
  deliver_all-decoded (tick now answer ∷ signals) m =
      let us = batch poller now answer in
      deliver_before us (batches poller signals) m
      ∙ deliver_all-decoded signals (handle_updates pf snap us m)
      ∙ sym (handle_updates-append us (decoded signals) m)

  -- A run of the poller hands over all updates that the polls decode, one after the other.
  pub run-handle_updates :
      (now : Time) (answer : Option Bytes) (signals : List (Signal Bytes))
      (m : DefaultStateManager F Filter)
      → run poller now answer signals m
        ≡ handle_updates pf snap (decoded (tick now answer ∷ signals)) m
  run-handle_updates now answer signals m =
      run-batches poller now answer signals m ∙ deliver_all-decoded (tick now answer ∷ signals) m
