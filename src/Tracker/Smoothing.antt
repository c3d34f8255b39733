-- ===== src/Tracker/Smoothing.antt =====
-- The filter and the snapper that `runServe` builds, behind its poller: what becomes of the positions.
use public_transport_tracker.Base.{
  string_eq, ◌≡◌, refl, sym, ap, subst, ◌∙◌, map, Option, none, some, List, [], ◌∷◌, String,
}
use public_transport_tracker.Float.{Float}
use public_transport_tracker.GoMap.{lookup}
use public_transport_tracker.Vehicle.{Time, Position, RawUpdate, State, PositionFilter}
use public_transport_tracker.Vehicle.Kalman.{kalman}
use public_transport_tracker.Vehicle.Snapper.{snap, new_in_memory_snapper}
use public_transport_tracker.Vehicle.Manager.{
  VehicleEntry, DefaultStateManager, new_default_state_manager, get, process,
}
use public_transport_tracker.Vehicle.Manager.Isolation.{track}
use public_transport_tracker.Vehicle.Manager.Reads.{new_default_state_manager-IsValid}
use public_transport_tracker.Realtime.Decoder.{Bindings}
use public_transport_tracker.Realtime.Poller.{Signal, tick, run}
use public_transport_tracker.Tracker.Pipeline.{poller, decoded, run-handle_updates}
use public_transport_tracker.Tracker.Pruned.{
  Turn, heard, since, Interleaves, Interleaves-track, handle_updates-Interleaves,
}

module _ {F : Type 0} ⦃f : Float F⦄ (pf : PositionFilter F) where
  open pf use {Filter, factory, filter}

  -- The last position that a filter returns for the raw positions of the updates, one after the other.
  abbrev pub smoothed : Filter → List (RawUpdate F) → Option (Position F) → Option (Position F)
  smoothed state [] last = last
  smoothed state (u ∷ us) last =
      let (next, out) = filter state u.position in smoothed next us (some out)

  abbrev pub position_of : Option (State F) → Option (Position F)
  position_of none = none
  position_of (some s) = some s.position

  abbrev state_of : Option (VehicleEntry F Filter) → Option (State F)
  state_of none = none
  state_of (some entry) = some entry.state

  track-smoothed :
      (us : List (RawUpdate F)) (entry : VehicleEntry F Filter)
      → position_of (state_of (track pf (snap new_in_memory_snapper) us (some entry)))
        ≡ smoothed entry.filter us (some entry.state.position)
  unfolding process snap new_in_memory_snapper lookup
  track-smoothed [] entry = refl
  track-smoothed (u ∷ us) entry =
      track-smoothed us (process pf (snap new_in_memory_snapper) entry u)

  track_new :
      (us : List (RawUpdate F))
      → position_of (state_of (track pf (snap new_in_memory_snapper) us none))
        ≡ smoothed factory us none
  unfolding process snap new_in_memory_snapper lookup
  track_new [] = refl
  track_new (u ∷ us) = track-smoothed us _

  get-state_of :
      (id : String) (m : DefaultStateManager F Filter) → get m id ≡ state_of (lookup id m.vehicles)
  unfolding get
  get-state_of id m = refl

-- Of the system that `runServe` builds, whatever the feed answers: the goroutine of the poller gives the
-- updates that it decodes to the manager one by one, and the prune goroutine prunes between them, at any
-- times. Whenever one looks, the position that `Get` returns for a vehicle is the last output of one
-- Kalman filter, new for the first of them, over the raw positions of the updates that the vehicle has had
-- since it was last pruned, in their order, and there is none if it has had none; it is pruned by a prune
-- at a time to which its last update is more than five minutes old; and no position is snapped to a shape.
-- The run of the poller alone is such an interleaving, without a prune.
pub run-smoothed :
    {F Bytes : Type 0} ⦃f : Float F⦄ (pb : Bindings F Bytes) (clock : Time → pb.Entity → Time)
    (id : String) (now : Time) (answer : Option Bytes) (signals : List (Signal Bytes))
    (turns : List (Turn F)) (m : DefaultStateManager F (kalman {F = F}).Filter)
    → let snapped = snap {F = F} new_in_memory_snapper in
      let polled = decoded kalman snapped pb clock (tick now answer ∷ signals) in
      let built = poller kalman snapped pb clock in
      let m0 = new_default_state_manager in
      Interleaves kalman snapped polled m0 turns m
      → (position_of kalman (get m id)
          ≡ smoothed kalman (kalman {F = F}).factory (since id [] turns) none)
        × Interleaves kalman snapped polled m0 (map heard polled) (run built now answer signals m0)
unfolding new_default_state_manager lookup
run-smoothed {F} pb clock id now answer signals turns m interleaves =
    let snapped = snap {F = F} new_in_memory_snapper in
    let polled = decoded kalman snapped pb clock (tick now answer ∷ signals) in
    let m0 = new_default_state_manager in
    (
      ap (position_of kalman) (get-state_of kalman id m)
          ∙ ap (λ o. position_of kalman (state_of kalman o))
              (Interleaves-track kalman snapped id [] interleaves new_default_state_manager-IsValid
                refl)
          ∙ track_new kalman (since id [] turns),
      subst (λ end. Interleaves kalman snapped polled m0 (map heard polled) end)
          (sym (run-handle_updates kalman snapped pb clock now answer signals m0))
          (handle_updates-Interleaves kalman snapped polled m0),
    )
