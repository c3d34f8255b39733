-- ===== src/Tracker/Pruned.antt =====
-- The two goroutines of `runServe` (cmd/tracker/main.go) that write to the manager: the poller's and the
-- prune loop.
use public_transport_tracker.Base.{
  string_eq, ◌≡◌, refl, sym, ap, ◌∙◌, map, Bool, false, Option, none, some, List, [], ◌∷◌, ◌++◌,
  String, if◌then◌else◌, ◌==◌, ==_iff, get_last?, get_or, arith, Bool-cases, inl, inr,
}
use public_transport_tracker.Float.{Float}
use public_transport_tracker.GoMap.{lookup, Enumerates}
use public_transport_tracker.Vehicle.{Time, before, RawUpdate, PositionFilter, RouteSnapper}
use public_transport_tracker.Vehicle.Manager.{
  VehicleEntry, DefaultStateManager, fresh_entry, process, update, prune,
}
use public_transport_tracker.Vehicle.Manager.Isolation.{track, handle_updates}
use public_transport_tracker.Vehicle.Manager.Reads.{IsValid, lookup-update, update-IsValid}
use public_transport_tracker.Vehicle.Manager.Prune.{fresh_only, prune_lem}
use public_transport_tracker.Tracker.{stale_before}

-- What the manager sees of the two goroutines that write to it.
pub data Turn (F : Type 0) : Type 0 where
  heard : RawUpdate F → Turn F
  pruned : Time → Turn F

module _ {F : Type 0} where
  -- The last of the updates is older than what a prune at this time keeps.
  abbrev pub is_stale : Time → List (RawUpdate F) → Bool
  is_stale now us = elim (get_last? us) [
    | none ↦ false
    | some u ↦ before u.position.timestamp (stale_before now)
  ]

  -- The updates of a vehicle since it was last pruned; `us` are those so far.
  abbrev pub since : String → List (RawUpdate F) → List (Turn F) → List (RawUpdate F)
  since id us [] = us
  since id us (heard u ∷ turns) = since id (if u.vehicle_id == id then us ++ u ∷ [] else us) turns
  since id us (pruned now ∷ turns) = since id (if is_stale now us then [] else us) turns

module _ {F : Type 0} ⦃f : Float F⦄ (pf : PositionFilter F) (snap : RouteSnapper F) where
  open pf use {Filter}

  -- The poller's goroutine has some updates to hand over, one by one, and the prune goroutine may prune
  -- before each of them, at any time and in any order of the range. The run may be looked at anywhere.
  pub data Interleaves
      : List (RawUpdate F)
        → DefaultStateManager F Filter
        → List (Turn F)
        → DefaultStateManager F Filter
        → Type 0 where
    looked_at : (us : List (RawUpdate F)) (m : DefaultStateManager F Filter) → Interleaves us m [] m
    hears :
        (u : RawUpdate F) (us : List (RawUpdate F)) (m m' : DefaultStateManager F Filter)
        (turns : List (Turn F))
        → Interleaves us (update pf snap u m) turns m'
        → Interleaves (u ∷ us) m (heard u ∷ turns) m'
    prunes :
        (order : List String) (now : Time) (us : List (RawUpdate F))
        (m m' : DefaultStateManager F Filter) (turns : List (Turn F))
        → Enumerates order m.vehicles
        → Interleaves us (prune order (stale_before now) m).0 turns m'
        → Interleaves us m (pruned now ∷ turns) m'

  track-append :
      (us : List (RawUpdate F)) (u : RawUpdate F) (o : Option (VehicleEntry F Filter))
      → track pf snap (us ++ u ∷ []) o
        ≡ some (process pf snap (get_or (track pf snap us o) (fresh_entry pf snap)) u)
  track-append [] u o = refl
  track-append (v ∷ us) u o = track-append us u _

  -- The time of an entry is that of the last update.
  updated_at_of : Option (VehicleEntry F Filter) → Option Time
  updated_at_of none = none
  updated_at_of (some entry) = some entry.state.updated_at

  timestamp_of : Option (RawUpdate F) → Option Time
  timestamp_of none = none
  timestamp_of (some u) = some u.position.timestamp

  track-updated_at :
      (us : List (RawUpdate F)) (entry : VehicleEntry F Filter) (u : RawUpdate F)
      → entry.state.updated_at ≡ u.position.timestamp
      → (later : VehicleEntry F Filter) × (w : RawUpdate F) × (track pf snap us (some entry)
          ≡ some later)
        × (get_last? (u ∷ us) ≡ some w)
        × (later.state.updated_at ≡ w.position.timestamp)
  unfolding process
  track-updated_at [] entry u h = (entry, u, refl, refl, h)
  track-updated_at (v ∷ us) entry u h = track-updated_at us (process pf snap entry v) v refl

  -- A prune takes an entry away exactly if the last update behind it is stale.
  fresh_only-track :
      (now : Time) (us : List (RawUpdate F))
      → fresh_only (stale_before now) (track pf snap us none)
        ≡ track pf snap (if is_stale now us then [] else us) none
  unfolding process
  fresh_only-track now [] = refl
  fresh_only-track now (u ∷ us) =
      let (later, w, tracked, last, same) =
        track-updated_at us (process pf snap (fresh_entry pf snap) u) u refl in
      elim (Bool-cases (before w.position.timestamp (stale_before now))) [
        | inl e ↦ ground arith
        | inr e ↦ ground arith
      ]

  lookup-update-track :
      (id : String) (u : RawUpdate F) (m : DefaultStateManager F Filter)
      (so_far : List (RawUpdate F))
      → lookup id m.vehicles ≡ track pf snap so_far none
      → lookup id (update pf snap u m).vehicles
        ≡ track pf snap (if u.vehicle_id == id then so_far ++ u ∷ [] else so_far) none
  lookup-update-track id u m so_far e =
      let reads = lookup-update pf snap id u m in
      elim (Bool-cases (u.vehicle_id == id)) [
        | inr other ↦ let reads' = rw other at reads in rw other (reads' ∙ e)
        | inl own ↦
            let reads' = rw own at reads in
            let found = ap (λ j. lookup j m.vehicles) ((==_iff u.vehicle_id id).0 own) ∙ e in
            rw own (
              reads'
              ∙ ap (λ o. some (process pf snap (get_or o (fresh_entry pf snap)) u)) found
              ∙ sym (track-append so_far u none))
      ]

  -- The entry of a vehicle is what its updates since it was last pruned make of none.
  pub Interleaves-track :
      (id : String) {us : List (RawUpdate F)} {m m' : DefaultStateManager F Filter}
      {turns : List (Turn F)} (so_far : List (RawUpdate F))
      → Interleaves us m turns m'
      → IsValid m
      → lookup id m.vehicles ≡ track pf snap so_far none
      → lookup id m'.vehicles ≡ track pf snap (since id so_far turns) none
  Interleaves-track id so_far (looked_at us m) valid e = e
  Interleaves-track id so_far (hears u us m m' turns rest) valid e =
      Interleaves-track id (if u.vehicle_id == id then so_far ++ u ∷ [] else so_far) rest
        (update-IsValid pf snap u m valid) (lookup-update-track id u m so_far e)
  Interleaves-track id so_far (prunes order now us m m' turns visits rest) valid e =
      let (kept, counted, valid') = prune_lem (stale_before now) order m valid visits in
      Interleaves-track id (if is_stale now so_far then [] else so_far) rest valid'
        (kept id ∙ ap (fresh_only (stale_before now)) e ∙ fresh_only-track now so_far)

  pub handle_updates-Interleaves :
      (us : List (RawUpdate F)) (m : DefaultStateManager F Filter)
      → Interleaves us m (map heard us) (handle_updates pf snap us m)
  unfolding handle_updates
  handle_updates-Interleaves [] m = looked_at [] m
  handle_updates-Interleaves (u ∷ us) m =
      hears u us m _ (map heard us) (handle_updates-Interleaves us (update pf snap u m))
