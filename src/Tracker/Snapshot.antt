-- ===== src/Tracker/Snapshot.antt =====
-- The updates of a tick: one for each vehicle, with its state.
use public_transport_tracker.Base.{
  string_eq, ◌≡◌, ◌≤◌, refl, Option, none, some, List, [], ◌∷◌, String, if◌then◌else◌, ==_iff,
  ==_refl, arith, count, leb, Option-cases, inl, inr, map,
}
use public_transport_tracker.GoMap.{lookup, Enumerates}
use public_transport_tracker.Vehicle.{State}
use public_transport_tracker.Vehicle.Manager.{DefaultStateManager, all, get}
use public_transport_tracker.Vehicle.Manager.Reads.{IsValid, collect, all_range-collect}
use public_transport_tracker.Broadcast.{VehicleUpdate, state_to_update}
use public_transport_tracker.Broadcast.Encoder.Find.{last_for, IsDistinct}
use public_transport_tracker.Broadcast.Encoder.Replay.{NoneRemoved}

abbrev pub update_of : {F : Type 0} → Option (State F) → Option (VehicleUpdate F)
update_of none = none
update_of (some s) = some (state_to_update s)

map-NoneRemoved : {F : Type 0} (states : List (State F)) → NoneRemoved (map state_to_update states)
unfolding state_to_update
map-NoneRemoved [] = tt
map-NoneRemoved (s ∷ states) = (refl, map-NoneRemoved states)

module _ {F Filter : Type 0} where
  last_for-collect :
      (id : String) (order : List String) (m : DefaultStateManager F Filter)
      → IsValid m
      → ((k : String) → count k order ≤ 1)
      → last_for id (map state_to_update (collect order m.vehicles))
        ≡ (if leb 1 (count id order) then update_of (get m id) else none)
  unfolding collect get state_to_update
  last_for-collect id [] m v once = refl
  last_for-collect id (i ∷ order) m v once =
      let later : (k : String) → count k order ≤ 1 = λ k. omega (arith, once k) in
      elim (Option-cases (lookup i m.vehicles)) [
        | inl e ↦ ground (arith, ==_iff i id, once id, last_for-collect id order m v later)
        | inr (a, e) ↦
            ground
              (arith, ==_iff i id, once id, last_for-collect id order m v later, v.own_key i a e)
      ]

  collect-IsDistinct :
      (order : List String) (m : DefaultStateManager F Filter)
      → IsValid m
      → ((k : String) → count k order ≤ 1)
      → IsDistinct (map state_to_update (collect order m.vehicles))
  unfolding collect state_to_update
  collect-IsDistinct [] m v once = tt
  collect-IsDistinct (i ∷ order) m v once =
      let later : (k : String) → count k order ≤ 1 = λ k. omega (arith, once k) in
      elim (Option-cases (lookup i m.vehicles)) [
        | inl e ↦ ground (arith, collect-IsDistinct order m v later)
        | inr (a, e) ↦ ground (
          arith,
          ==_refl i,
          once i,
          collect-IsDistinct order m v later,
          last_for-collect i order m v later,
          v.own_key i a e,
        )
      ]

  -- The updates made from `All`, in whatever order its range takes, are one for each vehicle, none
  -- of them marked as removed, and each made from the state that `Get` returns.
  pub all-updates :
      (order : List String) (m : DefaultStateManager F Filter)
      → IsValid m
      → Enumerates order m.vehicles
      → IsDistinct (map state_to_update (all order m))
        × NoneRemoved (map state_to_update (all order m))
        × ((id : String) → last_for id (map state_to_update (all order m)) ≡ update_of (get m id))
  unfolding all
  all-updates order m v visits =
      let once : (k : String) → count k order ≤ 1 = λ k. ground (arith, visits k) in
      rw all_range-collect (
        collect-IsDistinct order m v once,
        map-NoneRemoved (collect order m.vehicles),
        λ id. unfold get in ground (arith, visits id, last_for-collect id order m v once),
      )
