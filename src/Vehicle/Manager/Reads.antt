-- ===== src/Vehicle/Manager/Reads.antt =====
-- What an update writes and what `Get` and `All` read, with the invariant of the manager.
use public_transport_tracker.Base.{
  string_eq, ◌≤◌, ◌≡◌, refl, Option, none, some, List, [], ◌∷◌, ◌++◌, String, if◌then◌else◌, get_or,
  presence, leb, count, length, append_assoc, append-nil, arith, ◌==◌, ==_iff, ==_refl,
  Option-cases, inl, inr, ◌∙◌,
}
use public_transport_tracker.Base.Int.{pos}
use public_transport_tracker.Float.{Float}
use public_transport_tracker.GoMap.{GoMap, lookup, IsMap, Enumerates, len}
use public_transport_tracker.GoMap.Laws.{lookup-assign, assign-IsMap}
use public_transport_tracker.GoMap.Range.{length-Enumerates}
use public_transport_tracker.Vehicle.{RawUpdate, State, PositionFilter, RouteSnapper}
use public_transport_tracker.Vehicle.Manager.{
  VehicleEntry, DefaultStateManager, new_default_state_manager, shape_id_for_update, get, all_range,
  all, fresh_entry, process, update,
}

-- One entry for a vehicle, stored under its own ID; `Update` never sets the delay.
pub record IsValid {F Filter : Type 0} (m : DefaultStateManager F Filter) : Type 0 where
  pub is_map : IsMap m.vehicles
  pub own_key :
      (id : String) (entry : VehicleEntry F Filter)
      → lookup id m.vehicles ≡ some entry
      → (entry.state.vehicle_id ≡ id) × (entry.state.delay_seconds ≡ pos 0)

pub new_default_state_manager-IsValid :
    {F Filter : Type 0} → IsValid (new_default_state_manager {F = F} {Filter = Filter})
unfolding new_default_state_manager lookup
new_default_state_manager-IsValid = record { is_map = tt; own_key = λ id entry h. cc }

module _ {F : Type 0} ⦃f : Float F⦄ (pf : PositionFilter F) (snap : RouteSnapper F) where
  open pf use {Filter, factory, filter}

  -- The entry that an update finds or makes is processed, and no other entry changes.
  pub lookup-update :
      (j : String) (u : RawUpdate F) (m : DefaultStateManager F Filter)
      → lookup j (update pf snap u m).vehicles ≡ (
          if u.vehicle_id == j
          then some
              (process pf snap (get_or (lookup u.vehicle_id m.vehicles) (fresh_entry pf snap)) u)
          else lookup j m.vehicles)
  unfolding update
  lookup-update j u m = elim (Option-cases (lookup u.vehicle_id m.vehicles)) [
    | inl e ↦ rw e (simp lookup-assign (ground arith))
    | inr (a, e) ↦ rw e (simp lookup-assign)
  ]

  -- The state of an entry after an update.
  abbrev pub tracked : Filter → RawUpdate F → State F
  tracked s u = record {
    vehicle_id = u.vehicle_id;
    trip_id = u.trip_id;
    route_id = u.route_id;
    position = snap (filter s u.position).1 u.trip_id;
    raw_position = u.position;
    delay_seconds = pos 0;
    updated_at = u.position.timestamp;
  }

  -- After an update `Get` of the vehicle returns the filtered and snapped position with the raw one,
  -- and `Get` of every other vehicle returns what it returned before.
  pub get-update :
      (j : String) (u : RawUpdate F) (m : DefaultStateManager F Filter)
      → get (update pf snap u m) j ≡ (
          if u.vehicle_id == j
          then some
              (tracked (get_or (lookup u.vehicle_id m.vehicles) (fresh_entry pf snap)).filter u)
          else get m j)
  unfolding get process shape_id_for_update
  get-update j u m = ground (arith, lookup-update j u m)

  update-IsMap :
      (u : RawUpdate F) (m : DefaultStateManager F Filter)
      → IsMap m.vehicles
      → IsMap (update pf snap u m).vehicles
  unfolding update
  update-IsMap u m h =
      let fresh = fresh_entry pf snap in
      let id = u.vehicle_id in
      elim (Option-cases (lookup id m.vehicles)) [
        | inl e ↦ rw e (assign-IsMap id _ _ (assign-IsMap id fresh m.vehicles h))
        | inr (a, e) ↦ rw e (assign-IsMap id _ m.vehicles h)
      ]

  -- Every update keeps the invariant.
  pub update-IsValid :
      (u : RawUpdate F) (m : DefaultStateManager F Filter)
      → IsValid m
      → IsValid (update pf snap u m)
  unfolding process
  update-IsValid u m v = record {
    is_map = update-IsMap u m v.is_map;
    own_key = λ id entry h.
        ground (arith, lookup-update id u m, ==_iff u.vehicle_id id, v.own_key id entry);
  }

-- The state of a vehicle in a list of states.
abbrev pub find_state : {F : Type 0} → String → List (State F) → Option (State F)
find_state id [] = none
find_state id (s ∷ states) = if s.vehicle_id == id then some s else find_state id states

module _ {F Filter : Type 0} where
  -- The states of a list of keys.
  unfoldable pub collect : List String → GoMap String (VehicleEntry F Filter) → List (State F)
  collect [] vehicles = []
  collect (id ∷ order) vehicles = elim (lookup id vehicles) [
    | none ↦ collect order vehicles
    | some entry ↦ entry.state ∷ collect order vehicles
  ]

  pub all_range-collect :
      (order : List String) (vehicles : GoMap String (VehicleEntry F Filter)) (acc : List (State F))
      → all_range order vehicles acc ≡ acc ++ collect order vehicles
  unfolding all_range collect
  all_range-collect [] vehicles acc = rw append-nil
  all_range-collect (id ∷ order) vehicles acc = elim (Option-cases (lookup id vehicles)) [
    | inl e ↦ rw (e, all_range, collect) (all_range-collect order vehicles acc)
    | inr (a, e) ↦
        rw (e, all_range, collect)
          (all_range-collect order vehicles (acc ++ a.state ∷ [])
            ∙ append_assoc acc (a.state ∷ []) (collect order vehicles))
  ]

  find_state-collect :
      (id : String) (order : List String) (m : DefaultStateManager F Filter)
      → IsValid m
      → find_state id (collect order m.vehicles)
        ≡ (if leb 1 (count id order) then get m id else none)
  unfolding collect get
  find_state-collect id [] m v = refl
  find_state-collect id (i ∷ order) m v = elim (Option-cases (lookup i m.vehicles)) [
    | inl e ↦ ground (arith, ==_iff i id, find_state-collect id order m v)
    | inr (a, e) ↦ ground (arith, ==_iff i id, find_state-collect id order m v, v.own_key i a e)
  ]

  length-collect :
      (order : List String) (vehicles : GoMap String (VehicleEntry F Filter))
      → ((k : String) → 1 ≤ count k order → presence (lookup k vehicles) ≡ 1)
      → length (collect order vehicles) ≡ length order
  unfolding collect
  length-collect [] vehicles h = refl
  length-collect (i ∷ order) vehicles h =
      let here : presence (lookup i vehicles) ≡ 1 = h i (ground (arith, ==_refl i)) in
      let rest = length-collect order vehicles λ k c. h k (omega arith) in ground arith

  -- Whatever order the range takes, `All` returns as many states as there are vehicles, and the
  -- state that it holds for an ID is the one that `Get` returns.
  pub all-get :
      (order : List String) (m : DefaultStateManager F Filter)
      → IsValid m
      → Enumerates order m.vehicles
      → (length (all order m) ≡ len m.vehicles)
        × ((id : String) → find_state id (all order m) ≡ get m id)
  unfolding all get
  all-get order m v visits = rw all_range-collect (
    length-collect order m.vehicles (λ k c. ground (arith, visits k))
        ∙ length-Enumerates order m.vehicles v.is_map visits,
    λ id. find_state-collect id order m v ∙ ground (arith, visits id),
  )
