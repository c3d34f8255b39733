-- ===== src/Vehicle/Manager/Refines.antt =====
-- The contract of `StateManager` (internal/vehicle/types.go), on functions from IDs to entries, and
-- that `DefaultStateManager` implements it over any sequence of calls.
use public_transport_tracker.Base.{
  string_eq, ℕ, ◌+◌, ◌≡◌, refl, sym, ◌∙◌, Option, none, some, List, [], ◌∷◌, String, if◌then◌else◌,
  get_or, presence, count, length, arith, ◌==◌,
}
use public_transport_tracker.Float.{Float}
use public_transport_tracker.GoMap.{GoMap, lookup}
use public_transport_tracker.GoMap.Range.{length-Enumerates, count_present, count_present-len}
use public_transport_tracker.Vehicle.{Time, RawUpdate, State, PositionFilter, RouteSnapper}
use public_transport_tracker.Vehicle.Manager.{
  VehicleEntry, DefaultStateManager, get, all, prune, update, process, fresh_entry,
}
use public_transport_tracker.Vehicle.Manager.Reads.{
  IsValid, find_state, all-get, lookup-update, update-IsValid,
}
use public_transport_tracker.Vehicle.Manager.Prune.{fresh_only, prune_lem}

-- The calls of the interface. A range over the vehicles takes the order that the call carries.
pub data Call (F : Type 0) : Type 0 where
  updates : RawUpdate F → Call F
  gets : String → Call F
  lists : List String → Call F
  prunes : List String → Time → Call F

pub data Reply (F : Type 0) : Type 0 where
  done : Reply F
  state : Option (State F) → Reply F
  states : List (State F) → Reply F
  removed : ℕ → Reply F

abbrev pub state_of : {F Filter : Type 0} → Option (VehicleEntry F Filter) → Option (State F)
state_of none = none
state_of (some entry) = some entry.state

-- How many of the IDs have a value.
abbrev pub count_known {κ} : {A : Type κ} → (String → Option A) → List String → ℕ
count_known f [] = 0
count_known f (id ∷ order) = presence (f id) + count_known f order

module _ {F Filter : Type 0} where
  get-state_of :
      (m : DefaultStateManager F Filter) (id : String) → get m id ≡ state_of (lookup id m.vehicles)
  unfolding get
  get-state_of m id = ground arith

  count_known-present :
      (vehicles : GoMap String (VehicleEntry F Filter)) (order : List String)
      → count_known (λ id. lookup id vehicles) order ≡ count_present vehicles order
  count_known-present vehicles [] = refl
  count_known-present vehicles (id ∷ order) = omega (arith, count_known-present vehicles order)

module _ {F : Type 0} ⦃f : Float F⦄ (pf : PositionFilter F) (snap : RouteSnapper F) where
  open pf use {Filter}

  -- The vehicles, as a client may think of them.
  abbrev pub Vehicles : Type 0
  Vehicles = String → Option (VehicleEntry F Filter)

  -- The keys that an order lists: those that have an entry, each once.
  abbrev pub Lists : List String → Vehicles → Type 0
  Lists order v = (id : String) → count id order ≡ presence (v id)

  -- What a call may answer, and what it makes of the vehicles.
  pub data Meets (v v' : Vehicles) : Call F → Reply F → Type 0 where
    updated :
        {u : RawUpdate F}
        → ((id : String)
            → v' id ≡ (
                if u.vehicle_id == id
                then some (process pf snap (get_or (v u.vehicle_id) (fresh_entry pf snap)) u)
                else v id))
        → Meets v v' (updates u) done
    got :
        {id : String} {found : Option (State F)}
        → v' ≡ v
        → found ≡ state_of (v id)
        → Meets v v' (gets id) (state found)
    listed :
        {order : List String} {found : List (State F)}
        → v' ≡ v
        → length found ≡ length order
        → ((id : String) → find_state id found ≡ state_of (v id))
        → Meets v v' (lists order) (states found)
    pruned :
        {order : List String} {older_than : Time} {n : ℕ}
        → ((id : String) → v' id ≡ fresh_only older_than (v id))
        → n + count_known v' order ≡ length order
        → Meets v v' (prunes order older_than) (removed n)

  -- A call of the implementation.
  unfoldable pub call :
      Call F → DefaultStateManager F Filter → DefaultStateManager F Filter × Reply F
  call (updates u) m = (update pf snap u m, done)
  call (gets id) m = (m, state (get m id))
  call (lists order) m = (m, states (all order m))
  call (prunes order older_than) m = let (m', n) = prune order older_than m in (m', removed n)

  abbrev pub view : DefaultStateManager F Filter → Vehicles
  view m id = lookup id m.vehicles

  -- The order that a call carries is one that its range may take.
  abbrev pub IsOrdered : Call F → Vehicles → Type 0
  IsOrdered (updates u) v = Unit
  IsOrdered (gets id) v = Unit
  IsOrdered (lists order) v = Lists order v
  IsOrdered (prunes order older_than) v = Lists order v

  call-Meets :
      (c : Call F) (m : DefaultStateManager F Filter)
      → IsValid m
      → IsOrdered c (view m)
      → let (m', reply) = call c m in IsValid m' × Meets (view m) (view m') c reply
  unfolding call
  call-Meets (updates u) m v o =
      (update-IsValid pf snap u m v, updated {u = u} λ id. lookup-update pf snap id u m)
  call-Meets (gets id) m v o = (v, got refl (get-state_of m id))
  call-Meets (lists order) m v o =
      let (n, finds) = all-get order m v o in
      (
        v,
        listed refl (n ∙ sym (length-Enumerates order m.vehicles v.is_map o))
            λ id. finds id ∙ get-state_of m id,
      )
  call-Meets (prunes order older_than) m v o =
      let (fresh, counts, valid) = prune_lem older_than order m v o in
      let m' = (prune order older_than m).0 in
      let present =
        count_present-len m'.vehicles order valid.is_map
          λ id known. ground (arith, fresh id, o id) in
      (
        valid,
        pruned fresh (
            omega (
              arith,
              counts,
              count_known-present m'.vehicles order,
              present,
              length-Enumerates order m.vehicles v.is_map o,
            )),
      )

  -- The calls one after the other, with their replies.
  unfoldable pub calls :
      List (Call F) → DefaultStateManager F Filter → DefaultStateManager F Filter × List (Reply F)
  calls [] m = (m, [])
  calls (c ∷ cs) m =
      let (m', reply) = call c m in let (m'', replies) = calls cs m' in (m'', reply ∷ replies)

  -- A run of calls that the contract allows, with these replies.
  pub data Allowed : List (Call F) → List (Reply F) → Vehicles → Vehicles → Type 0 where
    finished : {v : Vehicles} → Allowed [] [] v v
    then_call :
        {c : Call F} {cs : List (Call F)} {reply : Reply F} {replies : List (Reply F)}
        {v v' v'' : Vehicles}
        → Meets v v' c reply
        → Allowed cs replies v' v''
        → Allowed (c ∷ cs) (reply ∷ replies) v v''

  -- Every order that a call of the run carries is one that its range may take there.
  abbrev pub AreOrdered : List (Call F) → DefaultStateManager F Filter → Type 0
  AreOrdered [] m = Unit
  AreOrdered (c ∷ cs) m = IsOrdered c (view m) × AreOrdered cs (call c m).0

  -- Over any sequence of calls, and whatever orders its ranges take, a valid manager answers as the
  -- contract allows: `Update` changes one vehicle, `Get` reads one, `All` lists each vehicle once
  -- with the state that `Get` returns, `Prune` removes the stale ones and says how many.
  pub calls-Allowed :
      (cs : List (Call F)) (m : DefaultStateManager F Filter)
      → IsValid m
      → AreOrdered cs m
      → let (m', replies) = calls cs m in IsValid m' × Allowed cs replies (view m) (view m')
  unfolding calls
  calls-Allowed [] m v o = (v, finished)
  calls-Allowed (c ∷ cs) m v (here, later) =
      let (v', meets) = call-Meets c m v here in
      let (v'', allowed) = calls-Allowed cs (call c m).0 v' later in (v'', then_call meets allowed)
