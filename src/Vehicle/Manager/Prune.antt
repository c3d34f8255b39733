-- ===== src/Vehicle/Manager/Prune.antt =====
-- `Prune` removes the stale vehicles and no others, whatever order its range takes.
use public_transport_tracker.Base.{
  string_eq, ℕ, ◌+◌, ◌≡◌, refl, Option, none, some, List, [], ◌∷◌, String, if◌then◌else◌, leb,
  count, arith, ◌==◌, ==_iff,
}
use public_transport_tracker.GoMap.{GoMap, lookup, IsMap, Enumerates, len}
use public_transport_tracker.GoMap.Laws.{lookup-delete, delete-IsMap, length-delete}
use public_transport_tracker.Vehicle.{Time, before}
use public_transport_tracker.Vehicle.Manager.{
  VehicleEntry, DefaultStateManager, prune_visit, prune_range, prune,
}
use public_transport_tracker.Vehicle.Manager.Reads.{IsValid}

module _ {F Filter : Type 0} (older_than : Time) where
  -- What is left of a vehicle if its last update is older than the cutoff.
  abbrev pub fresh_only : Option (VehicleEntry F Filter) → Option (VehicleEntry F Filter)
  fresh_only none = none
  fresh_only (some entry) = if before entry.state.updated_at older_than then none else some entry

  prune_visit_lem :
      (i : String) (vehicles : GoMap String (VehicleEntry F Filter)) (n : ℕ)
      → IsMap vehicles
      → let (rest, n') = prune_visit older_than i (vehicles, n) in
        IsMap rest
        × ((k : String)
            → lookup k rest
              ≡ (if i == k then fresh_only (lookup k vehicles) else lookup k vehicles))
        × (n' + len rest ≡ n + len vehicles)
  unfolding prune_visit
  prune_visit_lem i vehicles n h = (
    ground (arith, delete-IsMap i vehicles h),
    λ k. ground (arith, ==_iff i k, lookup-delete k i vehicles h),
    ground (arith, length-delete i vehicles),
  )

  prune_range_lem :
      (order : List String) (vehicles : GoMap String (VehicleEntry F Filter)) (n : ℕ)
      → IsMap vehicles
      → let (rest, n') = prune_range older_than order (vehicles, n) in
        IsMap rest
        × ((k : String)
            → lookup k rest ≡ (
                if leb 1 (count k order)
                then fresh_only (lookup k vehicles)
                else lookup k vehicles))
        × (n' + len rest ≡ n + len vehicles)
  unfolding prune_range
  prune_range_lem [] vehicles n h = (h, λ k. refl, refl)
  prune_range_lem (i ∷ order) vehicles n h =
      let (keeps, reads, counts) = prune_visit_lem i vehicles n h in
      let next = prune_visit older_than i (vehicles, n) in
      let (keeps', reads', counts') = prune_range_lem order next.0 next.1 keeps in
      (keeps', λ k. ground (arith, ==_iff i k, reads k, reads' k), omega arith)

  -- After `Prune` a vehicle is there exactly if it was there and its last update is not older than
  -- the cutoff, with the entry that it had; the number returned is the number of vehicles that
  -- are gone; and the manager stays valid.
  pub prune_lem :
      (order : List String) (m : DefaultStateManager F Filter)
      → IsValid m
      → Enumerates order m.vehicles
      → let (m', count) = prune order older_than m in
        ((id : String) → lookup id m'.vehicles ≡ fresh_only (lookup id m.vehicles))
        × (count + len m'.vehicles ≡ len m.vehicles)
        × IsValid m'
  unfolding prune
  prune_lem order m v visits =
      let (keeps, reads, counts) = prune_range_lem order m.vehicles 0 v.is_map in
      let lookups : (id : String)
          → lookup id (prune_range older_than order (m.vehicles, 0)).0
            ≡ fresh_only (lookup id m.vehicles) =
        λ id. ground (arith, reads id, visits id) in
      (
        lookups,
        omega arith,
        record {
          is_map = keeps;
          own_key = λ id entry h. ground (arith, lookups id, v.own_key id entry);
        },
      )
