-- ===== src/Tests/SnapperTests.antt =====
-- The snapper on an L-shaped line, at coordinates with whole degrees.
use public_transport_tracker.Base.{
  string_eq, Bool, true, false, ℕ, ◌≡◌, refl, ◌⊎◌, List, [], ◌∷◌, arith,
}
use public_transport_tracker.Base.Int.{ℤ, pos, ◌+ℤ◌, ◌-ℤ◌}
use public_transport_tracker.GoMap.{lookup, assign}
use public_transport_tracker.Vehicle.Snapper.{
  Point, InMemorySnapper, Candidate, project_point_to_segment, project, nearest, closer, clamp,
  snap_to, snap, load_shape, new_in_memory_snapper,
}
use public_transport_tracker.Vehicle.Snapper.Projection.{IsFoot, project_point_to_segment_lem}
use public_transport_tracker.Vehicle.Snapper.Nearest.{IsLeast, IsProjection, snap_to-IsLeast}
use public_transport_tracker.Tests.Samples.{decimal, decimal-IsOrdered, here}
use public_transport_tracker.Tests.KalmanTests.{bits, bits-IsExactRing}

abbrev deg : ℕ → ℤ
deg n = decimal.lit n 0

abbrev corner : List (Point ℤ)
corner = (deg 0, deg 0) ∷ (deg 0, deg 10) ∷ (deg 10, deg 10) ∷ []

program : Unit {0}
unfolding new_in_memory_snapper load_shape snap snap_to nearest closer project
    project_point_to_segment clamp lookup assign
program = tt

snaps_to_second_segment :
    snap (load_shape "s" corner new_in_memory_snapper) (here (deg 4) (deg 9) (pos 7)) "s"
    ≡ here (deg 4) (deg 10) (pos 7)
unfolding program ◌+ℤ◌ ◌-ℤ◌
snaps_to_second_segment = refl

-- Over the field of two elements, where every number but 0 can be divided by.
project_point_to_segment_lem_example :
    let c = project_point_to_segment ⦃f = bits⦄ true true false false true false in
    (((bits.lt true true ≡ true) × (c.lat ≡ false) × (c.lon ≡ false))
      ⊎ ((bits.lt true true ≡ false)
          × (t : Bool) × (bits.mul t true ≡ true)
          × IsFoot ⦃f = bits⦄ bits-IsExactRing true true false false true false t c))
    × (c.dist
        ≡ bits.add
            (bits.mul (bits.sub true c.lat) (bits.sub true c.lat))
            (bits.mul (bits.sub true c.lon) (bits.sub true c.lon)))
project_point_to_segment_lem_example =
    project_point_to_segment_lem ⦃f = bits⦄ bits-IsExactRing true true false false true false
      λ long x. ground arith

snap_to-IsLeast_example :
    (c : Candidate ℤ) × (snap_to (here (deg 4) (deg 9) (pos 7)) corner
      ≡ record (here (deg 4) (deg 9) (pos 7)) { lat = c.lat; lon = c.lon })
    × IsLeast (here (deg 4) (deg 9) (pos 7)) corner c
    × ((c ≡ record { lat = deg 4; lon = deg 9; dist = decimal.inf })
        ⊎ IsProjection (here (deg 4) (deg 9) (pos 7)) corner c)
snap_to-IsLeast_example =
    snap_to-IsLeast decimal-IsOrdered (here (deg 4) (deg 9) (pos 7)) corner (omega arith)

abbrev no_shapes : InMemorySnapper ℤ
no_shapes = new_in_memory_snapper
