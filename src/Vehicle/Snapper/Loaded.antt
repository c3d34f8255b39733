-- ===== src/Vehicle/Snapper/Loaded.antt =====
-- Which shape a position is snapped to.
use public_transport_tracker.Base.{
  string_eq, ◌+◌, ◌≡◌, List, String, if◌then◌else◌, ◌==◌, arith, presence,
}
use public_transport_tracker.Float.{Float}
use public_transport_tracker.GoMap.{lookup}
use public_transport_tracker.GoMap.Laws.{lookup-assign, length-assign}
use public_transport_tracker.Vehicle.{Position}
use public_transport_tracker.Vehicle.Snapper.{
  Point, InMemorySnapper, load_shape, shape_count, snap, snap_to,
}

module _ {F : Type 0} ⦃f : Float F⦄ where
  -- After LoadShape a position is snapped to the new points for that shape, and as before for every
  -- other shape; the number of shapes has grown by one exactly if the shape was not there.
  pub snap-load_shape :
      (id other : String) (points : List (Point F)) (s : InMemorySnapper F) (pos : Position F)
      → let loaded = load_shape id points s in
        (snap loaded pos other ≡ (if id == other then snap_to pos points else snap s pos other))
        × (shape_count loaded + presence (lookup id s.shapes) ≡ shape_count s + 1)
  unfolding load_shape snap shape_count
  snap-load_shape id other points s pos =
      (ground (arith, lookup-assign other id points s.shapes), length-assign id points s.shapes)
