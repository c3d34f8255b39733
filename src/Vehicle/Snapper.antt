-- ===== src/Vehicle/Snapper.antt =====
-- internal/vehicle/snapper.go: projection of a position onto the polyline of a shape.
pub mod Projection
pub mod Nearest
pub mod Loaded
use public_transport_tracker.Base.{
  string_eq, ℕ, ◌≡◌, Bool, Option, none, some, List, [], ◌∷◌, String, if◌then◌else◌, length, ltb,
}
use public_transport_tracker.Float.{Float, ◌+◌, ◌-◌, ◌*◌, ◌/◌}
use public_transport_tracker.GoMap.{GoMap, empty, lookup, assign, len}
use public_transport_tracker.Vehicle.{Position}

-- `[2]float64`: latitude and longitude.
abbrev pub Point : Type 0 → Type 0
Point F = F × F

pub record InMemorySnapper (F : Type 0) : Type 0 where
  pub shapes : GoMap String (List (Point F))

unfoldable pub new_in_memory_snapper : {F : Type 0} → InMemorySnapper F
new_in_memory_snapper = record { shapes = empty }

unfoldable pub load_shape :
    {F : Type 0} → String → List (Point F) → InMemorySnapper F → InMemorySnapper F
load_shape shape_id points s = record { shapes = assign shape_id points s.shapes }

unfoldable pub shape_count : {F : Type 0} → InMemorySnapper F → ℕ
shape_count s = len s.shapes

-- A point and a distance: the results of the projection, and the best ones so far.
pub record Candidate (F : Type 0) : Type 0 where
  pub lat : F
  pub lon : F
  pub dist : F

module _ {F : Type 0} ⦃f : Float F⦄ where
  open f use {lt, lit, inf}

  -- Clamps `t` to [0, 1].
  unfoldable pub clamp : F → F
  clamp t = if lt t (lit 0 0) then lit 0 0 else if lt (lit 1 0) t then lit 1 0 else t

  unfoldable pub project_point_to_segment : (p_lat p_lon a_lat a_lon b_lat b_lon : F) → Candidate F
  project_point_to_segment p_lat p_lon a_lat a_lon b_lat b_lon =
      let ab_lat = b_lat - a_lat in
      let ab_lon = b_lon - a_lon in
      let ap_lat = p_lat - a_lat in
      let ap_lon = p_lon - a_lon in
      let ab_len_sq = ab_lat * ab_lat + ab_lon * ab_lon in
      let t = clamp ((ap_lat * ab_lat + ap_lon * ab_lon) / ab_len_sq) in
      let proj_lat = a_lat + t * ab_lat in
      let proj_lon = a_lon + t * ab_lon in
      let d_lat = p_lat - proj_lat in
      let d_lon = p_lon - proj_lon in
      if lt ab_len_sq (lit 1 20)
      then record { lat = a_lat; lon = a_lon; dist = ap_lat * ap_lat + ap_lon * ap_lon }
      else record { lat = proj_lat; lon = proj_lon; dist = d_lat * d_lat + d_lon * d_lon }

  unfoldable pub project : Position F → Point F → Point F → Candidate F
  project pos a b = project_point_to_segment pos.lat pos.lon a.0 a.1 b.0 b.1

  unfoldable pub closer : Candidate F → Candidate F → Candidate F
  closer best c = if lt c.dist best.dist then c else best

  -- The loop over `i`, from the points `points[i:]`.
  unfoldable pub nearest : Position F → List (Point F) → Candidate F → Candidate F
  nearest pos [] best = best
  nearest pos (a ∷ []) best = best
  nearest pos (a ∷ b ∷ points) best = nearest pos (b ∷ points) (closer best (project pos a b))

  unfoldable pub snap_to : Position F → List (Point F) → Position F
  snap_to pos points =
      if ltb (length points) 2
      then pos
      else (let best = nearest pos points (record { lat = pos.lat; lon = pos.lon; dist = inf }) in
          record {
            lat = best.lat;
            lon = best.lon;
            bearing = pos.bearing;
            speed = pos.speed;
            timestamp = pos.timestamp;
          })

  unfoldable pub snap : InMemorySnapper F → Position F → String → Position F
  snap s pos shape_id = elim (lookup shape_id s.shapes) [
    | none ↦ pos
    | some points ↦ snap_to pos points
  ]
