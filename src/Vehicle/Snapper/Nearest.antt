-- ===== src/Vehicle/Snapper/Nearest.antt =====
-- `Snap` returns a nearest point of the shape, and changes nothing but the coordinates.
use public_transport_tracker.Base.{
  string_eq, ◌≡◌, refl, false, ◌⊎◌, inl, inr, arith, Bool-cases, ◌≤◌, List, [], ◌∷◌, All, length,
}
use public_transport_tracker.Float.{Float, IsOrdered}
use public_transport_tracker.Vehicle.{Position}
use public_transport_tracker.Vehicle.Snapper.{Point, Candidate, project, closer, nearest, snap_to}

-- The segments of a polyline.
abbrev pub segments : {F : Type 0} → List (Point F) → List (Point F × Point F)
segments [] = []
segments (a ∷ []) = []
segments (a ∷ b ∷ points) = (a, b) ∷ segments (b ∷ points)

abbrev pub Any : {A : Type 0} → (A → Type 0) → List A → Type 0
Any P [] = ⊥
Any P (x ∷ xs) = P x ⊎ Any P xs

module _ {F : Type 0} ⦃f : Float F⦄ where
  open f use {lt, inf}

  -- No segment comes closer to `pos` than the distance of the candidate.
  abbrev pub IsLeast : Position F → List (Point F) → Candidate F → Type 0
  IsLeast pos points c = All (λ s. lt (project pos s.0 s.1).dist c.dist ≡ false) (segments points)

  -- The candidate is the projection onto one of the segments.
  abbrev pub IsProjection : Position F → List (Point F) → Candidate F → Type 0
  IsProjection pos points c = Any (λ s. c ≡ project pos s.0 s.1) (segments points)

  module _ (laws : IsOrdered F) (pos : Position F) where
    -- The loop never makes the best distance worse.
    nearest-closer :
        (d : F) (points : List (Point F)) (best : Candidate F)
        → lt d best.dist ≡ false
        → lt d (nearest pos points best).dist ≡ false
    unfolding nearest closer
    nearest-closer d [] best h = h
    nearest-closer d (a ∷ []) best h = h
    nearest-closer d (a ∷ b ∷ points) best h =
        nearest-closer d (b ∷ points) (closer best (project pos a b))
          (ground (arith, laws.lt_trans d (project pos a b).dist best.dist))

    nearest-IsLeast :
        (points : List (Point F)) (best : Candidate F)
        → IsLeast pos points (nearest pos points best)
    unfolding nearest
    nearest-IsLeast [] best = tt
    nearest-IsLeast (a ∷ []) best = tt
    nearest-IsLeast (a ∷ b ∷ points) best = (
      nearest-closer (project pos a b).dist (b ∷ points) (closer best (project pos a b))
          (unfold closer in ground (arith, laws.lt_irrefl (project pos a b).dist)),
      nearest-IsLeast (b ∷ points) (closer best (project pos a b)),
    )

    nearest-IsProjection :
        (points : List (Point F)) (best : Candidate F)
        → (nearest pos points best ≡ best) ⊎ IsProjection pos points (nearest pos points best)
    unfolding nearest
    nearest-IsProjection [] best = inl refl
    nearest-IsProjection (a ∷ []) best = inl refl
    nearest-IsProjection (a ∷ b ∷ points) best =
        let c = project pos a b in
        let ih = nearest-IsProjection (b ∷ points) (closer best c) in
        elim ih [
          | inl e ↦ elim (Bool-cases (lt c.dist best.dist)) [
            | inl near ↦ inr (inl (unfold closer in ground arith))
            | inr far ↦ inl (unfold closer in ground arith)
          ]
          | inr s ↦ inr (inr s)
        ]

    -- For a shape of two points or more the position returned is that of a candidate to which no
    -- segment of the shape is closer: the projection onto one of the segments, or the position
    -- given, at an infinite distance, where no projection has a distance below infinity.
    pub snap_to-IsLeast :
        (points : List (Point F))
        → 2 ≤ length points
        → (c : Candidate F) × (snap_to pos points ≡ record pos { lat = c.lat; lon = c.lon })
          × IsLeast pos points c
          × ((c ≡ record { lat = pos.lat; lon = pos.lon; dist = inf }) ⊎ IsProjection pos points c)
    unfolding snap_to
    snap_to-IsLeast points h =
        let start : Candidate F = record { lat = pos.lat; lon = pos.lon; dist = inf } in
        (
          nearest pos points start,
          ground arith,
          nearest-IsLeast points start,
          nearest-IsProjection points start,
        )
