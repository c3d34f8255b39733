-- ===== src/Vehicle/Snapper/Projection.antt =====
-- The projection onto one segment: the foot of the perpendicular, kept on the segment.
use public_transport_tracker.Base.{◌≡◌, refl, sym, ap, ◌∙◌, true, false, ◌⊎◌, inl, inr, Bool-cases}
use public_transport_tracker.Float.{Float, ◌+◌, ◌-◌, ◌*◌, ◌/◌, IsExactRing}
use public_transport_tracker.Vehicle.Snapper.{Candidate, clamp, project_point_to_segment}
use public_transport_tracker.Vehicle.Kalman.Correct.{add-mul, add-zero, add_swap}

module _ {F : Type 0} ⦃f : Float F⦄ (ring : IsExactRing F) where
  open f use {lt, lit, neg}
  open ring use {exact, sub-neg, add-neg, neg-mul}
  open exact use {add_assoc, add_comm, zero-add, mul_assoc, mul_comm, one-mul, zero-mul, mul-add}

  -- A sum with 0 determines a negative.
  neg_unique : (x y : F) → x + y ≡ lit 0 0 → y ≡ neg x
  neg_unique x y h =
      sym (zero-add y)
      ∙ ap (λ z. z + y) (sym (add-neg x) ∙ add_comm x (neg x))
      ∙ add_assoc (neg x) x y
      ∙ ap (λ z. neg x + z) h
      ∙ add-zero ring (neg x)

  neg-add : (x y : F) → neg x + neg y ≡ neg (x + y)
  neg-add x y = neg_unique (x + y) (neg x + neg y) (
      add_swap ring x y (neg x) (neg y)
      ∙ ap (λ z. z + (y + neg y)) (add-neg x)
      ∙ zero-add (y + neg y)
      ∙ add-neg y)

  -- What is left of a difference behind a step.
  sub-add : (p a x : F) → p - (a + x) ≡ p - a + neg x
  sub-add p a x =
      sub-neg p (a + x)
      ∙ ap (λ z. p + z) (sym (neg-add a x))
      ∙ sym (add_assoc p (neg a) (neg x))
      ∙ ap (λ z. z + neg x) (sym (sub-neg p a))

  add-sub : (a b : F) → a + (b - a) ≡ b
  add-sub a b =
      ap (λ z. a + z) (sub-neg b a ∙ add_comm b (neg a))
      ∙ sym (add_assoc a (neg a) b)
      ∙ ap (λ z. z + b) (add-neg a)
      ∙ zero-add b

  step-mul : (p a t v : F) → (p - (a + t * v)) * v ≡ (p - a) * v + neg (t * (v * v))
  step-mul p a t v =
      ap (λ z. z * v) (sub-add p a (t * v))
      ∙ add-mul ring (p - a) (neg (t * v)) v
      ∙ ap (λ z. (p - a) * v + z) (neg-mul (t * v) v ∙ ap neg (mul_assoc t v v))

  -- The rest of the way from the foot is perpendicular to the segment.
  foot_perpendicular :
      (p q a c t v w : F)
      → t * (v * v + w * w) ≡ (p - a) * v + (q - c) * w
      → (p - (a + t * v)) * v + (q - (c + t * w)) * w ≡ lit 0 0
  foot_perpendicular p q a c t v w h =
      let dot = (p - a) * v + (q - c) * w in
      ap (λ z. z + (q - (c + t * w)) * w) (step-mul p a t v)
      ∙ ap (λ z. (p - a) * v + neg (t * (v * v)) + z) (step-mul q c t w)
      ∙ add_swap ring ((p - a) * v) (neg (t * (v * v))) ((q - c) * w) (neg (t * (w * w)))
      ∙ ap (λ z. dot + z) (neg-add (t * (v * v)) (t * (w * w)))
      ∙ ap (λ z. dot + neg z) (sym (mul-add t (v * v) (w * w)) ∙ h)
      ∙ add-neg dot

  -- Where the point returned stands, for the fraction `t` of the way from `a` to `b` at which the
  -- perpendicular from `p` meets the line.
  pub data IsFoot (p_lat p_lon a_lat a_lon b_lat b_lon t : F) (c : Candidate F) : Type 0 where
    before_a :
        lt t (lit 0 0) ≡ true
        → c.lat ≡ a_lat
        → c.lon ≡ a_lon
        → IsFoot p_lat p_lon a_lat a_lon b_lat b_lon t c
    behind_b :
        lt t (lit 0 0) ≡ false
        → lt (lit 1 0) t ≡ true
        → c.lat ≡ b_lat
        → c.lon ≡ b_lon
        → IsFoot p_lat p_lon a_lat a_lon b_lat b_lon t c
    between :
        lt t (lit 0 0) ≡ false
        → lt (lit 1 0) t ≡ false
        → c.lat ≡ a_lat + t * (b_lat - a_lat)
        → c.lon ≡ a_lon + t * (b_lon - a_lon)
        → (p_lat - c.lat) * (b_lat - a_lat) + (p_lon - c.lon) * (b_lon - a_lon) ≡ lit 0 0
        → IsFoot p_lat p_lon a_lat a_lon b_lat b_lon t c

  clamp-IsFoot :
      (p_lat p_lon a_lat a_lon b_lat b_lon t dist : F)
      → let ab_lat = b_lat - a_lat in
        let ab_lon = b_lon - a_lon in
        t * (ab_lat * ab_lat + ab_lon * ab_lon)
          ≡ (p_lat - a_lat) * ab_lat + (p_lon - a_lon) * ab_lon
        → IsFoot p_lat p_lon a_lat a_lon b_lat b_lon t
            (record { lat = a_lat + clamp t * ab_lat; lon = a_lon + clamp t * ab_lon; dist = dist })
  unfolding clamp
  clamp-IsFoot p_lat p_lon a_lat a_lon b_lat b_lon t dist h =
      let ab_lat = b_lat - a_lat in
      let ab_lon = b_lon - a_lon in
      let start : (x y : F) → x + lit 0 0 * y ≡ x =
        λ x y. ap (λ z. x + z) (zero-mul y) ∙ add-zero ring x in
      let end : (x y : F) → x + lit 1 0 * (y - x) ≡ y =
        λ x y. ap (λ z. x + z) (one-mul (y - x)) ∙ add-sub x y in
      elim (Bool-cases (lt t (lit 0 0))) [
        | inl low ↦ rw (low, clamp) (before_a low (start a_lat ab_lat) (start a_lon ab_lon))
        | inr high ↦ elim (Bool-cases (lt (lit 1 0) t)) [
          | inl over ↦
              rw (high, over, clamp) (behind_b high over (end a_lat b_lat) (end a_lon b_lon))
          | inr within ↦
              rw (high, within, clamp)
                (between high within refl refl
                  (foot_perpendicular p_lat p_lon a_lat a_lon t ab_lat ab_lon h))
        ]
      ]

  -- In exact arithmetic: if the squared length of the segment is below the tolerance, the point returned
  -- is its first end. If not, and the squared length can be divided by, there is a fraction of the way
  -- along the segment at which the perpendicular from `p` meets its line: the point returned is the first
  -- end where this is below 0, the second end where it is above 1, and the foot of the perpendicular in
  -- every other case. The distance returned is the squared distance from `p` to the point returned.
  pub project_point_to_segment_lem :
      (p_lat p_lon a_lat a_lon b_lat b_lon : F)
      → let ab_lat = b_lat - a_lat in
        let ab_lon = b_lon - a_lon in
        let len = ab_lat * ab_lat + ab_lon * ab_lon in
        let c = project_point_to_segment p_lat p_lon a_lat a_lon b_lat b_lon in
        (lt len (lit 1 20) ≡ false → (x : F) → x / len * len ≡ x)
        → (((lt len (lit 1 20) ≡ true) × (c.lat ≡ a_lat) × (c.lon ≡ a_lon))
            ⊎ ((lt len (lit 1 20) ≡ false)
                × (t : F) × (t * len ≡ (p_lat - a_lat) * ab_lat + (p_lon - a_lon) * ab_lon)
                × IsFoot p_lat p_lon a_lat a_lon b_lat b_lon t c))
          × (c.dist ≡ (p_lat - c.lat) * (p_lat - c.lat) + (p_lon - c.lon) * (p_lon - c.lon))
  unfolding project_point_to_segment
  project_point_to_segment_lem p_lat p_lon a_lat a_lon b_lat b_lon divides =
      let ab_lat = b_lat - a_lat in
      let ab_lon = b_lon - a_lon in
      let len = ab_lat * ab_lat + ab_lon * ab_lon in
      let dot = (p_lat - a_lat) * ab_lat + (p_lon - a_lon) * ab_lon in
      elim (Bool-cases (lt len (lit 1 20))) [
        | inl short ↦ rw short (inl (refl, refl, refl), refl)
        | inr long ↦
            let meets = divides long dot in
            rw long (
              inr (
                refl,
                dot / len,
                meets,
                clamp-IsFoot p_lat p_lon a_lat a_lon b_lat b_lon (dot / len) _ meets,
              ),
              refl,
            )
      ]
