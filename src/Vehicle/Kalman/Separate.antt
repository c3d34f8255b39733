-- ===== src/Vehicle/Kalman/Separate.antt =====
-- The latitude and the longitude stay uncorrelated, in exact arithmetic.
use public_transport_tracker.Base.{
  Bool, true, false, if◌then◌else◌, ◌≡◌, refl, ◌∙◌, List, [], ◌∷◌, length, arith, Bool-cases, inl,
  inr,
}
use public_transport_tracker.Float.{Float, ◌+◌, ◌*◌, ◌/◌, IsExactRing}
use public_transport_tracker.Vehicle.{Position}
use public_transport_tracker.Vehicle.Kalman.{
  at, KalmanFilter, diag_matrix, initialize, transition, add_noise, predict, gain, factor, row_sum,
  correct_covariance, correct, innovation_det, update, filter, new_kalman_filter, time_step,
  noise_of,
}
use public_transport_tracker.Vehicle.Kalman.Filter.{
  IsShaped, filter-IsShaped, new_kalman_filter-IsShaped,
}
use public_transport_tracker.Vehicle.Kalman.Correct.{add-zero, mul-zero}
use public_transport_tracker.Vehicle.Kalman.Correct.Entries.{
  neg-zero, row_first, row_second, row_third, row_fourth,
}
use public_transport_tracker.Vehicle.Kalman.Symmetric.{
  IsSymmetric, filter_all, new_kalman_filter-IsSymmetric,
}

module _ {F : Type 0} ⦃f : Float F⦄ where
  open f use {lit, neg}

  -- The latitude and its velocity are the states 0 and 2, the longitude and its velocity 1 and 3.
  pub record IsSeparate (p : List F) : Type 0 where
    pub z01 : at p 1 ≡ lit 0 0
    pub z03 : at p 3 ≡ lit 0 0
    pub z10 : at p 4 ≡ lit 0 0
    pub z12 : at p 6 ≡ lit 0 0
    pub z21 : at p 9 ≡ lit 0 0
    pub z23 : at p 11 ≡ lit 0 0
    pub z30 : at p 12 ≡ lit 0 0
    pub z32 : at p 14 ≡ lit 0 0

  diag_matrix-IsSeparate : (a b c d : F) → IsSeparate (diag_matrix a b c d)
  unfolding diag_matrix
  diag_matrix-IsSeparate a b c d = record {
    z01 = refl;
    z03 = refl;
    z10 = refl;
    z12 = refl;
    z21 = refl;
    z23 = refl;
    z30 = refl;
    z32 = refl;
  }

  either-IsSeparate :
      (b : Bool) (s t : KalmanFilter F × Position F)
      → IsSeparate s.0.p
      → IsSeparate t.0.p
      → IsSeparate (if b then s else t).0.p
  either-IsSeparate true s t h k = h
  either-IsSeparate false s t h k = k

  module _ (ring : IsExactRing F) where
    open ring use {exact}
    open exact use {zero-mul}

    add_noise-IsSeparate :
        (q dt : F) (p : List F)
        → length p ≡ 16
        → IsSeparate p
        → IsSeparate (add_noise q (transition dt p))
    unfolding transition add_noise
    add_noise-IsSeparate q dt
          (p0 ∷ p1 ∷ p2 ∷ p3 ∷ p4 ∷ p5 ∷ p6 ∷ p7 ∷ p8 ∷ p9 ∷ p10 ∷ p11 ∷ p12 ∷ p13 ∷ p14 ∷ p15 ∷ [])
          n h =
        record {
          z01 = simp (h.z01, h.z21, h.z03, h.z23, mul-zero ring, add-zero ring) refl;
          z03 = simp (h.z03, h.z23, mul-zero ring, add-zero ring) refl;
          z10 = simp (h.z10, h.z12, h.z30, h.z32, mul-zero ring, add-zero ring) refl;
          z12 = simp (h.z12, h.z32, mul-zero ring, add-zero ring) refl;
          z21 = simp (h.z21, h.z23, mul-zero ring, add-zero ring) refl;
          z23 = h.z23;
          z30 = simp (h.z30, h.z32, mul-zero ring, add-zero ring) refl;
          z32 = h.z32;
        }
    add_noise-IsSeparate q dt _ n h = absurd (omega arith)

    correct_covariance-IsSeparate :
        (s00 s11 det : F) (p : List F)
        → IsSeparate p
        → IsSeparate (correct_covariance (gain s00 (at p 1) (at p 4) s11 det p) p)
    unfolding correct_covariance row_sum factor gain
    correct_covariance-IsSeparate s00 s11 det p h =
        let i = lit 1 0 / det in
        let d = s11 * i in
        let n = neg (at p 1) * i in
        let n' = neg (at p 4) * i in
        let a = s00 * i in
        let g0 : F → F → F = λ u v. u * d + v * n' in
        let g1 : F → F → F = λ u v. u * n + v * a in
        let first = row_first ring (g0 (at p 0) (at p 1)) (g1 (at p 0) (at p 1)) in
        let second = row_second ring (g0 (at p 4) (at p 5)) (g1 (at p 4) (at p 5)) in
        let third = row_third ring (g0 (at p 8) (at p 9)) (g1 (at p 8) (at p 9)) in
        let fourth = row_fourth ring (g0 (at p 12) (at p 13)) (g1 (at p 12) (at p 13)) in
        record {
          z01 =
              first (at p 1) (at p 5) (at p 9) (at p 13)
              ∙ simp (h.z01, mul-zero ring, zero-mul, neg-zero ring, add-zero ring) refl;
          z03 =
              first (at p 3) (at p 7) (at p 11) (at p 15)
              ∙ simp (h.z01, h.z03, mul-zero ring, zero-mul, neg-zero ring, add-zero ring) refl;
          z10 =
              second (at p 0) (at p 4) (at p 8) (at p 12)
              ∙ simp (h.z10, mul-zero ring, zero-mul, neg-zero ring, add-zero ring) refl;
          z12 =
              second (at p 2) (at p 6) (at p 10) (at p 14)
              ∙ simp (h.z10, h.z12, mul-zero ring, zero-mul, neg-zero ring, add-zero ring) refl;
          z21 =
              third (at p 1) (at p 5) (at p 9) (at p 13)
              ∙ simp (h.z01, h.z21, mul-zero ring, zero-mul, neg-zero ring, add-zero ring) refl;
          z23 =
              third (at p 3) (at p 7) (at p 11) (at p 15)
              ∙ simp
                  (
                    h.z01,
                    h.z03,
                    h.z21,
                    h.z23,
                    mul-zero ring,
                    zero-mul,
                    neg-zero ring,
                    add-zero ring,
                  )
                  refl;
          z30 =
              fourth (at p 0) (at p 4) (at p 8) (at p 12)
              ∙ simp (h.z10, h.z30, mul-zero ring, zero-mul, neg-zero ring, add-zero ring) refl;
          z32 =
              fourth (at p 2) (at p 6) (at p 10) (at p 14)
              ∙ simp
                  (
                    h.z10,
                    h.z12,
                    h.z30,
                    h.z32,
                    mul-zero ring,
                    zero-mul,
                    neg-zero ring,
                    add-zero ring,
                  )
                  refl;
        }

    update-IsSeparate :
        (m : Position F) (kf : KalmanFilter F) → IsSeparate kf.p → IsSeparate (update m kf).p
    unfolding update correct
    update-IsSeparate m kf h = elim (Bool-cases (f.lt (f.abs (innovation_det kf)) (lit 1 20))) [
      | inl e ↦ rw e h
      | inr e ↦ rw e (
          correct_covariance-IsSeparate (at kf.p 0 + kf.measurement_noise)
            (at kf.p 5 + kf.measurement_noise) (innovation_det kf) kf.p h)
    ]

    filter-IsSeparate :
        (kf : KalmanFilter F) (m : Position F)
        → IsShaped kf
        → IsSeparate kf.p
        → IsSeparate (filter kf m).0.p
    unfolding filter initialize predict
    filter-IsSeparate kf m shaped h =
        let dt : F = time_step m.timestamp kf.last_time in
        either-IsSeparate kf.initialized _ _
          (update-IsSeparate m (predict dt kf)
            (add_noise-IsSeparate (noise_of kf.process_noise dt) dt kf.p shaped.covariance h))
          (diag_matrix-IsSeparate _ _ _ _)

    filter_all-IsSeparate :
        (ms : List (Position F)) (kf : KalmanFilter F)
        → IsShaped kf
        → IsSeparate kf.p
        → IsSeparate (filter_all kf ms).p
    filter_all-IsSeparate [] kf shaped h = h
    filter_all-IsSeparate (m ∷ ms) kf shaped h =
        filter_all-IsSeparate ms (filter kf m).0 (filter-IsShaped kf m shaped).0
          (filter-IsSeparate kf m shaped h)

    -- In exact arithmetic the covariance of a new filter is symmetric, and its latitude and the velocity
    -- of it are not correlated with its longitude and the velocity of that; it stays so whatever the
    -- measurements are, on every branch: the first of them, a degenerate innovation covariance, a gap
    -- in time.
    pub new_kalman_filter-IsSeparate :
        (ms : List (Position F))
        → IsSymmetric (filter_all new_kalman_filter ms).p
          × IsSeparate (filter_all new_kalman_filter ms).p
    unfolding new_kalman_filter
    new_kalman_filter-IsSeparate ms = (
      new_kalman_filter-IsSymmetric ring ms,
      filter_all-IsSeparate ms new_kalman_filter new_kalman_filter-IsShaped
          (diag_matrix-IsSeparate _ _ _ _),
    )
