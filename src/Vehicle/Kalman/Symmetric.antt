-- ===== src/Vehicle/Kalman/Symmetric.antt =====
-- The covariance stays symmetric, in exact arithmetic.
use public_transport_tracker.Base.{
  Bool, true, false, if◌then◌else◌, ◌≡◌, refl, sym, ◌∙◌, List, [], ◌∷◌, length, arith, Bool-cases,
  inl, inr,
}
use public_transport_tracker.Float.{Float, ◌+◌, ◌*◌, ◌/◌, IsExactRing}
use public_transport_tracker.Vehicle.{Position}
use public_transport_tracker.Vehicle.Kalman.{
  at, KalmanFilter, diag_matrix, initialize, transition, add_noise, predict, gain, factor, row_sum,
  correct_covariance, correct, innovation_det, update, filter, new_kalman_filter, time_step,
  noise_of,
}
use public_transport_tracker.Vehicle.Kalman.Filter.{
  IsShaped, filter-IsShaped, new_kalman_filter-IsShaped,
}
use public_transport_tracker.Vehicle.Kalman.Correct.Entries.{
  exchange, row_first, row_second, row_third, row_fourth,
}

module _ {F : Type 0} ⦃f : Float F⦄ where
  -- P[i][j] = P[j][i]
  pub record IsSymmetric (p : List F) : Type 0 where
    pub s01 : at p 1 ≡ at p 4
    pub s02 : at p 2 ≡ at p 8
    pub s03 : at p 3 ≡ at p 12
    pub s12 : at p 6 ≡ at p 9
    pub s13 : at p 7 ≡ at p 13
    pub s23 : at p 11 ≡ at p 14

  -- The filter behind a sequence of measurements.
  abbrev pub filter_all : KalmanFilter F → List (Position F) → KalmanFilter F
  filter_all kf [] = kf
  filter_all kf (m ∷ ms) = filter_all (filter kf m).0 ms

  module _ (ring : IsExactRing F) where
    open f use {lit, neg}
    open ring use {exact}
    open exact use {add_comm}

    add_noise-IsSymmetric :
        (q dt : F) (p : List F)
        → length p ≡ 16
        → IsSymmetric p
        → IsSymmetric (add_noise q (transition dt p))
    unfolding transition add_noise
    add_noise-IsSymmetric q dt
          (p0 ∷ p1 ∷ p2 ∷ p3 ∷ p4 ∷ p5 ∷ p6 ∷ p7 ∷ p8 ∷ p9 ∷ p10 ∷ p11 ∷ p12 ∷ p13 ∷ p14 ∷ p15 ∷ [])
          n h =
        record {
          s01 = cc (h.s01, h.s03, h.s12, h.s23, add_comm p9 p3);
          s02 = cc (h.s02);
          s03 = cc (h.s03, h.s23);
          s12 = cc (h.s12, h.s23);
          s13 = cc (h.s13);
          s23 = h.s23;
        }
    add_noise-IsSymmetric q dt _ n h = absurd (omega arith)

    predict-IsSymmetric :
        (dt : F) (kf : KalmanFilter F)
        → IsShaped kf
        → IsSymmetric kf.p
        → IsSymmetric (predict dt kf).p
    unfolding predict
    predict-IsSymmetric dt kf shaped h =
        add_noise-IsSymmetric (noise_of kf.process_noise dt) dt kf.p shaped.covariance h

    correct_covariance-IsSymmetric :
        (s00 s11 det : F) (p : List F)
        → IsSymmetric p
        → IsSymmetric (correct_covariance (gain s00 (at p 1) (at p 4) s11 det p) p)
    unfolding correct_covariance row_sum factor gain
    correct_covariance-IsSymmetric s00 s11 det p h =
        let i = lit 1 0 / det in
        let d = s11 * i in
        let n = neg (at p 1) * i in
        let n' = neg (at p 4) * i in
        let a = s00 * i in
        let g0 : F → F → F = λ u v. u * d + v * n' in
        let g1 : F → F → F = λ u v. u * n + v * a in
        let trade = λ (u v s t : F). exchange ring u v s t d n a in
        let first = row_first ring (g0 (at p 0) (at p 1)) (g1 (at p 0) (at p 1)) in
        let second = row_second ring (g0 (at p 4) (at p 5)) (g1 (at p 4) (at p 5)) in
        let third = row_third ring (g0 (at p 8) (at p 9)) (g1 (at p 8) (at p 9)) in
        let fourth = row_fourth ring (g0 (at p 12) (at p 13)) (g1 (at p 12) (at p 13)) in
        record {
          s01 =
              first (at p 1) (at p 5) (at p 9) (at p 13)
              ∙ cc (h.s01, trade (at p 0) (at p 1) (at p 1) (at p 5))
              ∙ sym (second (at p 0) (at p 4) (at p 8) (at p 12));
          s02 =
              first (at p 2) (at p 6) (at p 10) (at p 14)
              ∙ cc (h.s01, h.s02, h.s12, trade (at p 0) (at p 1) (at p 2) (at p 6))
              ∙ sym (third (at p 0) (at p 4) (at p 8) (at p 12));
          s03 =
              first (at p 3) (at p 7) (at p 11) (at p 15)
              ∙ cc (h.s01, h.s03, h.s13, trade (at p 0) (at p 1) (at p 3) (at p 7))
              ∙ sym (fourth (at p 0) (at p 4) (at p 8) (at p 12));
          s12 =
              second (at p 2) (at p 6) (at p 10) (at p 14)
              ∙ cc (h.s01, h.s02, h.s12, trade (at p 4) (at p 5) (at p 2) (at p 6))
              ∙ sym (third (at p 1) (at p 5) (at p 9) (at p 13));
          s13 =
              second (at p 3) (at p 7) (at p 11) (at p 15)
              ∙ cc (h.s01, h.s03, h.s13, trade (at p 4) (at p 5) (at p 3) (at p 7))
              ∙ sym (fourth (at p 1) (at p 5) (at p 9) (at p 13));
          s23 =
              third (at p 3) (at p 7) (at p 11) (at p 15)
              ∙ cc (
                h.s01,
                h.s02,
                h.s03,
                h.s12,
                h.s13,
                h.s23,
                trade (at p 8) (at p 9) (at p 3) (at p 7),
              )
              ∙ sym (fourth (at p 2) (at p 6) (at p 10) (at p 14));
        }

    correct-IsSymmetric :
        (m : Position F) (kf : KalmanFilter F) → IsSymmetric kf.p → IsSymmetric (correct m kf).p
    unfolding correct
    correct-IsSymmetric m kf h =
        correct_covariance-IsSymmetric (at kf.p 0 + kf.measurement_noise)
          (at kf.p 5 + kf.measurement_noise) (innovation_det kf) kf.p h

    update-IsSymmetric :
        (m : Position F) (kf : KalmanFilter F) → IsSymmetric kf.p → IsSymmetric (update m kf).p
    unfolding update
    update-IsSymmetric m kf h = elim (Bool-cases (f.lt (f.abs (innovation_det kf)) (lit 1 20))) [
      | inl e ↦ rw e h
      | inr e ↦ rw e (correct-IsSymmetric m kf h)
    ]

    diag_matrix-IsSymmetric : (a b c d : F) → IsSymmetric (diag_matrix a b c d)
    unfolding diag_matrix
    diag_matrix-IsSymmetric a b c d = record {
      s01 = refl;
      s02 = refl;
      s03 = refl;
      s12 = refl;
      s13 = refl;
      s23 = refl;
    }

    either-IsSymmetric :
        (b : Bool) (s t : KalmanFilter F × Position F)
        → IsSymmetric s.0.p
        → IsSymmetric t.0.p
        → IsSymmetric (if b then s else t).0.p
    either-IsSymmetric true s t h k = h
    either-IsSymmetric false s t h k = k

    filter_step :
        (kf : KalmanFilter F) (m : Position F)
        → IsShaped kf
        → IsSymmetric kf.p
        → IsSymmetric (filter kf m).0.p
    unfolding filter initialize
    filter_step kf m shaped h =
        let dt : F = time_step m.timestamp kf.last_time in
        either-IsSymmetric kf.initialized _ _
          (update-IsSymmetric m (predict dt kf) (predict-IsSymmetric dt kf shaped h))
          (diag_matrix-IsSymmetric _ _ _ _)

    filter_all-IsSymmetric :
        (ms : List (Position F)) (kf : KalmanFilter F)
        → IsShaped kf
        → IsSymmetric kf.p
        → IsSymmetric (filter_all kf ms).p
    filter_all-IsSymmetric [] kf shaped h = h
    filter_all-IsSymmetric (m ∷ ms) kf shaped h =
        filter_all-IsSymmetric ms (filter kf m).0 (filter-IsShaped kf m shaped).0
          (filter_step kf m shaped h)

    -- Whatever the measurements are.
    pub new_kalman_filter-IsSymmetric :
        (ms : List (Position F)) → IsSymmetric (filter_all new_kalman_filter ms).p
    unfolding new_kalman_filter
    new_kalman_filter-IsSymmetric ms =
        filter_all-IsSymmetric ms new_kalman_filter new_kalman_filter-IsShaped
          (diag_matrix-IsSymmetric _ _ _ _)
