-- ===== src/Vehicle/Kalman/Filter.antt =====
-- What every call of `Filter` does, whatever the state of the filter and the measurement.
use public_transport_tracker.Base.{
  ℕ, zero, suc, ◌≡◌, refl, true, List, [], ◌∷◌, Bool-cases, inl, inr, length, arith, set,
}
use public_transport_tracker.Float.{Float}
use public_transport_tracker.Vehicle.{Position}
use public_transport_tracker.Vehicle.Kalman.{
  KalmanFilter, diag_matrix, initialize, predict_state, transition, add_noise, predict,
  correct_state, correct_covariance, correct, innovation_det, blend, update, position, time_step,
  filter, new_kalman_filter,
}

module _ {F : Type 0} ⦃f : Float F⦄ where
  open f use {lt, lit, abs}

  -- The arrays have the lengths of `[4]float64` and `[16]float64`.
  pub record IsShaped (kf : KalmanFilter F) : Type 0 where
    pub state : length kf.x ≡ 4
    pub covariance : length kf.p ≡ 16

  set-length : (i : ℕ) (v : F) (a : List F) → length (set a i v) ≡ length a
  set-length i v [] = refl
  set-length zero v (y ∷ a) = refl
  set-length (suc i) v (y ∷ a) = omega (arith, set-length i v a)

  pub new_kalman_filter-IsShaped : IsShaped new_kalman_filter
  unfolding new_kalman_filter
  new_kalman_filter-IsShaped = record { state = refl; covariance = refl }

  initialize-IsShaped :
      (m : Position F) (kf : KalmanFilter F) → IsShaped kf → IsShaped (initialize m kf)
  unfolding initialize diag_matrix
  initialize-IsShaped m kf h = record {
    state = elim (Bool-cases (lt (lit 0 0) m.speed)) [
      | inl e ↦ rw e (simp set-length h.state)
      | inr e ↦ rw e (simp set-length h.state)
    ];
    covariance = refl;
  }

  predict-IsShaped : (dt : F) (kf : KalmanFilter F) → IsShaped kf → IsShaped (predict dt kf)
  unfolding predict predict_state transition add_noise
  predict-IsShaped dt kf h = record {
    state = simp set-length h.state;
    covariance = simp set-length h.covariance;
  }

  length-blend : (m : Position F) (x : List F) → length x ≡ 4 → length (blend m x) ≡ 4
  unfolding blend
  length-blend m x h = elim (Bool-cases (lt (lit 0 0) m.speed)) [
    | inl e ↦ rw e (simp set-length h)
    | inr e ↦ rw e h
  ]

  correct-IsShaped : (m : Position F) (kf : KalmanFilter F) → IsShaped kf → IsShaped (correct m kf)
  unfolding correct correct_state correct_covariance
  correct-IsShaped m kf h = record { state = length-blend m _ refl; covariance = refl }

  update-IsShaped : (m : Position F) (kf : KalmanFilter F) → IsShaped kf → IsShaped (update m kf)
  unfolding update
  update-IsShaped m kf h = elim (Bool-cases (lt (abs (innovation_det kf)) (lit 1 20))) [
    | inl e ↦ rw e h
    | inr e ↦ rw e (correct-IsShaped m kf h)
  ]

  -- A correction changes the state and the covariance only.
  update_keeps :
      (m : Position F) (kf : KalmanFilter F)
      → ((update m kf).process_noise ≡ kf.process_noise)
        × ((update m kf).measurement_noise ≡ kf.measurement_noise)
        × ((update m kf).initialized ≡ kf.initialized)
  unfolding update correct
  update_keeps m kf = ground arith

  -- Every call of `Filter`, whatever the filter's state and the measurement: the position returned
  -- has the measurement's time, and the filter is initialized at that time, keeps its noise
  -- parameters and its array lengths.
  pub filter-IsShaped :
      (kf : KalmanFilter F) (m : Position F)
      → IsShaped kf
      → let (next, out) = filter kf m in
        IsShaped next
        × (out.timestamp ≡ m.timestamp)
        × (next.last_time ≡ m.timestamp)
        × (next.initialized ≡ true)
        × (next.process_noise ≡ kf.process_noise)
        × (next.measurement_noise ≡ kf.measurement_noise)
  unfolding filter position predict initialize
  filter-IsShaped kf m h =
      let dt : F = time_step m.timestamp kf.last_time in
      ground (
        arith,
        update_keeps m (predict dt kf),
        update-IsShaped m (predict dt kf) (predict-IsShaped dt kf h),
        initialize-IsShaped m kf h,
      )
