-- ===== src/Vehicle/Kalman/Predict.antt =====
-- The prediction step against its matrix form: x' = F·x and P' = F·P·Fᵀ + Q, in exact arithmetic.
use public_transport_tracker.Base.{ℕ, zero, suc, ◌≡◌, refl, ◌∙◌, List, [], ◌∷◌, length, flat, arith}
use public_transport_tracker.Float.{Float, ◌+◌, ◌*◌, IsExact}
use public_transport_tracker.Vehicle.Kalman.{
  at, tabulate, diag_matrix, transition, add_noise, predict_state, KalmanFilter, predict, noise_of,
}
use public_transport_tracker.Vehicle.Kalman.Filter.{IsShaped}

module _ {F : Type 0} ⦃f : Float F⦄ where
  open f use {lit}

  -- The sum over `l < n` of a[i][l] · b[l][j].
  abbrev pub dot : List F → List F → ℕ → ℕ → ℕ → F
  dot a b i j zero = lit 0 0
  dot a b i j (suc l) = dot a b i j l + at a (flat 4 i l) * at b (flat 4 l j)

  abbrev pub mat_mul : List F → List F → List F
  mat_mul a b = tabulate 4 λ i. tabulate 4 λ j. dot a b i j 4 ∷ []

  abbrev pub transpose : List F → List F
  transpose a = tabulate 4 λ i. tabulate 4 λ j. at a (flat 4 j i) ∷ []

  abbrev pub mat_add : List F → List F → List F
  mat_add a b = tabulate 4 λ i. tabulate 4 λ j. (at a (flat 4 i j) + at b (flat 4 i j)) ∷ []

  abbrev pub mat_vec : List F → List F → List F
  mat_vec a x = tabulate 4 λ i.
      (lit 0 0
        + at a (flat 4 i 0) * at x 0
        + at a (flat 4 i 1) * at x 1
        + at a (flat 4 i 2) * at x 2
        + at a (flat 4 i 3) * at x 3)
      ∷ []

  -- The matrix of the comment in `predict`.
  abbrev pub transition_matrix : F → List F
  transition_matrix dt =
      let o = lit 0 0 in
      let e = lit 1 0 in e ∷ o ∷ dt ∷ o ∷ o ∷ e ∷ o ∷ dt ∷ o ∷ o ∷ e ∷ o ∷ o ∷ o ∷ o ∷ e ∷ []

  module _ (exact : IsExact F) where
    open exact use {add_assoc, add_comm, zero-add, mul_assoc, mul_comm, one-mul, zero-mul, mul-add}

    add-zero : (x : F) → x + lit 0 0 ≡ x
    add-zero x = add_comm x (lit 0 0) ∙ zero-add x

    mul-zero : (x : F) → x * lit 0 0 ≡ lit 0 0
    mul-zero x = mul_comm x (lit 0 0) ∙ zero-mul x

    mul-one : (x : F) → x * lit 1 0 ≡ x
    mul-one x = mul_comm x (lit 1 0) ∙ one-mul x

    -- An entry that depends on the velocity in its row and in its column.
    corner : (p a b c dt : F) → p + (dt * (a + b) + dt * dt * c) ≡ p + dt * a + (b + dt * c) * dt
    corner p a b c dt =
        simp (mul-add, mul_assoc) (simp (mul_comm (b + dt * c) dt, mul-add, add_assoc))

    transition-mat_mul :
        (dt : F) (p : List F)
        → length p ≡ 16
        → transition dt p
          ≡ mat_mul (mat_mul (transition_matrix dt) p) (transpose (transition_matrix dt))
    unfolding transition
    transition-mat_mul dt
          (p0 ∷ p1 ∷ p2 ∷ p3 ∷ p4 ∷ p5 ∷ p6 ∷ p7 ∷ p8 ∷ p9 ∷ p10 ∷ p11 ∷ p12 ∷ p13 ∷ p14 ∷ p15 ∷ [])
          h =
        simp (add-zero, zero-add, mul-zero, zero-mul, mul-one, one-mul)
          (cc (
            corner p0 p8 p2 p10 dt,
            corner p1 p9 p3 p11 dt,
            corner p4 p12 p6 p14 dt,
            corner p5 p13 p7 p15 dt,
            mul_comm p10 dt,
            mul_comm p11 dt,
            mul_comm p14 dt,
            mul_comm p15 dt,
          ))
    transition-mat_mul dt _ h = absurd (omega arith)

    add_noise-mat_add :
        (q : F) (p : List F)
        → length p ≡ 16
        → add_noise q p ≡ mat_add p (diag_matrix q q (q * lit 1 1) (q * lit 1 1))
    unfolding add_noise diag_matrix
    add_noise-mat_add q
          (p0 ∷ p1 ∷ p2 ∷ p3 ∷ p4 ∷ p5 ∷ p6 ∷ p7 ∷ p8 ∷ p9 ∷ p10 ∷ p11 ∷ p12 ∷ p13 ∷ p14 ∷ p15 ∷ [])
          h =
        simp add-zero
    add_noise-mat_add q _ h = absurd (omega arith)

    predict_state-mat_vec :
        (dt : F) (x : List F) → length x ≡ 4 → predict_state dt x ≡ mat_vec (transition_matrix dt) x
    unfolding predict_state
    predict_state-mat_vec dt (x0 ∷ x1 ∷ x2 ∷ x3 ∷ []) h =
        simp (add-zero, zero-add, zero-mul, one-mul) (cc (mul_comm x2 dt, mul_comm x3 dt))
    predict_state-mat_vec dt _ h = absurd (omega arith)

    -- In exact arithmetic the in-place statements of `predict` compute the constant-velocity model:
    -- F·x for the state, and F·P·Fᵀ + Q for the covariance, where Q is the diagonal matrix of the
    -- process noise of the step, with a tenth of it for the velocities.
    pub predict-model :
        (dt : F) (kf : KalmanFilter F)
        → IsShaped kf
        → let next = predict dt kf in
          let q = noise_of kf.process_noise dt in
          let t = transition_matrix dt in
          (next.x ≡ mat_vec t kf.x)
          × (next.p
              ≡ mat_add
                  (mat_mul (mat_mul t kf.p) (transpose t))
                  (diag_matrix q q (q * lit 1 1) (q * lit 1 1)))
    unfolding predict
    predict-model dt kf shaped = (
      predict_state-mat_vec dt kf.x shaped.state,
      rw (transition-mat_mul dt kf.p shaped.covariance)
          (add_noise-mat_add (noise_of kf.process_noise dt) _ refl),
    )
