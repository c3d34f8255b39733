-- ===== src/Vehicle/Kalman/Correct.antt =====
-- The correction step against its matrix form: K·S = P·Hᵀ and P' = (I - K·H)·P, in exact arithmetic.
pub mod Entries
use public_transport_tracker.Base.{ℕ, ◌≡◌, refl, sym, ◌∙◌, List, [], ◌∷◌, flat, ap}
use public_transport_tracker.Float.{Float, ◌+◌, ◌-◌, ◌*◌, ◌/◌, IsExactRing}
use public_transport_tracker.Vehicle.{Position}
use public_transport_tracker.Vehicle.Kalman.{
  at, tabulate, KalmanFilter, gain, factor, row_sum, correct_covariance, correct, innovation_det,
  diag_matrix, correct_state, blend,
}
use public_transport_tracker.Vehicle.Kalman.Predict.{mat_mul}

module _ {F : Type 0} ⦃f : Float F⦄ (ring : IsExactRing F) where
  open f use {lit, neg}
  open ring use {exact, sub-neg, add-neg, neg-mul}
  open exact use {add_assoc, add_comm, zero-add, mul_assoc, mul_comm, one-mul, zero-mul, mul-add}

  pub add-mul : (x y z : F) → (x + y) * z ≡ x * z + y * z
  add-mul x y z = mul_comm (x + y) z ∙ mul-add z x y ∙ cc (mul_comm z x, mul_comm z y)

  mul-one : (x : F) → x * lit 1 0 ≡ x
  mul-one x = mul_comm x (lit 1 0) ∙ one-mul x

  pub mul-zero : (x : F) → x * lit 0 0 ≡ lit 0 0
  mul-zero x = mul_comm x (lit 0 0) ∙ zero-mul x

  pub add-zero : (x : F) → x + lit 0 0 ≡ x
  add-zero x = add_comm x (lit 0 0) ∙ zero-add x

  -- The middle terms of a sum of four change places.
  pub add_swap : (a b c d : F) → a + b + (c + d) ≡ a + c + (b + d)
  add_swap a b c d =
      add_assoc a b (c + d)
      ∙ ap (λ t. a + t) (sym (add_assoc b c d) ∙ ap (λ t. t + d) (add_comm b c) ∙ add_assoc c b d)
      ∙ sym (add_assoc a c (b + d))

  -- A factor of the inverse determinant comes to the front.
  pull : (p x i z : F) → p * (x * i) * z ≡ p * (i * (x * z))
  pull p x i z =
      mul_assoc p (x * i) z ∙ ap (λ t. p * t) (ap (λ t. t * z) (mul_comm x i) ∙ mul_assoc i x z)

  -- A row of the gain times a column of the innovation covariance.
  row_column :
      (p q x y z w i c e : F)
      → (p * (x * i) + q * (y * i)) * c + (p * (z * i) + q * (w * i)) * e
        ≡ p * (i * (x * c + z * e)) + q * (i * (y * c + w * e))
  row_column p q x y z w i c e =
      ap (λ t. t + (p * (z * i) + q * (w * i)) * e) (add-mul (p * (x * i)) (q * (y * i)) c)
      ∙ ap (λ t. p * (x * i) * c + q * (y * i) * c + t) (add-mul (p * (z * i)) (q * (w * i)) e)
      ∙ add_swap (p * (x * i) * c) (q * (y * i) * c) (p * (z * i) * e) (q * (w * i) * e)
      ∙ cc (
        pull p x i c,
        pull p z i e,
        pull q y i c,
        pull q w i e,
        mul-add p (i * (x * c)) (i * (z * e)),
        mul-add q (i * (y * c)) (i * (w * e)),
        mul-add i (x * c) (z * e),
        mul-add i (y * c) (w * e),
      )

  cancel : (x y : F) → neg x * y + y * x ≡ lit 0 0
  cancel x y = cc (neg-mul x y, mul_comm x y, add-neg (x * y), add_comm (neg (x * y)) (x * y))

  module _ (a b c d i : F) (invertible : i * (a * d - b * c) ≡ lit 1 0) where
    first_column :
        (p q : F) → (p * (d * i) + q * (neg c * i)) * a + (p * (neg b * i) + q * (a * i)) * c ≡ p
    first_column p q =
        row_column p q d (neg c) (neg b) a i a c
        ∙ cc (
          mul_comm d a,
          neg-mul b c,
          sub-neg (a * d) (b * c),
          invertible,
          cancel c a,
          mul-zero i,
          mul-zero q,
          mul-one p,
          add-zero p,
        )

    second_column :
        (p q : F) → (p * (d * i) + q * (neg c * i)) * b + (p * (neg b * i) + q * (a * i)) * d ≡ q
    second_column p q =
        row_column p q d (neg c) (neg b) a i b d
        ∙ cc (
          mul_comm d b,
          add_comm (b * d) (neg b * d),
          cancel b d,
          neg-mul c b,
          mul_comm c b,
          add_comm (neg (b * c)) (a * d),
          sub-neg (a * d) (b * c),
          invertible,
          mul-zero i,
          mul-zero p,
          mul-one q,
          zero-add q,
        )

  -- H, which observes the first two components.
  abbrev pub observation : List F
  observation = let o = lit 0 0 in let e = lit 1 0 in e ∷ o ∷ o ∷ o ∷ o ∷ e ∷ o ∷ o ∷ []

  -- The product of a 4×2 matrix and a 2×n matrix, for n of 2 and 4.
  abbrev pub mul_thin : ℕ → List F → List F → List F
  mul_thin n k b = tabulate 4 λ i.
      tabulate n
        λ j. (at k (flat 2 i 0) * at b (flat n 0 j) + at k (flat 2 i 1) * at b (flat n 1 j)) ∷ []

  -- P·Hᵀ: the first two columns.
  abbrev pub observed_columns : List F → List F
  observed_columns p = tabulate 4 λ i. tabulate 2 λ j. at p (flat 4 i j) ∷ []

  abbrev pub mat_sub : List F → List F → List F
  mat_sub a b = tabulate 4 λ i. tabulate 4 λ j. (at a (flat 4 i j) - at b (flat 4 i j)) ∷ []

  -- H·P·Hᵀ + R
  abbrev pub innovation : KalmanFilter F → List F
  innovation kf =
      (at kf.p 0 + kf.measurement_noise)
      ∷ at kf.p 1
      ∷ at kf.p 4
      ∷ (at kf.p 5 + kf.measurement_noise)
      ∷ []

  abbrev pub gain_of : KalmanFilter F → List F
  gain_of kf =
      gain (at kf.p 0 + kf.measurement_noise) (at kf.p 1) (at kf.p 4)
        (at kf.p 5 + kf.measurement_noise) (innovation_det kf) kf.p

  gain-innovation :
      (kf : KalmanFilter F)
      → lit 1 0 / innovation_det kf * innovation_det kf ≡ lit 1 0
      → mul_thin 2 (gain_of kf) (innovation kf) ≡ observed_columns kf.p
  unfolding gain innovation_det
  gain-innovation kf h =
      let p = kf.p in
      let a = at p 0 + kf.measurement_noise in
      let b = at p 1 in
      let c = at p 4 in
      let d = at p 5 + kf.measurement_noise in
      let i = lit 1 0 / (a * d - b * c) in
      cc (
        first_column a b c d i h (at p 0) (at p 1),
        second_column a b c d i h (at p 0) (at p 1),
        first_column a b c d i h (at p 4) (at p 5),
        second_column a b c d i h (at p 4) (at p 5),
        first_column a b c d i h (at p 8) (at p 9),
        second_column a b c d i h (at p 8) (at p 9),
        first_column a b c d i h (at p 12) (at p 13),
        second_column a b c d i h (at p 12) (at p 13),
      )

  correct_covariance-mat_mul :
      (k p : List F)
      → correct_covariance k p
        ≡ mat_mul
            (mat_sub
              (diag_matrix (lit 1 0) (lit 1 0) (lit 1 0) (lit 1 0))
              (mul_thin 4 k observation))
            p
  unfolding correct_covariance row_sum factor diag_matrix
  correct_covariance-mat_mul k p = simp (mul-one, mul-zero, add-zero, zero-add) refl

  -- In exact arithmetic, where the determinant of the innovation covariance S = H·P·Hᵀ + R has an
  -- inverse: the gain K of the correction solves K·S = P·Hᵀ, the covariance becomes (I - K·H)·P, and
  -- the state is x + K·y, for the innovation y = z - H·x, before the velocity is blended.
  pub correct-model :
      (m : Position F) (kf : KalmanFilter F)
      → lit 1 0 / innovation_det kf * innovation_det kf ≡ lit 1 0
      → let next = correct m kf in
        let k = gain_of kf in
        let y_lat = m.lat - at kf.x 0 in
        let y_lon = m.lon - at kf.x 1 in
        (mul_thin 2 k (innovation kf) ≡ observed_columns kf.p)
        × (next.p
            ≡ mat_mul
                (mat_sub
                  (diag_matrix (lit 1 0) (lit 1 0) (lit 1 0) (lit 1 0))
                  (mul_thin 4 k observation))
                kf.p)
        × (next.x
            ≡ blend m (tabulate 4 λ i. (at kf.x i + at (mul_thin 1 k (y_lat ∷ y_lon ∷ [])) i) ∷ []))
  unfolding correct correct_state
  correct-model m kf h = (gain-innovation kf h, correct_covariance-mat_mul (gain_of kf) kf.p, refl)
