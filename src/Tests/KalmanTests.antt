-- ===== src/Tests/KalmanTests.antt =====
-- The Kalman filter: its prediction over the natural numbers, where the arithmetic is exact, and a
-- call of it over the decimals.
use public_transport_tracker.Base.{
  ℕ, ◌+◌, ◌*◌, ◌-◌, ◌/◌, ◌%◌, ◌^◌, ◌≡◌, refl, Bool, true, false, not, ◌&&◌, if◌then◌else◌, nat_beq,
  List, [], ◌∷◌, arith, ltb, leb,
}
use public_transport_tracker.Base.Int.{pos}
use public_transport_tracker.Float.{Float, IsExact, IsExactRing}
use public_transport_tracker.Vehicle.{Position}
use public_transport_tracker.Vehicle.Kalman.{
  KalmanFilter, new_kalman_filter, filter, predict, noise_of, diag_matrix, correct, innovation_det,
  blend, tabulate, at,
}
use public_transport_tracker.Vehicle.Kalman.Filter.{
  IsShaped, filter-IsShaped, new_kalman_filter-IsShaped,
}
use public_transport_tracker.Vehicle.Kalman.Correct.{
  correct-model, mul_thin, gain_of, innovation, observed_columns, mat_sub, observation,
}
use public_transport_tracker.Vehicle.Kalman.Symmetric.{IsSymmetric, filter_all}
use public_transport_tracker.Vehicle.Kalman.Separate.{IsSeparate, new_kalman_filter-IsSeparate}
use public_transport_tracker.Vehicle.Kalman.Predict.{
  predict-model, mat_vec, mat_mul, mat_add, transpose, transition_matrix,
}
use public_transport_tracker.Tests.Samples.{decimal, here}

abbrev naturals : Float ℕ
naturals = record {
  add = ◌+◌;
  sub = ◌-◌;
  mul = ◌*◌;
  div = ◌/◌;
  neg = λ a. 0;
  lt = ltb;
  le = leb;
  lit = λ m e. m / 10 ^ e;
  inf = 0;
  pi = 3;
  abs = λ a. a;
  sqrt = λ a. a;
  sin = λ a. 0;
  cos = λ a. 1;
  atan2 = λ a b. 0;
  mod_float = λ a b. a;
  of_nanos = λ n. 0;
}

naturals-IsExact : IsExact ℕ ⦃f = naturals⦄
naturals-IsExact = record {
  add_assoc = λ x y z. omega arith;
  add_comm = λ x y. omega arith;
  zero-add = λ x. omega arith;
  mul_assoc = λ x y z. omega arith;
  mul_comm = λ x y. omega arith;
  one-mul = λ x. omega arith;
  zero-mul = λ x. omega arith;
  mul-add = λ x y z. omega arith;
}

abbrev two_seconds : KalmanFilter ℕ
two_seconds = record {
  initialized = true;
  last_time = pos 0;
  x = 1 ∷ 2 ∷ 3 ∷ 4 ∷ [];
  p = 1 ∷ 0 ∷ 2 ∷ 0 ∷ 0 ∷ 1 ∷ 0 ∷ 2 ∷ 2 ∷ 0 ∷ 5 ∷ 0 ∷ 0 ∷ 2 ∷ 0 ∷ 5 ∷ [];
  process_noise = 10;
  measurement_noise = 1;
}

predict-model_example :
    let ns : Float ℕ = naturals in
    let next : KalmanFilter ℕ = predict ⦃f = ns⦄ 2 two_seconds in
    let q : ℕ = noise_of ⦃f = ns⦄ 10 2 in
    let t : List ℕ = transition_matrix ⦃f = ns⦄ 2 in
    (next.x ≡ mat_vec ⦃f = ns⦄ t two_seconds.x)
    × (next.p
        ≡ mat_add ⦃f = ns⦄
            (mat_mul ⦃f = ns⦄ (mat_mul ⦃f = ns⦄ t two_seconds.p) (transpose ⦃f = ns⦄ t))
            (diag_matrix ⦃f = ns⦄ q q (q * naturals.lit 1 1) (q * naturals.lit 1 1)))
predict-model_example =
    predict-model ⦃f = naturals⦄ naturals-IsExact 2 two_seconds
      (record { state = refl; covariance = refl })

filter-IsShaped_example :
    let (next, out) = filter new_kalman_filter (here (pos 5) (pos 7) (pos 9)) in
    IsShaped next
    × (out.timestamp ≡ pos 9)
    × (next.last_time ≡ pos 9)
    × (next.initialized ≡ true)
    × (next.process_noise ≡ new_kalman_filter.process_noise)
    × (next.measurement_noise ≡ new_kalman_filter.measurement_noise)
filter-IsShaped_example =
    filter-IsShaped new_kalman_filter (here (pos 5) (pos 7) (pos 9)) new_kalman_filter-IsShaped

-- The field of two elements, where the determinant below has an inverse.
abbrev xor : Bool → Bool → Bool
xor a b = if a then not b else b

abbrev pub bits : Float Bool
bits = record {
  add = xor;
  sub = xor;
  mul = ◌&&◌;
  div = λ a b. a;
  neg = λ a. a;
  lt = λ a b. false;
  le = λ a b. true;
  lit = λ m e. nat_beq (m % 2) 1;
  inf = true;
  pi = true;
  abs = λ a. a;
  sqrt = λ a. a;
  sin = λ a. a;
  cos = λ a. a;
  atan2 = λ a b. a;
  mod_float = λ a b. a;
  of_nanos = λ n. true;
}

bits-IsExact : IsExact Bool ⦃f = bits⦄
bits-IsExact = record {
  add_assoc = λ x y z. ground arith;
  add_comm = λ x y. ground arith;
  zero-add = λ x. refl;
  mul_assoc = λ x y z. ground arith;
  mul_comm = λ x y. ground arith;
  one-mul = λ x. refl;
  zero-mul = λ x. refl;
  mul-add = λ x y z. ground arith;
}

pub bits-IsExactRing : IsExactRing Bool ⦃f = bits⦄
bits-IsExactRing = record {
  exact = bits-IsExact;
  sub-neg = λ x y. refl;
  add-neg = λ x. ground arith;
  neg-mul = λ x y. refl;
}

abbrev o : Bool
o = false

abbrev e : Bool
e = true

abbrev one_bit : KalmanFilter Bool
one_bit = record {
  initialized = true;
  last_time = pos 0;
  x = e ∷ o ∷ e ∷ o ∷ [];
  p = o ∷ e ∷ e ∷ o ∷ o ∷ o ∷ o ∷ e ∷ e ∷ o ∷ e ∷ o ∷ o ∷ e ∷ o ∷ e ∷ [];
  process_noise = e;
  measurement_noise = e;
}

abbrev bit_position : Position Bool
bit_position = record { lat = o; lon = e; bearing = o; speed = o; timestamp = pos 1 }

bit-invertible : bits.lit 1 0 && innovation_det ⦃f = bits⦄ one_bit ≡ bits.lit 1 0
unfolding innovation_det
bit-invertible = refl

correct-model_example :
    let fs : Float Bool = bits in
    let next : KalmanFilter Bool = correct ⦃f = fs⦄ bit_position one_bit in
    let k : List Bool = gain_of ⦃f = fs⦄ bits-IsExactRing one_bit in
    (mul_thin ⦃f = fs⦄ bits-IsExactRing 2 k (innovation ⦃f = fs⦄ bits-IsExactRing one_bit)
      ≡ observed_columns ⦃f = fs⦄ bits-IsExactRing one_bit.p)
    × (next.p
        ≡ mat_mul ⦃f = fs⦄
            (mat_sub ⦃f = fs⦄ bits-IsExactRing
              (diag_matrix ⦃f = fs⦄ e e e e)
              (mul_thin ⦃f = fs⦄ bits-IsExactRing 4 k (observation ⦃f = fs⦄ bits-IsExactRing)))
            one_bit.p)
    × (next.x
        ≡ blend ⦃f = fs⦄ bit_position (
            tabulate ⦃f = fs⦄ 4 λ i.
              xor (at ⦃f = fs⦄ one_bit.x i) (
                at ⦃f = fs⦄
                  (mul_thin ⦃f = fs⦄ bits-IsExactRing 1 k
                    (xor o (at ⦃f = fs⦄ one_bit.x 0) ∷ xor e (at ⦃f = fs⦄ one_bit.x 1) ∷ []))
                  i)
              ∷ []))
correct-model_example =
    correct-model ⦃f = bits⦄ bits-IsExactRing bit_position one_bit bit-invertible

abbrev bit_positions : List (Position Bool)
bit_positions = bit_position ∷ record bit_position { timestamp = pos 4 } ∷ bit_position ∷ []

new_kalman_filter-IsSeparate_example :
    let p = (filter_all ⦃f = bits⦄ (new_kalman_filter ⦃f = bits⦄) bit_positions).p in
    IsSymmetric ⦃f = bits⦄ p × IsSeparate ⦃f = bits⦄ p
new_kalman_filter-IsSeparate_example =
    new_kalman_filter-IsSeparate ⦃f = bits⦄ bits-IsExactRing bit_positions
