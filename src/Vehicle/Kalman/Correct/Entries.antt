-- ===== src/Vehicle/Kalman/Correct/Entries.antt =====
-- The entries of (I - K·H)·P, and a row of the gain against a column of P, in exact arithmetic.
use public_transport_tracker.Base.{◌≡◌, ap, ◌∙◌}
use public_transport_tracker.Float.{Float, ◌+◌, ◌-◌, ◌*◌, IsExactRing}
use public_transport_tracker.Vehicle.Kalman.Correct.{add-mul, add-zero, add_swap}

module _ {F : Type 0} ⦃f : Float F⦄ (ring : IsExactRing F) where
  open f use {lit, neg}
  open ring use {exact, sub-neg, add-neg, neg-mul}
  open exact use {add_assoc, add_comm, zero-add, mul_assoc, mul_comm, one-mul, zero-mul, mul-add}

  neg-add : (a b : F) → neg (a + b) ≡ neg a + neg b
  neg-add a b =
      let one = lit 1 0 in
      cc (
        neg-mul one (a + b),
        one-mul (a + b),
        mul-add (neg one) a b,
        neg-mul one a,
        one-mul a,
        neg-mul one b,
        one-mul b,
      )

  pub neg-zero : neg (lit 0 0) ≡ lit 0 0
  neg-zero = cc (zero-add (neg (lit 0 0)), add-neg (lit 0 0))

  -- The entries of I - K·H times an entry of P.
  on_diagonal : (k q : F) → (lit 1 0 - k) * q ≡ q + neg (k * q)
  on_diagonal k q =
      ap (λ t. t * q) (sub-neg (lit 1 0) k)
      ∙ add-mul ring (lit 1 0) (neg k) q
      ∙ cc (one-mul q, neg-mul k q)

  off_diagonal : (k q : F) → (lit 0 0 - k) * q ≡ neg (k * q)
  off_diagonal k q = ap (λ t. t * q) (sub-neg (lit 0 0) k ∙ zero-add (neg k)) ∙ neg-mul k q

  kept : (q : F) → (lit 1 0 - lit 0 0) * q ≡ q
  kept q =
      on_diagonal (lit 0 0) q ∙ ap (λ t. q + t) (ap neg (zero-mul q) ∙ neg-zero) ∙ add-zero ring q

  -- A row of the gain against a column of P, and the other way round.
  pub exchange :
      (u v s t d n a : F)
      → (u * d + v * n) * s + (u * n + v * a) * t ≡ (s * d + t * n) * u + (s * n + t * a) * v
  exchange u v s t d n a =
      let around : (x y z : F) → x * y * z ≡ z * y * x =
        λ x y z. cc (mul_assoc x y z, mul_comm x (y * z), mul_comm y z) in
      cc (
        add-mul ring (u * d) (v * n) s,
        add-mul ring (u * n) (v * a) t,
        add_swap ring (u * d * s) (v * n * s) (u * n * t) (v * a * t),
        add-mul ring (s * d) (t * n) u,
        add-mul ring (s * n) (t * a) v,
        around u d s,
        around v n s,
        around u n t,
        around v a t,
      )

  -- What the correction takes from an entry.
  abbrev pub less : F → F → F → F → F → F
  less q k0 q0 k1 q1 = q + neg (k0 * q0 + k1 * q1)

  pub row_first :
      (k0 k1 q0 q1 q2 q3 : F)
      → lit 0 0
          + (lit 1 0 - k0) * q0
          + (lit 0 0 - k1) * q1
          + (lit 0 0 - lit 0 0) * q2
          + (lit 0 0 - lit 0 0) * q3
        ≡ less q0 k0 q0 k1 q1
  row_first k0 k1 q0 q1 q2 q3 =
      simp (on_diagonal, off_diagonal, zero-mul, neg-zero, add-zero ring, zero-add)
        (cc (add_assoc q0 (neg (k0 * q0)) (neg (k1 * q1)), neg-add (k0 * q0) (k1 * q1)))

  pub row_second :
      (k0 k1 q0 q1 q2 q3 : F)
      → lit 0 0
          + (lit 0 0 - k0) * q0
          + (lit 1 0 - k1) * q1
          + (lit 0 0 - lit 0 0) * q2
          + (lit 0 0 - lit 0 0) * q3
        ≡ less q1 k0 q0 k1 q1
  row_second k0 k1 q0 q1 q2 q3 =
      let x = neg (k0 * q0) in
      let y = neg (k1 * q1) in
      simp (on_diagonal, off_diagonal, zero-mul, neg-zero, add-zero ring, zero-add)
        (cc (
          add_assoc x q1 y,
          add_comm x q1,
          add_assoc q1 x y,
          add_assoc x q1 y,
          neg-add (k0 * q0) (k1 * q1),
        ))

  pub row_third :
      (k0 k1 q0 q1 q2 q3 : F)
      → lit 0 0
          + (lit 0 0 - k0) * q0
          + (lit 0 0 - k1) * q1
          + (lit 1 0 - lit 0 0) * q2
          + (lit 0 0 - lit 0 0) * q3
        ≡ less q2 k0 q0 k1 q1
  row_third k0 k1 q0 q1 q2 q3 =
      simp (kept, off_diagonal, zero-mul, neg-zero, add-zero ring, zero-add)
        (cc (add_comm (neg (k0 * q0) + neg (k1 * q1)) q2, neg-add (k0 * q0) (k1 * q1)))

  pub row_fourth :
      (k0 k1 q0 q1 q2 q3 : F)
      → lit 0 0
          + (lit 0 0 - k0) * q0
          + (lit 0 0 - k1) * q1
          + (lit 0 0 - lit 0 0) * q2
          + (lit 1 0 - lit 0 0) * q3
        ≡ less q3 k0 q0 k1 q1
  row_fourth k0 k1 q0 q1 q2 q3 =
      simp (kept, off_diagonal, zero-mul, neg-zero, add-zero ring, zero-add)
        (cc (add_comm (neg (k0 * q0) + neg (k1 * q1)) q3, neg-add (k0 * q0) (k1 * q1)))
