-- ===== src/Float.antt =====
-- Go's `float64` and the functions of package `math` that the program calls, as an interface: the
-- development is about the program's use of them, and a theorem names the laws that it needs.
use public_transport_tracker.Base.{ℕ, ◌≡◌, Bool, true, false}
use public_transport_tracker.Base.Int.{ℤ}

pub record Float (F : Type 0) : Type 0 where
  pub add : F → F → F
  pub sub : F → F → F
  pub mul : F → F → F
  pub div : F → F → F
  pub neg : F → F
  -- `a < b`; `a > b` is `lt b a`
  pub lt : F → F → Bool
  -- `a <= b`
  pub le : F → F → Bool
  -- the constant `m · 10⁻ᵉ`, rounded
  pub lit : ℕ → ℕ → F
  pub inf : F
  pub pi : F
  pub abs : F → F
  pub sqrt : F → F
  pub sin : F → F
  pub cos : F → F
  pub atan2 : F → F → F
  pub mod_float : F → F → F
  -- `Duration.Seconds`, of nanoseconds
  pub of_nanos : ℤ → F

infixl 65 ◌+◌ ◌-◌
infixl 70 ◌*◌ ◌/◌
abbrev pub ◌+◌ : {F : Type 0} ⦃f : Float F⦄ → F → F → F
◌+◌ ⦃f⦄ = f.add

abbrev pub ◌-◌ : {F : Type 0} ⦃f : Float F⦄ → F → F → F
◌-◌ ⦃f⦄ = f.sub

abbrev pub ◌*◌ : {F : Type 0} ⦃f : Float F⦄ → F → F → F
◌*◌ ⦃f⦄ = f.mul

abbrev pub ◌/◌ : {F : Type 0} ⦃f : Float F⦄ → F → F → F
◌/◌ ⦃f⦄ = f.div

-- IEEE 754: `<` is irreflexive and transitive, for every double and so also with NaN.
pub record IsOrdered (F : Type 0) ⦃f : Float F⦄ : Type 0 where
  pub lt_irrefl : (x : F) → f.lt x x ≡ false
  pub lt_trans : (x y z : F) → f.lt x y ≡ true → f.lt y z ≡ true → f.lt x z ≡ true

-- IEEE 754: `x - x` is 0 or NaN, and neither has an absolute value above a positive constant.
pub record IsSelfClose (F : Type 0) ⦃f : Float F⦄ : Type 0 where
  pub self_close : (x : F) (m e : ℕ) → f.lt (f.lit m e) (f.abs (f.sub x x)) ≡ false

-- Exact arithmetic: what the formulas of the program are derived in. Doubles satisfy these laws up
-- to rounding only.
pub record IsExact (F : Type 0) ⦃f : Float F⦄ : Type 0 where
  pub add_assoc : (x y z : F) → x + y + z ≡ x + (y + z)
  pub add_comm : (x y : F) → x + y ≡ y + x
  pub zero-add : (x : F) → f.lit 0 0 + x ≡ x
  pub mul_assoc : (x y z : F) → x * y * z ≡ x * (y * z)
  pub mul_comm : (x y : F) → x * y ≡ y * x
  pub one-mul : (x : F) → f.lit 1 0 * x ≡ x
  pub zero-mul : (x : F) → f.lit 0 0 * x ≡ f.lit 0 0
  pub mul-add : (x y z : F) → x * (y + z) ≡ x * y + x * z

-- Exact arithmetic with differences.
pub record IsExactRing (F : Type 0) ⦃f : Float F⦄ : Type 0 where
  pub exact : IsExact F
  pub sub-neg : (x y : F) → x - y ≡ x + f.neg y
  pub add-neg : (x : F) → x + f.neg x ≡ f.lit 0 0
  pub neg-mul : (x y : F) → f.neg x * y ≡ f.neg (x * y)

-- Exact arithmetic with distances.
pub record IsExactDistance (F : Type 0) ⦃f : Float F⦄ : Type 0 where
  pub self : (x : F) → f.le (f.abs (x - x)) (f.lit 0 0) ≡ true
  pub weaken : (x y : F) → f.le x y ≡ true → f.le x (y + f.lit 1 7) ≡ true
  pub at_most : (x y : F) → f.lt y x ≡ false → f.le x y ≡ true
  pub triangle :
      (x y z a b : F)
      → f.le (f.abs (x - y)) a ≡ true
      → f.le (f.abs (y - z)) b ≡ true
      → f.le (f.abs (x - z)) (a + b) ≡ true
