-- ===== src/Base/Counts.antt =====
-- Counting the occurrences of a value, and what equal counts say of two lists.
use Prim.Native.Nat.{ℕ, suc, ◌+◌, ◌≤◌}
use mathlib.Core.Path.{◌≡◌, refl}
use mathlib.Core.List.{List, [], ◌∷◌}
use native.Mathlib.Omega.{arith}
use package.public_transport_tracker.Base.Tests.{if◌then◌else◌}
use package.public_transport_tracker.Base.Lists.{length}
use package.public_transport_tracker.Base.Equality.{Comparable, ◌==◌, ==_iff, ==_refl}

module _ {ℓ} {A : Type ℓ} ⦃e : Comparable A⦄ where
  abbrev pub count : A → List A → ℕ
  count a [] = 0
  count a (x ∷ xs) = (if x == a then 1 else 0) + count a xs

  -- The list without the first occurrence of a value.
  erase : A → List A → List A
  erase a [] = []
  erase a (x ∷ xs) = if x == a then xs else x ∷ erase a xs

  count-erase :
      (a b : A) (xs : List A)
      → 1 ≤ count a xs
      → count b xs ≡ (if a == b then 1 else 0) + count b (erase a xs)
  unfolding erase
  count-erase a b [] h = absurd (omega arith)
  count-erase a b (x ∷ xs) h =
      ground (arith, ==_iff x a, ==_iff a b, ==_iff x b, count-erase a b xs)

  length-erase : (a : A) (xs : List A) → 1 ≤ count a xs → length xs ≡ suc (length (erase a xs))
  unfolding erase
  length-erase a [] h = absurd (omega arith)
  length-erase a (x ∷ xs) h = ground (arith, length-erase a xs)

  pub length_of_count :
      (xs ys : List A) → ((a : A) → count a xs ≡ count a ys) → length xs ≡ length ys
  length_of_count [] [] h = refl
  length_of_count [] (y ∷ ys) h = ground (arith, h y, ==_iff y y, ==_refl y)
  length_of_count (x ∷ xs) ys h =
      let here : 1 ≤ count x ys = ground (arith, h x, ==_refl x) in
      let rest = length_of_count xs (erase x ys) λ a. omega (arith, h a, count-erase x a ys here) in
      omega (arith, rest, length-erase x ys here)
