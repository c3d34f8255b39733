-- ===== src/GoMap/Range.antt =====
-- What a full range over a map visits.
use public_transport_tracker.Base.{
  ◌≡◌, refl, List, [], ◌∷◌, arith, Comparable, ==_iff, length, length_of_count, ◌∙◌, ℕ, ◌+◌,
  if◌then◌else◌, is_some, presence, count, sym,
}
use public_transport_tracker.GoMap.{GoMap, lookup, IsMap, Enumerates, keys, len}

module _ {ℓ κ} {K : Type ℓ} {V : Type κ} ⦃e : Comparable K⦄ where
  -- The order of the entries is one of the orders.
  pub keys-Enumerates : (m : GoMap K V) → IsMap m → Enumerates (keys m) m
  unfolding lookup
  keys-Enumerates [] h k = refl
  keys-Enumerates ((i, w) ∷ m) (fresh, h) k =
      ground (arith, ==_iff i k, keys-Enumerates m h k, keys-Enumerates m h i)

  length-keys : (m : GoMap K V) → length (keys m) ≡ length m
  length-keys [] = refl
  length-keys ((i, w) ∷ m) = omega (arith, length-keys m)

  -- A full range makes as many rounds as the map has entries.
  pub length-Enumerates :
      (order : List K) (m : GoMap K V) → IsMap m → Enumerates order m → length order ≡ len m
  length-Enumerates order m h visits =
      length_of_count order (keys m) (λ k. omega (arith, visits k, keys-Enumerates m h k))
      ∙ length-keys m

  -- The keys of a list that a map has.
  abbrev present_only : GoMap K V → List K → List K
  present_only m [] = []
  present_only m (k ∷ order) =
      let rest = present_only m order in if is_some (lookup k m) then k ∷ rest else rest

  -- How many of the keys a map has.
  abbrev pub count_present : GoMap K V → List K → ℕ
  count_present m [] = 0
  count_present m (k ∷ order) = presence (lookup k m) + count_present m order

  length-present_only :
      (m : GoMap K V) (order : List K) → length (present_only m order) ≡ count_present m order
  length-present_only m [] = refl
  length-present_only m (k ∷ order) = ground (arith, length-present_only m order)

  count-present_only :
      (m : GoMap K V) (order : List K) (k : K)
      → count k (present_only m order) ≡ (if is_some (lookup k m) then count k order else 0)
  count-present_only m [] k = ground arith
  count-present_only m (i ∷ order) k = ground (arith, ==_iff i k, count-present_only m order k)

  -- A list that has each key of the map once, and may have others, finds each of its entries once.
  pub count_present-len :
      (m : GoMap K V) (order : List K)
      → IsMap m
      → ((k : K) → presence (lookup k m) ≡ 1 → count k order ≡ 1)
      → count_present m order ≡ len m
  count_present-len m order h covers =
      sym (length-present_only m order)
      ∙ length-Enumerates (present_only m order) m h
          λ k. ground (arith, count-present_only m order k, covers k)
