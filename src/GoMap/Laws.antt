-- ===== src/GoMap/Laws.antt =====
-- The laws of look-up, assignment and deletion.
use public_transport_tracker.Base.{
  ◌+◌, ◌≡◌, refl, none, some, [], ◌∷◌, arith, Comparable, ◌==◌, ==_iff, if◌then◌else◌, length,
  presence,
}
use public_transport_tracker.GoMap.{GoMap, lookup, assign, delete, IsMap}

module _ {ℓ κ} {K : Type ℓ} {V : Type κ} ⦃e : Comparable K⦄ where
  pub lookup-assign :
      (j k : K) (v : V) (m : GoMap K V)
      → lookup j (assign k v m) ≡ (if k == j then some v else lookup j m)
  unfolding lookup assign
  lookup-assign j k v [] = refl
  lookup-assign j k v ((i, w) ∷ m) =
      ground (arith, ==_iff k j, ==_iff i k, ==_iff i j, lookup-assign j k v m)

  pub lookup-delete :
      (j k : K) (m : GoMap K V)
      → IsMap m
      → lookup j (delete k m) ≡ (if k == j then none else lookup j m)
  unfolding lookup delete
  lookup-delete j k [] h = ground arith
  lookup-delete j k ((i, w) ∷ m) (fresh, h) =
      ground (arith, ==_iff k j, ==_iff i k, ==_iff i j, lookup-delete j k m h)

  pub assign-IsMap : (k : K) (v : V) (m : GoMap K V) → IsMap m → IsMap (assign k v m)
  unfolding lookup assign
  assign-IsMap k v [] h = (refl, tt)
  assign-IsMap k v ((i, w) ∷ m) (fresh, h) =
      ground (arith, ==_iff i k, ==_iff k i, lookup-assign i k v m, assign-IsMap k v m h)

  pub delete-IsMap : (k : K) (m : GoMap K V) → IsMap m → IsMap (delete k m)
  unfolding lookup delete
  delete-IsMap k [] h = tt
  delete-IsMap k ((i, w) ∷ m) (fresh, h) =
      ground (arith, ==_iff i k, ==_iff k i, lookup-delete i k m h, delete-IsMap k m h)

  -- Deleting a key that is there takes one entry away.
  pub length-delete :
      (k : K) (m : GoMap K V) → length m ≡ presence (lookup k m) + length (delete k m)
  unfolding lookup delete
  length-delete k [] = refl
  length-delete k ((i, w) ∷ m) = ground (arith, length-delete k m)

  -- An assignment adds an entry if there is none for the key.
  pub length-assign :
      (k : K) (v : V) (m : GoMap K V) → length (assign k v m) + presence (lookup k m) ≡ length m + 1
  unfolding assign lookup
  length-assign k v [] = refl
  length-assign k v ((i, w) ∷ m) = ground (arith, length-assign k v m)
