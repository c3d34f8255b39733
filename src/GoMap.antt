-- ===== src/GoMap.antt =====
-- Go's built-in `map[K]V`, as an association list with one entry for each key. The order in which a
-- `for … range` loop visits a map is not fixed by the language: a loop takes the keys in the order
-- of the visits as an argument, and its theorems hold for every order that `Enumerates` the map.
pub mod Laws
pub mod Range
use public_transport_tracker.Base.{
  ℕ, ◌≡◌, Bool, Option, none, some, List, [], ◌∷◌, map, Comparable, ◌==◌, if◌then◌else◌, length,
  presence, count,
}

abbrev pub GoMap {ℓ κ} : Type ℓ → Type κ → Type (ℓ ⊔ κ)
GoMap K V = List (K × V)

-- make(map[K]V)
abbrev pub empty {ℓ κ} : {K : Type ℓ} {V : Type κ} → GoMap K V
empty = []

-- len(m)
abbrev pub len {ℓ κ} : {K : Type ℓ} {V : Type κ} → GoMap K V → ℕ
len m = length m

abbrev pub keys {ℓ κ} : {K : Type ℓ} {V : Type κ} → GoMap K V → List K
keys [] = []
keys ((k, v) ∷ m) = k ∷ keys m

module _ {ℓ κ} {K : Type ℓ} {V : Type κ} ⦃e : Comparable K⦄ where
  -- v, ok := m[k]
  unfoldable pub lookup : K → GoMap K V → Option V
  lookup k [] = none
  lookup k ((i, w) ∷ rest) = if i == k then some w else lookup k rest

  -- m[k] = v
  unfoldable pub assign : K → V → GoMap K V → GoMap K V
  assign k v [] = (k, v) ∷ []
  assign k v ((i, w) ∷ rest) = if i == k then (k, v) ∷ rest else (i, w) ∷ assign k v rest

  -- delete(m, k)
  unfoldable pub delete : K → GoMap K V → GoMap K V
  delete k [] = []
  delete k ((i, w) ∷ rest) = if i == k then rest else (i, w) ∷ delete k rest

  -- No key stands in two entries.
  abbrev pub IsMap : GoMap K V → Type κ
  IsMap [] = Unit
  IsMap ((k, v) ∷ m) = (lookup k m ≡ none) × IsMap m

  -- `order` visits each key of the map once, and nothing else.
  abbrev pub Enumerates : List K → GoMap K V → Type ℓ
  Enumerates order m = (k : K) → count k order ≡ presence (lookup k m)
