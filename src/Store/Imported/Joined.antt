-- ===== src/Store/Imported/Joined.antt =====
-- A join in which each row finds exactly one row of the other table.
use public_transport_tracker.Base.{
  ◌≡◌, refl, Bool, List, [], ◌∷◌, map, All, arith, Bool-cases, inl, inr,
}
use public_transport_tracker.Store.Select.{select_where, join_on}

module _ {A B : Type 0} (test : A → B → Bool) (wanted : A → Bool) (others : List B) where
  abbrev pub FindsOne : A → Type 0
  FindsOne a = (b : B) × (select_where (test a) others ≡ b ∷ [])

  -- Every wanted row is there once, in the order of its table.
  pub join_on_complete :
      (rows : List A)
      → All FindsOne rows
      → map (λ (p : A × B). p.0) (select_where (λ p. wanted p.0) (join_on test rows others))
        ≡ select_where wanted rows
  join_on_complete [] h = refl
  join_on_complete (a ∷ rows) ((b, e), h) = rw e (ground (arith, join_on_complete rows h))

  -- It stands beside the row that it finds.
  pub join_on_beside :
      (rows : List A)
      → All FindsOne rows
      → All
          (λ p. select_where (test p.0) others ≡ p.1 ∷ [])
          (select_where (λ p. wanted p.0) (join_on test rows others))
  join_on_beside [] h = tt
  join_on_beside (a ∷ rows) ((b, e), h) = elim (Bool-cases (wanted a)) [
    | inl w ↦ rw (e, w) (e, join_on_beside rows h)
    | inr w ↦ rw (e, w) (join_on_beside rows h)
  ]
