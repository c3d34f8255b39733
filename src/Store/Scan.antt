-- ===== src/Store/Scan.antt =====
-- What the loop over the rows of a query returns.
use public_transport_tracker.Base.{
  ◌≡◌, ◌↔◌, refl, sym, subst, ◌∙◌, false, Option, none, some, List, [], ◌∷◌, ◌++◌, append-nil,
  append_assoc, arith, Option-cases, inl, inr,
}
use public_transport_tracker.Store.{Column, Rows, scan_range, scan_query}

module _ {F A : Type 0} (scan : List (Column F) → Option A) where
  -- Each row scans to the value beside it.
  pub data Scans : List (List (Column F)) → List A → Type 0 where
    no_rows : Scans [] []
    scanned :
        {row : List (Column F)} {a : A} {items : List (List (Column F))} {result : List A}
        → scan row ≡ some a
        → Scans items result
        → Scans (row ∷ items) (a ∷ result)

  scan_range-Scans :
      (items : List (List (Column F))) (before out : List A)
      → scan_range scan items before ≡ some out
      → (result : List A) × (out ≡ before ++ result) × Scans items result
  unfolding scan_range
  scan_range-Scans [] before out e = ([], simp append-nil (ground arith), no_rows)
  scan_range-Scans (row ∷ items) before out e = elim (Option-cases (scan row)) [
    | inl h ↦ absurd (ground arith)
    | inr (a, h) ↦
        let (result, joined, rest) = scan_range-Scans items (before ++ a ∷ []) out (ground arith) in
        (a ∷ result, joined ∙ simp append_assoc refl, scanned h rest)
  ]

  Scans-scan_range :
      (items : List (List (Column F))) (before result : List A)
      → Scans items result
      → scan_range scan items before ≡ some (before ++ result)
  unfolding scan_range
  Scans-scan_range [] before [] no_rows = rw append-nil refl
  Scans-scan_range [] before (a ∷ result) s = elim s [ ]
  Scans-scan_range (row ∷ items) before [] s = elim s [ ]
  Scans-scan_range (row ∷ items) before (a ∷ result) (scanned h s) = ground (
    arith,
    Scans-scan_range items (before ++ a ∷ []) result s,
    append_assoc before (a ∷ []) result,
  )

  -- A query yields values exactly if the database answers, every row can be scanned and the cursor
  -- ends without an error, and then it yields one value for each row, in the order of the rows.
  pub scan_query-Scans :
      (answer : Option (Rows F)) (result : List A)
      → (scan_query scan answer ≡ some result)
        ↔ ((rows : Rows F) × (answer ≡ some rows) × (rows.failed ≡ false) × Scans rows.items result)
  unfolding scan_query
  scan_query-Scans none result =
      (λ e. absurd (ground arith), λ (rows, h, ok, s). absurd (ground arith))
  scan_query-Scans (some rows) result = (
    λ e. elim (Option-cases (scan_range scan rows.items [])) [
      | inl h ↦ absurd (ground arith)
      | inr (out, h) ↦
          let (values, joined, s) = scan_range-Scans rows.items [] out h in
          let same : out ≡ result = ground arith in
          (rows, refl, ground arith, subst (λ l. Scans rows.items l) (sym joined ∙ same) s)
    ],
    λ (others, h, ok, s).
        let same : others ≡ rows = ground arith in
        let s' : Scans rows.items result = subst (λ r. Scans r.items result) same s in
        ground (arith, Scans-scan_range rows.items [] result s'),
  )
