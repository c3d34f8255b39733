-- ===== src/Gtfs/Importer/Loops.antt =====
-- What the loops over records add to a table.
use public_transport_tracker.Base.{
  string_eq, ℕ, ◌+◌, ◌≡◌, refl, ◌∙◌, Bool, Option, none, some, List, [], ◌∷◌, ◌++◌, map, String,
  if◌then◌else◌, ◌==◌, arith, append-nil, append_assoc, Bool-cases, Option-cases, inl, inr, ◌⊎◌,
}
use public_transport_tracker.Gtfs.{
  table_eq, Table, Row, Tables, Database, insert, prepare, insert_row,
}
use public_transport_tracker.Gtfs.Csv.{CsvFile, strip_bom, read_csv}
use public_transport_tracker.Gtfs.Importer.{FileError, Result, ok, err, insert_range, import_rows}

pub Result-cases :
    {F E A : Type 0} (r : Result F E A)
    → ((a : A) × (tx : Tables F) × (r ≡ ok a tx)) ⊎ ((e : E) × (r ≡ err e))
Result-cases (ok a tx) = inl (a, tx, refl)
Result-cases (err e) = inr (e, refl)

module _ {F : Type 0} where
  -- The rows that go to the table `t`, of rows for the table `u`.
  abbrev pub rows_for : Table → Table → List (Row F) → List (Row F)
  rows_for u t rows = if u == t then rows else []

  pub insert_row-rows_for :
      (t u : Table) (row : Row F) (rows : List (Row F)) (tx : Tables F)
      → insert_row t row tx u ++ rows_for t u rows ≡ tx u ++ rows_for t u (row ∷ rows)
  insert_row-rows_for t u row rows tx = elim (Bool-cases (t == u)) [
    | inl e ↦ rw e (append_assoc (tx u) (row ∷ []) rows)
    | inr e ↦ rw e refl
  ]

  -- Where a function of the importer succeeds, it has added exactly these rows to this table.
  abbrev pub Adds : Table → List (Row F) → Tables F → Result F FileError ℕ → Type 0
  Adds t rows tx result =
      (n : ℕ) (tx' : Tables F) → result ≡ ok n tx' → (u : Table) → tx' u ≡ tx u ++ rows_for t u rows

  -- The rows of a file; a file that is absent or has no header has none.
  abbrev pub file_rows :
      (List String → List String → Row F) → Option (Option CsvFile) → List (Row F)
  file_rows to_row none = []
  file_rows to_row (some none) = []
  file_rows to_row (some (some file)) = elim file.header [
    | none ↦ []
    | some header ↦ map (to_row (strip_bom header)) file.rows
  ]

  module _ (accepts : Database F) where
    insert_range-Adds :
        (t : Table) (to_row : List String → Row F) (rows : List (List String)) (complete : Bool)
        (count : ℕ) (tx : Tables F)
        → Adds t (map to_row rows) tx (insert_range accepts t to_row rows complete count tx)
    unfolding insert_range
    insert_range-Adds t to_row [] complete count tx n tx' e u =
        let same : tx' ≡ tx = ground arith in
        rw same (elim (Bool-cases (t == u)) [
          | inl h ↦ rw (h, append-nil) refl
          | inr h ↦ rw (h, append-nil) refl
        ])
    insert_range-Adds t to_row (record' ∷ rows) complete count tx n tx' e u =
        elim (Bool-cases (accepts (insert t (to_row record')) tx)) [
          | inl h ↦
              insert_range-Adds t to_row rows complete (count + 1)
                (insert_row t (to_row record') tx) n tx' (ground arith) u
              ∙ insert_row-rows_for t u (to_row record') (map to_row rows) tx
          | inr h ↦ absurd (ground arith)
        ]

    pub import_rows-Adds :
        (t : Table) (to_row : List String → List String → Row F) (entry : Option CsvFile)
        (tx : Tables F)
        → Adds t (file_rows to_row (some entry)) tx (import_rows accepts t to_row entry tx)
    unfolding import_rows read_csv
    import_rows-Adds t to_row none tx n tx' e u = absurd (ground arith)
    import_rows-Adds t to_row (some file) tx n tx' e u = elim (Option-cases file.header) [
      | inl h ↦ absurd (ground arith)
      | inr (header, h) ↦ elim (Bool-cases (accepts (prepare t) tx)) [
        | inl a ↦ rw h (
            insert_range-Adds t (to_row (strip_bom header)) file.rows file.complete 0 tx n tx'
              (ground arith) u)
        | inr a ↦ absurd (ground arith)
      ]
    ]
