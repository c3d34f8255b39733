-- ===== src/Gtfs/Importer/Success.antt =====
-- Which archives are imported, where the database accepts every statement.
use public_transport_tracker.Base.{
  string_eq, nat_eq, ℕ, ◌+◌, ◌≡◌, refl, sym, ap, ◌∙◌, Bool, true, false, Option, none, some, List,
  [], ◌∷◌, String, arith, Bool-cases, Option-cases, inl, inr, not, ◌&&◌, is_some, ◌↔◌, All,
}
use public_transport_tracker.GoMap.{GoMap, empty, lookup}
use public_transport_tracker.Gtfs.{Table, shapes, shape, insert_row, Row, Tables, Database}
use public_transport_tracker.Gtfs.Csv.{CsvFile, strip_bom, read_csv}
use public_transport_tracker.Gtfs.Rows.{Conversions}
use public_transport_tracker.Gtfs.Shapes.{ShapePoint, line_string}
use public_transport_tracker.Gtfs.Importer.Loops.{Result-cases}
use public_transport_tracker.Gtfs.Importer.{
  ImportError, Result, ok, err, FileImporter, importers, import_rows, import_shapes, import_range,
  index_files, insert_range, insert_shapes, cleared_tables, delete_range, in_transaction, import,
}

abbrev pub accept_all : {F : Type 0} → Database F
accept_all statement db = true

abbrev pub is_ok : {F E A : Type 0} → Result F E A → Bool
is_ok (ok a tx) = true
is_ok (err e) = false

-- An entry opens, has a header, and its records are read to the end.
abbrev pub is_readable : Option CsvFile → Bool
is_readable none = false
is_readable (some file) = is_some file.header && file.complete

-- The entry of that name is readable, or it is absent and need not be there.
abbrev pub is_importable : Bool → String → GoMap String (Option CsvFile) → Bool
is_importable req name files = elim (lookup name files) [ none ↦ not req | some f ↦ is_readable f ]

module _ {F : Type 0} (conv : Conversions F)
    (sort : List (ShapePoint F) → List (ShapePoint F)) where
  insert_range-ok :
      (t : Table) (to_row : List String → Row F) (rows : List (List String)) (complete : Bool)
      (count : ℕ) (tx : Tables F)
      → is_ok (insert_range accept_all t to_row rows complete count tx) ≡ complete
  unfolding insert_range
  insert_range-ok t to_row [] complete count tx = ground arith
  insert_range-ok t to_row (r ∷ rows) complete count tx = insert_range-ok t to_row rows complete _ _

  import_rows-ok :
      (t : Table) (to_row : List String → List String → Row F) (f : Option CsvFile) (tx : Tables F)
      → is_ok (import_rows accept_all t to_row f tx) ≡ is_readable f
  unfolding import_rows read_csv
  import_rows-ok t to_row none tx = refl
  import_rows-ok t to_row (some file) tx = elim (Option-cases file.header) [
    | inl h ↦ rw h refl
    | inr (header, h) ↦
        rw h (insert_range-ok t (to_row (strip_bom header)) file.rows file.complete 0 tx)
  ]

  insert_shapes-ok :
      (order : List String) (grouped : GoMap String (List (ShapePoint F))) (count : ℕ)
      (tx : Tables F)
      → is_ok (insert_shapes accept_all conv sort order grouped count tx) ≡ true
  unfolding insert_shapes
  insert_shapes-ok [] grouped count tx = refl
  insert_shapes-ok (id ∷ order) grouped count tx = elim (Option-cases (lookup id grouped)) [
    | inl h ↦ ground (arith, insert_shapes-ok order grouped count tx)
    | inr (points, h) ↦
        let row : Row F = shape id (line_string conv (sort points)) in
        ground (
          arith,
          insert_shapes-ok order grouped count tx,
          insert_shapes-ok order grouped (count + 1) (insert_row shapes row tx),
        )
  ]

  import_shapes-ok :
      (order : List String) (f : Option CsvFile) (tx : Tables F)
      → is_ok (import_shapes accept_all conv sort order f tx) ≡ is_readable f
  unfolding import_shapes read_csv
  import_shapes-ok order none tx = refl
  import_shapes-ok order (some file) tx = elim (Option-cases file.header) [
    | inl h ↦ rw h refl
    | inr (header, h) ↦ elim (Bool-cases file.complete) [
      | inl c ↦ rw (h, c) (insert_shapes-ok order _ 0 tx)
      | inr c ↦ rw (h, c) refl
    ]
  ]

  -- The importer of a file succeeds exactly on readable entries.
  abbrev Reads : FileImporter accept_all conv sort → Type 0
  Reads imp = (f : Option CsvFile) (tx : Tables F) → is_ok (imp.fn f tx) ≡ is_readable f

  abbrev all_importable :
      List (FileImporter accept_all conv sort) → GoMap String (Option CsvFile) → Bool
  all_importable [] files = true
  all_importable (imp ∷ imps) files =
      is_importable imp.req imp.file files && all_importable imps files

  import_range-ok :
      (imps : List (FileImporter accept_all conv sort)) (files : GoMap String (Option CsvFile))
      (tx : Tables F)
      → All Reads imps
      → is_ok (import_range accept_all conv sort imps files tx) ≡ all_importable imps files
  unfolding import_range
  import_range-ok [] files tx h = refl
  import_range-ok (imp ∷ imps) files tx (reads, h) = elim (Option-cases (lookup imp.file files)) [
    | inl missing ↦ elim (Bool-cases imp.req) [
      | inl r ↦ ground arith
      | inr r ↦ ground (arith, import_range-ok imps files tx h)
    ]
    | inr (f, found) ↦ elim (Result-cases (imp.fn f tx)) [
      | inl (n, tx', e) ↦
          let good : is_readable f ≡ true = rw e at (sym (reads f tx)) in
          ground (arith, import_range-ok imps files tx' h)
      | inr (bad, e) ↦ let poor : is_readable f ≡ false = rw e at (sym (reads f tx)) in ground arith
    ]
  ]

  importers-Reads : (order : List String) → All Reads (importers accept_all conv sort order)
  unfolding importers
  importers-Reads order = (
    import_rows-ok _ _,
    (
      import_rows-ok _ _,
      (
        import_rows-ok _ _,
        (
          import_shapes-ok order,
          (
            import_rows-ok _ _,
            (import_rows-ok _ _, (import_rows-ok _ _, (import_rows-ok _ _, tt))),
          ),
        ),
      ),
    ),
  )

  delete_range-ok :
      (tables : List Table) (tx : Tables F)
      → is_ok (delete_range accept_all conv sort tables tx) ≡ true
  unfolding delete_range
  delete_range-ok [] tx = refl
  delete_range-ok (t ∷ tables) tx = delete_range-ok tables _

  -- The files that the importer knows, and whether each must be there.
  abbrev pub known_files : List (Bool × String)
  known_files =
      (true, "agency.txt")
      ∷ (true, "routes.txt")
      ∷ (true, "stops.txt")
      ∷ (false, "shapes.txt")
      ∷ (true, "trips.txt")
      ∷ (true, "stop_times.txt")
      ∷ (false, "calendar.txt")
      ∷ (false, "calendar_dates.txt")
      ∷ []

  abbrev pub are_importable : List (Bool × String) → GoMap String (Option CsvFile) → Bool
  are_importable [] files = true
  are_importable ((req, name) ∷ names) files =
      is_importable req name files && are_importable names files

  abbrev pub is_complete : Option (List (String × Option CsvFile)) → Bool
  is_complete none = false
  is_complete (some entries) =
      are_importable known_files (index_files accept_all conv sort entries empty)

  importers-ok :
      (order : List String) (files : GoMap String (Option CsvFile)) (tx : Tables F)
      → is_ok (import_range accept_all conv sort (importers accept_all conv sort order) files tx)
        ≡ are_importable known_files files
  unfolding importers
  importers-ok order files tx =
      import_range-ok (importers accept_all conv sort order) files tx (importers-Reads order)

  in_transaction-ok :
      (order : List String) (files : GoMap String (Option CsvFile)) (db : Tables F)
      → is_ok (in_transaction accept_all conv sort order files db)
        ≡ are_importable known_files files
  unfolding in_transaction
  in_transaction-ok order files db =
      elim (Result-cases
        (delete_range accept_all conv sort (cleared_tables accept_all conv sort) db)) [
          | inl (x, tx, h) ↦
              ap
                (λ r.
                  is_ok {F = F} {E = ImportError} {A = Unit}
                    (elim r as (λ s. Result F ImportError Unit) [
                      | err e ↦ err e
                      | ok u tx' ↦
                          import_range accept_all conv sort (importers accept_all conv sort order)
                            files tx'
                    ]))
                h
              ∙ importers-ok order files tx
          | inr (bad, h) ↦
              absurd (ground (arith, delete_range-ok (cleared_tables accept_all conv sort) db))
        ]

  -- Where the database accepts every statement, an import succeeds exactly if the archive opens, its
  -- five required files are there, and each of the eight files that is there opens, has a header and
  -- can be read to its end.
  pub import-succeeds :
      (order : List String) (zip : Option (List (String × Option CsvFile))) (db : Tables F)
      → ((import accept_all conv sort order zip db).1 ≡ none) ↔ (is_complete zip ≡ true)
  unfolding import
  import-succeeds order none db = (λ e. ground arith, λ e. ground arith)
  import-succeeds order (some entries) db =
      let files = index_files accept_all conv sort entries empty in
      let answer = in_transaction-ok order files db in
      elim (Result-cases (in_transaction accept_all conv sort order files db)) [
        | inl (x, tx, h) ↦ (λ e. sym (rw h at answer), λ e. rw h refl)
        | inr (bad, h) ↦ (λ e. absurd (ground arith), λ e. absurd (ground arith))
      ]
