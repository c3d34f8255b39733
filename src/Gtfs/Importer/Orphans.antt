-- ===== src/Gtfs/Importer/Orphans.antt =====
-- Stops whose parent station is not there yet, under the constraint of the schema
-- (internal/store/migrations/001_gtfs_schema.sql) that a parent station is a stop.
use public_transport_tracker.Base.{
  string_eq, ℕ, ◌≡◌, refl, ◌∙◌, subst, Bool, true, false, Option, some, List, [], ◌∷◌, ◌++◌, String,
  ◌==◌, arith, not, ◌&&◌, ◌||◌, is_some, Bool-cases, Option-cases, inl, inr,
}
use public_transport_tracker.GoMap.{GoMap, empty, lookup}
use public_transport_tracker.Gtfs.{
  table_eq, Table, agencies, routes, stops, Row, stop, Tables, Database, Statement, insert,
}
use public_transport_tracker.Gtfs.Csv.{CsvFile, strip_bom, read_csv}
use public_transport_tracker.Gtfs.Rows.{Conversions, agency_row, route_row, stop_row}
use public_transport_tracker.Gtfs.Shapes.{ShapePoint}
use public_transport_tracker.Gtfs.Importer.{
  ok, FileImporter, importers, import_rows, import_range, insert_range, index_files, cleared_tables,
  delete_range, in_transaction, import,
}
use public_transport_tracker.Gtfs.Importer.Loops.{Result-cases, rows_for, import_rows-Adds}
use public_transport_tracker.Gtfs.Importer.Cleared.{delete_range-cleared}

module _ {F : Type 0} where
  abbrev pub has_stop : String → List (Row F) → Bool
  has_stop id [] = false
  has_stop id (stop i a b c d e g ∷ rows) = i == id || has_stop id rows
  has_stop id (_ ∷ rows) = has_stop id rows

  -- A stop that names a parent which is neither in the table nor the stop itself.
  abbrev pub is_orphan : Row F → List (Row F) → Bool
  is_orphan (stop id a b c (some parent) e g) rows =
      not (id == parent) && not (has_stop parent rows)
  is_orphan _ rows = false

  -- What the constraint says of the database.
  abbrev pub KnowsParents : Database F → Type 0
  KnowsParents accepts =
      (row : Row F) (db : Tables F)
      → is_orphan row (db stops) ≡ true
      → accepts (insert stops row) db ≡ false

  module _ (accepts : Database F) (conv : Conversions F)
      (sort : List (ShapePoint F) → List (ShapePoint F)) where
    -- An importer that has run, and the rest of the loop.
    import_range_found :
        (imp : FileImporter accepts conv sort) (imps : List (FileImporter accepts conv sort))
        (files : GoMap String (Option CsvFile)) (tx tx' : Tables F)
        → imp.req ≡ true
        → import_range accepts conv sort (imp ∷ imps) files tx ≡ ok tt tx'
        → (f : Option CsvFile) × (n : ℕ) × (tx1 : Tables F) × (lookup imp.file files ≡ some f)
          × (imp.fn f tx ≡ ok n tx1)
          × (import_range accepts conv sort imps files tx1 ≡ ok tt tx')
    unfolding import_range
    import_range_found imp imps files tx tx' req e = elim (Option-cases (lookup imp.file files)) [
      | inl missing ↦ absurd (ground arith)
      | inr (f, found) ↦ elim (Result-cases (imp.fn f tx)) [
        | inl (n, tx1, h) ↦ (f, n, tx1, found, h, ground arith)
        | inr (bad, h) ↦ absurd (ground arith)
      ]
    ]

    -- The first row of a file was accepted, on the tables before it.
    import_rows_first :
        (t : Table) (to_row : List String → List String → Row F) (header record' : List String)
        (rows : List (List String)) (complete : Bool) (n : ℕ) (tx tx' : Tables F)
        → import_rows accepts t to_row
            (some (record { header = some header; rows = record' ∷ rows; complete = complete }))
            tx
          ≡ ok n tx'
        → accepts (insert t (to_row (strip_bom header) record')) tx ≡ true
    unfolding import_rows insert_range read_csv
    import_rows_first t to_row header record' rows complete n tx tx' e = ground arith

    no_rows_for :
        (t : Table) (rows : List (Row F)) (tx tx' : Tables F)
        → t == stops ≡ false
        → ((u : Table) → tx' u ≡ tx u ++ rows_for t u rows)
        → tx stops ≡ []
        → tx' stops ≡ []
    no_rows_for t rows tx tx' other adds none_yet = adds stops ∙ rw (none_yet, other) refl

    -- The import has accepted the first stop of the file while the table of stops was empty.
    first_stop_accepted :
        (order : List String) (files : GoMap String (Option CsvFile)) (db tx : Tables F)
        (header record' : List String) (rows : List (List String)) (complete : Bool)
        → lookup "stops.txt" files
          ≡ some
              (some (record { header = some header; rows = record' ∷ rows; complete = complete }))
        → in_transaction accepts conv sort order files db ≡ ok tt tx
        → (before : Tables F) × (before stops ≡ [])
          × (accepts (insert stops (stop_row conv (strip_bom header) record')) before ≡ true)
    unfolding in_transaction importers
    first_stop_accepted order files db tx header record' rows complete file e =
        elim (Result-cases (delete_range accepts conv sort (cleared_tables accepts conv sort) db)) [
          | inr (bad, h) ↦ absurd (ground arith)
          | inl (x, tx0, h) ↦
              let start : import_range accepts conv sort (importers accepts conv sort order) files
                    tx0
                  ≡ ok tt tx =
                ground arith in
              let (f1, n1, tx1, l1, i1, e1) = import_range_found _ _ files tx0 tx refl start in
              let (f2, n2, tx2, l2, i2, e2) = import_range_found _ _ files tx1 tx refl e1 in
              let (f3, n3, tx3, l3, i3, e3) = import_range_found _ _ files tx2 tx refl e2 in
              let none0 : tx0 stops ≡ [] = delete_range-cleared accepts conv sort db tx0 h stops in
              let none1 : tx1 stops ≡ [] =
                no_rows_for agencies _ tx0 tx1 refl
                  (import_rows-Adds accepts agencies (agency_row conv) f1 tx0 n1 tx1 i1) none0 in
              let none2 : tx2 stops ≡ [] =
                no_rows_for routes _ tx1 tx2 refl
                  (import_rows-Adds accepts routes (route_row conv) f2 tx1 n2 tx2 i2) none1 in
              let entry : Option CsvFile =
                some
                  (record { header = some header; rows = record' ∷ rows; complete = complete }) in
              let same : f3 ≡ entry = ground arith in
              (
                tx2,
                none2,
                import_rows_first stops (stop_row conv) header record' rows complete n3 tx2 tx3 (
                    subst (λ g. import_rows accepts stops (stop_row conv) g tx2 ≡ ok n3 tx3) same
                      i3),
              )
        ]

    -- Under the constraint of the schema that a parent station is a stop, an archive whose first stop
    -- names another stop as its parent is not imported, also where that stop follows in the file.
    pub import-orphan_first :
        KnowsParents accepts
        → (order : List String) (entries : List (String × Option CsvFile)) (db : Tables F)
          (header record' : List String) (rows : List (List String)) (complete : Bool)
        → lookup "stops.txt" (index_files accepts conv sort entries empty)
          ≡ some
              (some (record { header = some header; rows = record' ∷ rows; complete = complete }))
        → is_orphan (stop_row conv (strip_bom header) record') [] ≡ true
        → let (db', error) = import accepts conv sort order (some entries) db in
          (is_some error ≡ true) × (db' ≡ db)
    unfolding import
    import-orphan_first knows order entries db header record' rows complete file orphan =
        let files = index_files accepts conv sort entries empty in
        elim (Bool-cases (accepts Statement.begin db)) [
          | inr b ↦ rw b (refl, refl)
          | inl b ↦ elim (Result-cases (in_transaction accepts conv sort order files db)) [
            | inr (bad, h) ↦ rw (b, h) (refl, refl)
            | inl (x, tx, h) ↦
                let (before, none_yet, accepted) =
                  first_stop_accepted order files db tx header record' rows complete file h in
                let alone : is_orphan (stop_row conv (strip_bom header) record') (before stops)
                    ≡ true =
                  rw none_yet orphan in
                let refused = knows (stop_row conv (strip_bom header) record') before alone in
                absurd (ground arith)
          ]
        ]
