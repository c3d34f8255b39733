-- ===== src/Gtfs/Importer/Import.antt =====
-- What an import leaves in the database.
use public_transport_tracker.Base.{
  string_eq, nat_eq, ◌≡◌, refl, ap, ◌∙◌, Bool, true, Option, none, some, List, [], ◌∷◌, ◌++◌,
  String, ◌==◌, arith, append-nil, append_assoc, Bool-cases, Option-cases, inl, inr, is_some, ◌⊎◌,
}
use public_transport_tracker.GoMap.{GoMap, empty, lookup}
use public_transport_tracker.Gtfs.{
  table_eq, Table, agencies, routes, stops, shapes, trips, stop_times, calendar, calendar_dates,
  Row, Tables, Database, begin, commit,
}
use public_transport_tracker.Gtfs.Csv.{CsvFile}
use public_transport_tracker.Gtfs.Rows.{
  Conversions, agency_row, route_row, stop_row, trip_row, stop_time_row, service_row,
  service_date_row,
}
use public_transport_tracker.Gtfs.Shapes.{ShapePoint}
use public_transport_tracker.Gtfs.Shapes.Group.{IsSorting}
use public_transport_tracker.Gtfs.Importer.{
  ok, FileImporter, importers, import_rows, import_range, index_files, cleared_tables, delete_range,
  in_transaction, import,
}
use public_transport_tracker.Gtfs.Importer.Loops.{
  Result-cases, rows_for, Adds, file_rows, import_rows-Adds,
}
use public_transport_tracker.Gtfs.Importer.Cleared.{delete_range-cleared}
use public_transport_tracker.Gtfs.Importer.Lines.{shape_rows, file_points, import_shapes-Adds}

module _ {F : Type 0} (accepts : Database F) (conv : Conversions F)
    (sort : List (ShapePoint F) → List (ShapePoint F)) (sorts : IsSorting sort) where
  -- Which rows a file of the archive has for which table.
  pub record FileRows : Type 0 where
    pub table : Table
    pub rows : Option (Option CsvFile) → List (Row F)

  pub record Covers (imp : FileImporter accepts conv sort) (spec : FileRows) : Type 0 where
    pub absent : spec.rows none ≡ []
    pub adds :
        (entry : Option CsvFile) (tx : Tables F)
        → Adds spec.table (spec.rows (some entry)) tx (imp.fn entry tx)

  abbrev pub AllCover : List (FileImporter accepts conv sort) → List FileRows → Type 0
  AllCover [] specs = specs ≡ []
  AllCover (imp ∷ imps) [] = ⊥
  AllCover (imp ∷ imps) (spec ∷ specs) = Covers imp spec × AllCover imps specs

  -- The rows that the files have for a table.
  abbrev rows_to :
      Table
      → List (FileImporter accepts conv sort)
      → List FileRows
      → GoMap String (Option CsvFile)
      → List (Row F)
  rows_to u (imp ∷ imps) (spec ∷ specs) files =
      rows_for spec.table u (spec.rows (lookup imp.file files)) ++ rows_to u imps specs files
  rows_to u _ _ files = []

  pub rows_for-nil : (t u : Table) → rows_for {F = F} t u [] ≡ []
  rows_for-nil t u = elim (Bool-cases (t == u)) [ inl e ↦ rw e refl | inr e ↦ rw e refl ]

  import_range_lem :
      (imps : List (FileImporter accepts conv sort)) (specs : List FileRows)
      (files : GoMap String (Option CsvFile)) (tx tx' : Tables F)
      → AllCover imps specs
      → import_range accepts conv sort imps files tx ≡ ok tt tx'
      → (u : Table) → tx' u ≡ tx u ++ rows_to u imps specs files
  unfolding import_range
  import_range_lem [] specs files tx tx' h e u =
      let same : tx' ≡ tx = ground arith in rw (same, append-nil) refl
  import_range_lem (imp ∷ imps) [] files tx tx' h e u = absurd h
  import_range_lem (imp ∷ imps) (spec ∷ specs) files tx tx' (covers, h) e u =
      elim (Option-cases (lookup imp.file files)) [
        | inl missing ↦
            rw (missing, covers.absent, rows_for-nil spec.table u)
              (import_range_lem imps specs files tx tx' h (ground arith) u)
        | inr (f, found) ↦ elim (Result-cases (imp.fn f tx)) [
          | inl (n, tx1, h1) ↦ rw found (
              import_range_lem imps specs files tx1 tx' h (ground arith) u
              ∙ ap (λ l. l ++ rows_to u imps specs files) (covers.adds f tx n tx1 h1 u)
              ∙ append_assoc (tx u) (rows_for spec.table u (spec.rows (some f)))
                  (rows_to u imps specs files))
          | inr (bad, h1) ↦ absurd (ground arith)
        ]
      ]

  abbrev pub file_specs : List String → List FileRows
  file_specs order =
      record { table = agencies; rows = file_rows (agency_row conv) }
      ∷ record { table = routes; rows = file_rows (route_row conv) }
      ∷ record { table = stops; rows = file_rows (stop_row conv) }
      ∷ record {
        table = shapes;
        rows = λ entry.
            shape_rows accepts conv sort sorts order (file_points accepts conv sort sorts entry);
      }
      ∷ record { table = trips; rows = file_rows (trip_row conv) }
      ∷ record { table = stop_times; rows = file_rows (stop_time_row conv) }
      ∷ record { table = calendar; rows = file_rows (service_row conv) }
      ∷ record { table = calendar_dates; rows = file_rows (service_date_row conv) }
      ∷ []

  shape_rows-nil : (order : List String) → shape_rows accepts conv sort sorts order (λ id. []) ≡ []
  shape_rows-nil [] = refl
  shape_rows-nil (id ∷ order) = shape_rows-nil order

  rows_Covers :
      (file : String) (t : Table) (to_row : List String → List String → Row F) (req : Bool)
      → Covers
          (record { file = file; fn = import_rows accepts t to_row; req = req })
          (record { table = t; rows = file_rows to_row })
  rows_Covers file t to_row req = record {
    absent = refl;
    adds = λ entry tx. import_rows-Adds accepts t to_row entry tx;
  }

  pub importers-AllCover :
      (order : List String) → AllCover (importers accepts conv sort order) (file_specs order)
  unfolding importers
  importers-AllCover order = (
    rows_Covers _ _ _ _,
    (
      rows_Covers _ _ _ _,
      (
        rows_Covers _ _ _ _,
        (
          record {
            absent = shape_rows-nil order;
            adds = λ entry tx. import_shapes-Adds accepts conv sort sorts order entry tx;
          },
          (
            rows_Covers _ _ _ _,
            (rows_Covers _ _ _ _, (rows_Covers _ _ _ _, (rows_Covers _ _ _ _, refl))),
          ),
        ),
      ),
    ),
  )

  -- What the archive's files say that each table holds.
  abbrev pub table_rows : List String → GoMap String (Option CsvFile) → Table → List (Row F)
  table_rows order files agencies = file_rows (agency_row conv) (lookup "agency.txt" files)
  table_rows order files routes = file_rows (route_row conv) (lookup "routes.txt" files)
  table_rows order files stops = file_rows (stop_row conv) (lookup "stops.txt" files)
  table_rows order files shapes =
      shape_rows accepts conv sort sorts order
        (file_points accepts conv sort sorts (lookup "shapes.txt" files))
  table_rows order files trips = file_rows (trip_row conv) (lookup "trips.txt" files)
  table_rows order files stop_times = file_rows (stop_time_row conv) (lookup "stop_times.txt" files)
  table_rows order files calendar = file_rows (service_row conv) (lookup "calendar.txt" files)
  table_rows order files calendar_dates =
      file_rows (service_date_row conv) (lookup "calendar_dates.txt" files)

  rows_to-table_rows :
      (order : List String) (files : GoMap String (Option CsvFile)) (u : Table)
      → rows_to u (importers accepts conv sort order) (file_specs order) files
        ≡ table_rows order files u
  unfolding importers
  rows_to-table_rows order files agencies = simp append-nil refl
  rows_to-table_rows order files routes = simp append-nil refl
  rows_to-table_rows order files stops = simp append-nil refl
  rows_to-table_rows order files shapes = simp append-nil refl
  rows_to-table_rows order files trips = simp append-nil refl
  rows_to-table_rows order files stop_times = simp append-nil refl
  rows_to-table_rows order files calendar = simp append-nil refl
  rows_to-table_rows order files calendar_dates = simp append-nil refl

  in_transaction_lem :
      (order : List String) (files : GoMap String (Option CsvFile)) (db tx : Tables F)
      → in_transaction accepts conv sort order files db ≡ ok tt tx
      → (u : Table) → tx u ≡ table_rows order files u
  unfolding in_transaction
  in_transaction_lem order files db tx e u =
      elim (Result-cases (delete_range accepts conv sort (cleared_tables accepts conv sort) db)) [
        | inl (x, tx1, h) ↦
            let empty_now : tx1 u ≡ [] = delete_range-cleared accepts conv sort db tx1 h u in
            import_range_lem (importers accepts conv sort order) (file_specs order) files tx1 tx
              (importers-AllCover order) (ground arith) u
            ∙ rw empty_now (rows_to-table_rows order files u)
        | inr (bad, h) ↦ absurd (ground arith)
      ]

  -- An import that returns no error leaves in each of the eight tables exactly the rows that the
  -- archive's file for it says, in the file's order (and those of the shapes in the order of the
  -- range), whatever the tables held before; an import that returns an error leaves the database as
  -- it was.
  pub import_lem :
      (order : List String) (zip : Option (List (String × Option CsvFile))) (db : Tables F)
      → let (db', error) = import accepts conv sort order zip db in
        ((error ≡ none)
          × ((entries : List (String × Option CsvFile)) × (zip ≡ some entries)
              × ((t : Table)
                  → db' t ≡ table_rows order (index_files accepts conv sort entries empty) t)))
        ⊎ ((is_some error ≡ true) × (db' ≡ db))
  unfolding import
  import_lem order none db = inr (refl, refl)
  import_lem order (some entries) db =
      let files = index_files accepts conv sort entries empty in
      elim (Bool-cases (accepts begin db)) [
        | inr b ↦ rw b (inr (refl, refl))
        | inl b ↦ elim (Result-cases (in_transaction accepts conv sort order files db)) [
          | inr (bad, h) ↦ rw (b, h) (inr (refl, refl))
          | inl (x, tx, h) ↦ elim (Bool-cases (accepts commit tx)) [
            | inl c ↦
                rw (b, h, c)
                  (inl (refl, (entries, refl, λ t. in_transaction_lem order files db tx h t)))
            | inr c ↦ rw (b, h, c) (inr (refl, refl))
          ]
        ]
      ]
