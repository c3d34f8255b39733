-- ===== src/Gtfs/Importer.antt =====
-- internal/gtfs/importer.go: the loops over the records of a file, and the transaction of `Import`.
pub mod Loops
pub mod Lines
pub mod Cleared
pub mod Deletions
pub mod Inserts
pub mod Chain
pub mod Integrity
pub mod Import
pub mod ShapeTable
pub mod Success
pub mod Orphans
use public_transport_tracker.Base.{
  string_eq, ℕ, zero, suc, ◌+◌, Bool, true, false, Option, none, some, List, [], ◌∷◌, String,
  if◌then◌else◌, ltb, length,
}
use public_transport_tracker.GoMap.{GoMap, empty, lookup, assign}
use public_transport_tracker.Gtfs.{
  Table, agencies, routes, stops, shapes, trips, stop_times, calendar, calendar_dates, Row, Tables,
  Statement, begin, commit, delete_from, prepare, insert, Database, delete_all, insert_row, shape,
}
use public_transport_tracker.Gtfs.Csv.{CsvFile, CsvError, ReadCsv, opened, failed, read_csv}
use public_transport_tracker.Gtfs.Rows.{
  Conversions, agency_row, route_row, stop_row, trip_row, stop_time_row, service_row,
  service_date_row,
}
use public_transport_tracker.Gtfs.Shapes.{ShapePoint, group_range, line_string}

-- The errors of the import of one file.
pub data FileError : Type 0 where
  csv : CsvError → FileError
  prepare_failed insert_failed : Table → FileError
  -- the number of the record
  read_failed : ℕ → FileError

-- The errors of `Import`.
pub data ImportError : Type 0 where
  open_zip begin_failed commit_failed : ImportError
  truncate_failed : Table → ImportError
  required_missing : String → ImportError
  import_failed : String → FileError → ImportError

-- What the functions of the importer return: a value and the transaction's tables, or an error.
pub data Result (F E A : Type 0) : Type 0 where
  ok : A → Tables F → Result F E A
  err : E → Result F E A

module _ {F : Type 0} (accepts : Database F) where
  -- The loop over the records of a file; `count` records have been inserted.
  unfoldable pub insert_range :
      Table
      → (List String → Row F)
      → List (List String)
      → Bool
      → ℕ
      → Tables F
      → Result F FileError ℕ
  insert_range t to_row [] complete count tx =
      if complete then ok count tx else err (read_failed (count + 1))
  insert_range t to_row (record' ∷ rows) complete count tx =
      let row = to_row record' in
      let rest = insert_range t to_row rows complete (count + 1) (insert_row t row tx) in
      if accepts (insert t row) tx then rest else err (insert_failed t)

  unfoldable pub import_rows :
      Table → (List String → List String → Row F) → Option CsvFile → Tables F → Result F FileError ℕ
  import_rows t to_row entry tx = elim (read_csv entry) [
    | failed e ↦ err (csv e)
    | opened header file ↦
        if accepts (prepare t) tx
        then insert_range t (to_row header) file.rows file.complete 0 tx
        else err (prepare_failed t)
  ]

  module _ (conv : Conversions F) (sort : List (ShapePoint F) → List (ShapePoint F)) where
    -- The range over the grouped shapes, in the order of its visits.
    unfoldable pub insert_shapes :
        List String → GoMap String (List (ShapePoint F)) → ℕ → Tables F → Result F FileError ℕ
    insert_shapes [] grouped count tx = ok count tx
    insert_shapes (id ∷ order) grouped count tx = elim (lookup id grouped) [
      | none ↦ insert_shapes order grouped count tx
      | some points ↦
          let sorted = sort points in
          let row = shape id (line_string conv sorted) in
          let skipped = insert_shapes order grouped count tx in
          let inserted = insert_shapes order grouped (count + 1) (insert_row shapes row tx) in
          if ltb (length sorted) 2
          then skipped
          else if accepts (insert shapes row) tx
          then inserted
          else err (insert_failed shapes)
    ]

    unfoldable pub import_shapes : List String → Option CsvFile → Tables F → Result F FileError ℕ
    import_shapes order entry tx = elim (read_csv entry) [
      | failed e ↦ err (csv e)
      | opened header file ↦
          if file.complete
          then if accepts (prepare shapes) tx
            then insert_shapes order (group_range conv header file.rows empty) 0 tx
            else err (prepare_failed shapes)
          else err (read_failed 0)
    ]

    pub record FileImporter : Type 0 where
      pub file : String
      pub fn : Option CsvFile → Tables F → Result F FileError ℕ
      pub req : Bool

    -- The importers of the files with a row for each record.
    abbrev pub import_agencies : Option CsvFile → Tables F → Result F FileError ℕ
    import_agencies = import_rows agencies (agency_row conv)

    abbrev pub import_routes : Option CsvFile → Tables F → Result F FileError ℕ
    import_routes = import_rows routes (route_row conv)

    abbrev pub import_stops : Option CsvFile → Tables F → Result F FileError ℕ
    import_stops = import_rows stops (stop_row conv)

    abbrev pub import_trips : Option CsvFile → Tables F → Result F FileError ℕ
    import_trips = import_rows trips (trip_row conv)

    abbrev pub import_stop_times : Option CsvFile → Tables F → Result F FileError ℕ
    import_stop_times = import_rows stop_times (stop_time_row conv)

    abbrev pub import_calendar : Option CsvFile → Tables F → Result F FileError ℕ
    import_calendar = import_rows calendar (service_row conv)

    abbrev pub import_calendar_dates : Option CsvFile → Tables F → Result F FileError ℕ
    import_calendar_dates = import_rows calendar_dates (service_date_row conv)

    unfoldable pub importers : List String → List FileImporter
    importers order =
        record { file = "agency.txt"; fn = import_agencies; req = true }
        ∷ record { file = "routes.txt"; fn = import_routes; req = true }
        ∷ record { file = "stops.txt"; fn = import_stops; req = true }
        ∷ record { file = "shapes.txt"; fn = import_shapes order; req = false }
        ∷ record { file = "trips.txt"; fn = import_trips; req = true }
        ∷ record { file = "stop_times.txt"; fn = import_stop_times; req = true }
        ∷ record { file = "calendar.txt"; fn = import_calendar; req = false }
        ∷ record { file = "calendar_dates.txt"; fn = import_calendar_dates; req = false }
        ∷ []

    -- The loop over the importers.
    unfoldable pub import_range :
        List FileImporter
        → GoMap String (Option CsvFile)
        → Tables F
        → Result F ImportError (Unit {0})
    import_range [] files tx = ok tt tx
    import_range (imp ∷ rest) files tx = elim (lookup imp.file files) [
      | none ↦
          let later = import_range rest files tx in
          if imp.req then err (required_missing imp.file) else later
      | some f ↦ elim (imp.fn f tx) [
        | err e ↦ err (import_failed imp.file e)
        | ok count tx' ↦ import_range rest files tx'
      ]
    ]

    -- The archive's entries by name; a later entry of the same name replaces an earlier one.
    unfoldable pub index_files :
        List (String × Option CsvFile)
        → GoMap String (Option CsvFile)
        → GoMap String (Option CsvFile)
    index_files [] files = files
    index_files ((name, f) ∷ entries) files = index_files entries (assign name f files)

    -- The tables in reverse order of dependency.
    abbrev pub cleared_tables : List Table
    cleared_tables =
        stop_times ∷ calendar_dates ∷ calendar ∷ trips ∷ shapes ∷ stops ∷ routes ∷ agencies ∷ []

    unfoldable pub delete_range : List Table → Tables F → Result F ImportError (Unit {0})
    delete_range [] tx = ok tt tx
    delete_range (t ∷ tables) tx =
        let rest = delete_range tables (delete_all t tx) in
        if accepts (delete_from t) tx then rest else err (truncate_failed t)

    -- What happens between `BeginTx` and `Commit`.
    unfoldable pub in_transaction :
        List String → GoMap String (Option CsvFile) → Tables F → Result F ImportError (Unit {0})
    in_transaction order files tx = elim (delete_range cleared_tables tx) [
      | err e ↦ err e
      | ok u tx' ↦ import_range (importers order) files tx'
    ]

    -- The database afterwards, and the error. Without a commit the deferred rollback leaves the
    -- database as it was. The archive is `none` where it cannot be opened.
    unfoldable pub import :
        List String
        → Option (List (String × Option CsvFile))
        → Tables F
        → Tables F × Option ImportError
    import order none db = (db, some open_zip)
    import order (some entries) db =
        if accepts begin db
        then elim (in_transaction order (index_files entries empty) db) [
          | err e ↦ (db, some e)
          | ok u tx ↦ if accepts commit tx then (tx, none) else (db, some commit_failed)
        ]
        else (db, some begin_failed)
