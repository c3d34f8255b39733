-- ===== src/Gtfs/Importer/Deletions.antt =====
-- The order of the deletions, under the foreign keys of the schema
-- (internal/store/migrations/001_gtfs_schema.sql).
use public_transport_tracker.Base.{
  string_eq, nat_eq, ◌≡◌, ◌≢◌, refl, true, Option, none, some, List, [], ◌∷◌, String, All, arith,
  Bool-cases, Option-cases, inl, inr,
}
use public_transport_tracker.GoMap.{GoMap, empty, lookup}
use public_transport_tracker.Gtfs.{
  table_eq, Table, Tables, Database, begin, delete_from, delete_all,
}
use public_transport_tracker.Gtfs.Csv.{CsvFile}
use public_transport_tracker.Gtfs.Rows.{Conversions}
use public_transport_tracker.Gtfs.Shapes.{ShapePoint}
use public_transport_tracker.Gtfs.Schema.{referring}
use public_transport_tracker.Gtfs.Importer.{
  truncate_failed, ok, err, FileImporter, importers, import_range, index_files, cleared_tables,
  delete_range, in_transaction, import,
}
use public_transport_tracker.Gtfs.Importer.Loops.{Result-cases}

-- The database deletes the rows of a table that no other row refers to.
abbrev pub DeletesUnreferenced : {F : Type 0} → Database F → Type 0
DeletesUnreferenced {F} accepts =
    (t : Table) (db : Tables F)
    → All (λ u. db u ≡ []) (referring t)
    → accepts (delete_from t) db ≡ true

module _ {F : Type 0} (accepts : Database F) (conv : Conversions F)
    (sort : List (ShapePoint F) → List (ShapePoint F)) (deletes : DeletesUnreferenced accepts) where
  -- When the turn of a table comes, the tables that refer to it are empty.
  abbrev Ready : List Table → Tables F → Type 0
  Ready [] db = Unit
  Ready (t ∷ tables) db = All (λ u. db u ≡ []) (referring t) × Ready tables (delete_all t db)

  delete_range-Ready :
      (tables : List Table) (db : Tables F)
      → Ready tables db
      → (tx : Tables F) × (delete_range accepts conv sort tables db ≡ ok tt tx)
  unfolding delete_range
  delete_range-Ready [] db ready = (db, refl)
  delete_range-Ready (t ∷ tables) db (here, later) =
      let (tx, e) = delete_range-Ready tables (delete_all t db) later in
      (tx, ground (arith, deletes t db here, e))

  cleared_tables-Ready : (db : Tables F) → Ready (cleared_tables accepts conv sort) db
  cleared_tables-Ready db = ground arith

  pub delete_range_clears :
      (db : Tables F)
      → (tx : Tables F) × (delete_range accepts conv sort (cleared_tables accepts conv sort) db
          ≡ ok tt tx)
  delete_range_clears db =
      delete_range-Ready (cleared_tables accepts conv sort) db (cleared_tables-Ready db)

  import_range-ne-truncate_failed :
      (imps : List (FileImporter accepts conv sort)) (files : GoMap String (Option CsvFile))
      (tx : Tables F) (t : Table)
      → import_range accepts conv sort imps files tx ≢ err (truncate_failed t)
  unfolding import_range
  import_range-ne-truncate_failed [] files tx t e = ground arith
  import_range-ne-truncate_failed (imp ∷ imps) files tx t e =
      elim (Option-cases (lookup imp.file files)) [
        | inl missing ↦ elim (Bool-cases imp.req) [
          | inl r ↦ ground arith
          | inr r ↦ import_range-ne-truncate_failed imps files tx t (ground arith)
        ]
        | inr (f, found) ↦ elim (Result-cases (imp.fn f tx)) [
          | inl (n, tx', h) ↦ import_range-ne-truncate_failed imps files tx' t (ground arith)
          | inr (bad, h) ↦ ground arith
        ]
      ]

  -- The tables are cleared in such an order that under the foreign keys of the schema no deletion
  -- fails, whatever the database holds and whatever the archive says.
  pub import-ne-truncate_failed :
      (order : List String) (zip : Option (List (String × Option CsvFile))) (db : Tables F)
      (t : Table)
      → (import accepts conv sort order zip db).1 ≢ some (truncate_failed t)
  unfolding import in_transaction
  import-ne-truncate_failed order none db t e = ground arith
  import-ne-truncate_failed order (some entries) db t e =
      let files = index_files accepts conv sort entries empty in
      let (tx, cleared) = delete_range_clears db in
      elim (Bool-cases (accepts begin db)) [
        | inr b ↦ ground arith
        | inl b ↦
            elim (Result-cases
              (import_range accepts conv sort (importers accepts conv sort order) files tx)) [
                | inl (x, tx', h) ↦ ground arith
                | inr (bad, h) ↦
                    import_range-ne-truncate_failed (importers accepts conv sort order) files tx t
                      (ground arith)
              ]
      ]
