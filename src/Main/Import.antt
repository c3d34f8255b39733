-- ===== src/Main/Import.antt =====
-- The command `import` of cmd/tracker/main.go: what is left in the database and of the connection.
use public_transport_tracker.Base.{
  string_eq, ◌≡◌, ◌⊎◌, refl, true, false, Option, none, some, List, ◌∷◌, String, inl, inr, ◌==◌,
  is_some, arith,
}
use public_transport_tracker.GoMap.{empty}
use public_transport_tracker.Gtfs.{Table, Tables}
use public_transport_tracker.Gtfs.Csv.{CsvFile}
use public_transport_tracker.Gtfs.Rows.{Conversions}
use public_transport_tracker.Gtfs.Shapes.{ShapePoint}
use public_transport_tracker.Gtfs.Shapes.Group.{IsSorting}
use public_transport_tracker.Gtfs.Importer.{index_files}
use public_transport_tracker.Gtfs.Importer.Import.{table_rows, import_lem}
use public_transport_tracker.Store.Migrate.{migrate}
use public_transport_tracker.Store.Open.{World, new_store, close_store}
use public_transport_tracker.Flags.{parsed}
use public_transport_tracker.Main.{
  parse_import, Host, CommandError, exited, env_or, default_dsn, with_store, after_migrate,
  import_archive_at, run_import, main,
}

module _ {F : Type 0} (host : Host F) where
  -- A command either fails to connect and changes nothing, or does to the tables what its body does;
  -- either way it closes what it opens.
  pub with_store_lem :
      (dsn : String) (body : Tables F → Tables F × Option CommandError) (w : World (Tables F))
      → let (w', error) = with_store host dsn body w in
        (w'.pools ≡ w.pools)
        × (((w'.db ≡ w.db) × (is_some error ≡ true))
            ⊎ ((w'.db ≡ (body w.db).0) × (error ≡ (body w.db).1)))
  unfolding with_store new_store close_store
  with_store_lem dsn body w = ground arith

  pub after_migrate_lem :
      (body : Tables F → Tables F × Option CommandError) (db : Tables F)
      → let migrated = (migrate host.exec host.migrations db).0 in
        let (db', error) = after_migrate host body db in
        ((db' ≡ migrated) × (is_some error ≡ true))
        ⊎ ((db' ≡ (body migrated).0) × (error ≡ (body migrated).1))
  unfolding after_migrate
  after_migrate_lem body db = ground arith

  module _ (conv : Conversions F) (sort : List (ShapePoint F) → List (ShapePoint F))
      (sorts : IsSorting sort) (gtfs_path : String) where
    -- The tables hold what the archive at the path says.
    abbrev pub HoldsArchive : Tables F → Type 0
    HoldsArchive db =
        (entries : List (String × Option CsvFile)) × (host.open_zip gtfs_path ≡ some entries)
        × ((t : Table)
            → db t
              ≡ table_rows host.accepts conv sort sorts host.order
                  (index_files host.accepts conv sort entries empty) t)

    import_archive_at_lem :
        (db : Tables F)
        → let (db', error) = import_archive_at host conv sort gtfs_path db in
          ((error ≡ none) × HoldsArchive db') ⊎ ((is_some error ≡ true) × (db' ≡ db))
    unfolding import_archive_at
    import_archive_at_lem db =
        elim (import_lem host.accepts conv sort sorts host.order (host.open_zip gtfs_path) db) [
          | inl (e, holds) ↦ inl (ground arith, holds)
          | inr (e, same) ↦ inr (ground arith, same)
        ]

    -- What an import returns, and what it leaves.
    abbrev pub IsImported : World (Tables F) → World (Tables F) × Option CommandError → Type 0
    IsImported w (w', error) =
        (w'.pools ≡ w.pools)
        × (((error ≡ none) × HoldsArchive w'.db)
            ⊎ ((is_some error ≡ true)
                × ((w'.db ≡ w.db) ⊎ (w'.db ≡ (migrate host.exec host.migrations w.db).0))))

    run_import_lem :
        (dsn : String) (w : World (Tables F))
        → IsImported w (run_import host conv sort dsn gtfs_path w)
    unfolding run_import
    run_import_lem dsn w =
        let body = import_archive_at host conv sort gtfs_path in
        let migrated = (migrate host.exec host.migrations w.db).0 in
        let (closes, outcome) = with_store_lem dsn (after_migrate host body) w in
        (
          closes,
          elim outcome [
            | inl (same, failed) ↦ inr (failed, inl same)
            | inr (db_eq, error_eq) ↦ elim (after_migrate_lem body w.db) [
              | inl (stays, failed) ↦ inr (rw error_eq failed, inr (rw db_eq stays))
              | inr (db_eq', error_eq') ↦ elim (import_archive_at_lem migrated) [
                | inl (done, holds) ↦ inl (rw (error_eq, error_eq') done, rw (db_eq, db_eq') holds)
                | inr (failed, stays) ↦
                    inr (rw (error_eq, error_eq') failed, inr (rw (db_eq, db_eq') stays))
              ]
            ]
          ],
        )

    -- The command `import` with a path, whatever fails on the way: all pools of connections that it
    -- opens are closed; either it exits with 0 and the eight tables hold exactly the rows of the
    -- archive, whatever they held before, or it exits with 1 and the tables are as before, or as the
    -- scripts of the migration left them.
    pub main-import :
        (args : List String) (w : World (Tables F))
        → parse_import host args ≡ parsed gtfs_path
        → (gtfs_path == "") ≡ false
        → let (w', status) = main host conv sort ("import" ∷ args) w in
          (w'.pools ≡ w.pools)
          × (((status ≡ exited 0) × HoldsArchive w'.db)
              ⊎ ((status ≡ exited 1)
                  × ((w'.db ≡ w.db) ⊎ (w'.db ≡ (migrate host.exec host.migrations w.db).0))))
    unfolding main
    main-import args w parses named =
        let (closes, outcome) = run_import_lem (env_or host "DATABASE_URL" default_dsn) w in
        rw (parses, named)
          (
            closes,
            elim outcome [
              | inl (done, holds) ↦ inl (rw done refl, holds)
              | inr (failed, left) ↦ inr (ground arith, left)
            ],
          )
