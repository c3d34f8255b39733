-- ===== src/Main/Served.antt =====
-- The whole way of the data: the command `import` of cmd/tracker/main.go, and a server over the database
-- that it leaves.
use public_transport_tracker.Base.{
  string_eq, ◌≡◌, sym, ap, ◌∙◌, subst, Bool, true, Option, none, some, List, ◌∷◌, String, inl, inr,
  ◌==◌, arith, Bool-cases, Option-cases,
}
use public_transport_tracker.Gtfs.{Tables}
use public_transport_tracker.Gtfs.Csv.{CsvFile}
use public_transport_tracker.Gtfs.Rows.{Conversions}
use public_transport_tracker.Gtfs.Shapes.{ShapePoint}
use public_transport_tracker.Gtfs.Shapes.Group.{IsSorting}
use public_transport_tracker.Gtfs.Schema.{schema}
use public_transport_tracker.Gtfs.Importer
use public_transport_tracker.Store.Migrate.{migrate}
use public_transport_tracker.Store.Open.{World}
use public_transport_tracker.Flags.{parsed}
use public_transport_tracker.Api.Split.{Bytes}
use public_transport_tracker.Api.Mux.{Request, allows}
use public_transport_tracker.Api.Handlers.{Codec}
use public_transport_tracker.Api.Server.{new_server, serve_http}
use public_transport_tracker.Store.{Sql}
use public_transport_tracker.Store.Answers.{Value, store_of}
use public_transport_tracker.Store.Select.Stops.{PostGis}
use public_transport_tracker.Store.Imported.Contents.{archive_rows}
use public_transport_tracker.Store.Imported.Service.{
  Question, path_of, is_proper, Replies, setting_of, HoldsAll,
}
use public_transport_tracker.Store.Imported.Requests.{serve_http-Replies}
use public_transport_tracker.Main.Import.{with_store_lem, after_migrate_lem}
use public_transport_tracker.Main.{
  parse_import, Host, exited, env_or, default_dsn, after_migrate, import_archive_at, run_import,
  main,
}

module _ {F : Type 0} (host : Host F) (conv : Conversions F)
    (sort : List (ShapePoint F) → List (ShapePoint F)) (gtfs_path : String) where
  -- What `Import` makes of the database behind the migration.
  abbrev imported : World (Tables F) → Tables F × Option Importer.ImportError
  imported w =
      Importer.import host.accepts conv sort host.order (host.open_zip gtfs_path)
        (migrate host.exec host.migrations w.db).0

  run_import-imported :
      (dsn : String) (w : World (Tables F))
      → (run_import host conv sort dsn gtfs_path w).1 ≡ none
      → ((imported w).1 ≡ none)
        × ((run_import host conv sort dsn gtfs_path w).0.db ≡ (imported w).0)
  unfolding run_import import_archive_at
  run_import-imported dsn w h =
      let body = import_archive_at host conv sort gtfs_path in
      let migrated = (migrate host.exec host.migrations w.db).0 in
      let (closes, outcome) = with_store_lem host dsn (after_migrate host body) w in
      elim outcome [
        | inl (same, failed) ↦ absurd (ground arith)
        | inr (db_eq, error_eq) ↦ elim (after_migrate_lem host body w.db) [
          | inl (stays, failed) ↦ absurd (ground arith)
          | inr (db_eq', error_eq') ↦ elim (Option-cases (imported w).1) [
            | inl e ↦ (e, db_eq ∙ db_eq')
            | inr (failed, e) ↦ absurd (ground arith)
          ]
        ]
      ]

  -- An import that exits with 0 has opened the archive and put it into the database.
  main-imported :
      (args : List String) (w : World (Tables F))
      → parse_import host args ≡ parsed gtfs_path
      → (main host conv sort ("import" ∷ args) w).1 ≡ exited 0
      → (entries : List (String × Option CsvFile)) × (host.open_zip gtfs_path ≡ some entries)
        × ((imported w).1 ≡ none)
        × ((main host conv sort ("import" ∷ args) w).0.db ≡ (imported w).0)
  unfolding main
  main-imported args w parses h =
      let dsn = env_or host "DATABASE_URL" default_dsn in
      elim (Bool-cases (gtfs_path == "")) [
        | inl unnamed ↦ absurd (ground arith)
        | inr named ↦ elim (Option-cases (run_import host conv sort dsn gtfs_path w).1) [
          | inr (failed, e) ↦ absurd (ground arith)
          | inl e ↦
              let (done, same) = run_import-imported dsn w e in
              elim (Option-cases (host.open_zip gtfs_path)) [
                | inl closed ↦ absurd (unfold Importer.import in ground arith)
                | inr (entries, opened) ↦ (entries, opened, done, rw (parses, named) same)
              ]
        ]
      ]

  module _ (sorts : IsSorting sort) (codec : Codec F (Value F)) (decode : Bytes → String)
      (encode bytes_of : String → Bytes) (gis : PostGis F) (as_geo_json : String → String)
      (takes : String → Bool) (text_before : String → String → Bool) (sql : Sql F)
      (query : String → Bytes) (vehicles : Option (Value F)) (hub : Bool) (addr : String) where
    -- If the command `import` exits with 0, over a database with the keys of the schema, whatever it held
    -- before: the archive at the path can be read, and a server over the database that the command
    -- leaves answers a request for data of the archive, by GET or HEAD and with segments that are no
    -- slash, as the description of the API promises of the records of this archive.
    pub main-Replies :
        (args : List String) (w : World (Tables F)) (q : Question) (req : Request)
        → host.accepts ≡ schema
        → parse_import host args ≡ parsed gtfs_path
        → (main host conv sort ("import" ∷ args) w).1 ≡ exited 0
        → HoldsAll gis as_geo_json takes text_before sql
            (main host conv sort ("import" ∷ args) w).0.db
        → is_proper q ≡ true
        → req.path ≡ path_of q
        → allows (some "GET") req.method ≡ true
        → (entries : List (String × Option CsvFile)) × (host.open_zip gtfs_path ≡ some entries)
          × Replies
              (setting_of codec decode encode bytes_of gis as_geo_json takes text_before sql query)
              (archive_rows conv sort sorts host.order entries)
              q
              (serve_http codec bytes_of
                (new_server (store_of sql decode encode) vehicles hub addr)
                query
                req)
    main-Replies args w q req keys parses exits0 holds proper path method =
        let (entries, opened, done, same) = main-imported args w parses exits0 in
        let before = (migrate host.exec host.migrations w.db).0 in
        let known : imported w ≡ Importer.import schema conv sort host.order (some entries) before =
          ap (λ a. Importer.import a conv sort host.order (host.open_zip gtfs_path) before) keys
          ∙ ap (λ zip. Importer.import schema conv sort host.order zip before) opened in
        (
          entries,
          opened,
          serve_http-Replies conv sort sorts codec decode encode bytes_of gis as_geo_json takes
              text_before sql query host.order entries before vehicles hub addr
              (ap (λ r. r.1) (sym known) ∙ done)
              (subst (λ db. HoldsAll gis as_geo_json takes text_before sql db)
                (same ∙ ap (λ r. r.0) known) holds)
              q req proper path method,
        )
