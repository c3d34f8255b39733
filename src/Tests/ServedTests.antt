-- ===== src/Tests/ServedTests.antt =====
-- The command `import` with a small archive over a database with the keys of the schema, and a request to
-- a server over the same database.
use public_transport_tracker.Base.{
  string_eq, ◌≡◌, refl, ap, true, false, Option, none, some, List, [], ◌∷◌, String, if◌then◌else◌,
  ◌==◌,
}
use public_transport_tracker.Base.Int.{ℤ}
use public_transport_tracker.GoMap.{lookup, assign}
use public_transport_tracker.Gtfs.{Tables}
use public_transport_tracker.Gtfs.Csv.{CsvFile}
use public_transport_tracker.Gtfs.Schema.{schema}
use public_transport_tracker.Gtfs.Importer.{ImportError}
use public_transport_tracker.Api.Server.{new_server, serve_http}
use public_transport_tracker.Store.Migrate.{migrate, migrate_range}
use public_transport_tracker.Store.Open.{World, new_store, close_store}
use public_transport_tracker.Store.Answers.{store_of}
use public_transport_tracker.Store.Imported.Contents.{archive_rows}
use public_transport_tracker.Store.Imported.Service.{one_route, Replies, setting_of, HoldsAll}
use public_transport_tracker.Flags.{parsed, parse, read_argument, cut, set_flag}
use public_transport_tracker.Main.{
  Host, parse_import, signalled, exited, env_or, default_dsn, with_store, after_migrate,
  import_archive_at, run_import, main, status_of, import_archive,
}
use public_transport_tracker.Main.Served.{main-Replies}
use public_transport_tracker.Tests.GtfsTests.{sort, conv, sort-IsSorting, nothing_before}
use public_transport_tracker.Tests.SchemaTests.{city, two_points, order}
use public_transport_tracker.Tests.ImportedTests.{takes, unordered, imported}
use public_transport_tracker.Tests.ShapesTests.{as_geo_json}
use public_transport_tracker.Tests.StopsTests.{gis, codec, bbox}
use public_transport_tracker.Tests.RequestsTests.{database, database-HoldsAll, request}

abbrev host : Host ℤ
host = record {
  getenv = λ key. "";
  opens = λ dsn. true;
  pings = λ dsn. dsn == default_dsn;
  migrations = some (record { name = "001"; is_dir = false; content = some "ddl" } ∷ []);
  exec = λ script db. some db;
  accepts = schema;
  open_zip = λ path. if path == "city.zip" then some (city two_points) else none;
  order = order;
  parse_int = λ s. none;
  ending = signalled false;
  polled = true;
}

abbrev before : World (Tables ℤ)
before = record { db = nothing_before; pools = 0 }

abbrev args : List String
args = "--gtfs" ∷ "city.zip" ∷ []

args_parse : parse_import host args ≡ parsed "city.zip"
unfolding parse_import parse read_argument cut set_flag lookup assign
args_parse = refl

import_exits : (main host conv sort ("import" ∷ args) before).1 ≡ exited 0
unfolding main env_or with_store after_migrate import_archive_at run_import new_store close_store
    migrate migrate_range
import_exits = rw args_parse (
    ap
      (λ (error : Option ImportError).
        status_of (elim error [ none ↦ none | some e ↦ some (import_archive e) ]))
      imported)

left-HoldsAll :
    HoldsAll gis as_geo_json takes unordered database
      (main host conv sort ("import" ∷ args) before).0.db
unfolding main env_or with_store after_migrate import_archive_at run_import new_store close_store
    migrate migrate_range
left-HoldsAll = rw args_parse database-HoldsAll

main-Replies_example :
    (entries : List (String × Option CsvFile)) × (host.open_zip "city.zip" ≡ some entries)
    × Replies
        (setting_of codec
          (λ b. "r")
          (λ s. [])
          (λ s. [])
          gis
          as_geo_json
          takes
          unordered
          database
          (λ name. bbox))
        (archive_rows conv sort sort-IsSorting order entries)
        (one_route "r")
        (serve_http codec
          (λ s. [])
          (new_server (store_of database (λ b. "r") (λ s. [])) none false ":8080")
          (λ name. bbox)
          request)
main-Replies_example =
    main-Replies host conv sort "city.zip" sort-IsSorting codec (λ b. "r") (λ s. []) (λ s. []) gis
      as_geo_json takes unordered database (λ name. bbox) none false ":8080" args before
      (one_route "r") request refl args_parse import_exits left-HoldsAll refl refl refl
