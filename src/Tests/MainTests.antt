-- ===== src/Tests/MainTests.antt =====
-- The commands over a host with one archive, whose database is empty and accepts every statement.
use public_transport_tracker.Base.{
  string_eq, ◌≡◌, ◌⊎◌, ◌↔◌, refl, true, false, Option, none, some, List, [], ◌∷◌, String,
  if◌then◌else◌, ◌==◌, arith,
}
use public_transport_tracker.Base.Int.{ℤ, pos, ◌*ℤ◌, wrap_int64}
use public_transport_tracker.Gtfs.{Tables}
use public_transport_tracker.Gtfs.Importer.Success.{accept_all}
use public_transport_tracker.Store.Migrate.{migrate, migrate_range}
use public_transport_tracker.Store.Open.{World, new_store, close_store}
use public_transport_tracker.Realtime.Poller.{starts_ticker}
use public_transport_tracker.GoMap.{lookup, assign}
use public_transport_tracker.Flags.{parsed, exits, parse, read_argument, cut, set_flag}
use public_transport_tracker.Main.{
  Host, ServeFlags, parse_import, parse_serve, signalled, exited, crashed, env_or, default_dsn,
  with_store, run_migrate, interval_of, poller_panics, run_serve, main,
}
use public_transport_tracker.Main.Import.{HoldsArchive, main-import}
use public_transport_tracker.Main.Serve.{Panics, IsReady, main-serve}
use public_transport_tracker.Tests.GtfsTests.{
  sort, conv, archive, nothing_before, order, sort-IsSorting,
}

-- "0" and "15" are numbers.
abbrev parse_number : String → Option ℤ
parse_number s = if s == "0" then some (pos 0) else if s == "15" then some (pos 15) else none

abbrev host : Host ℤ
host = record {
  getenv = λ key. "";
  opens = λ dsn. true;
  pings = λ dsn. dsn == default_dsn;
  migrations = some (record { name = "001"; is_dir = false; content = some "ddl" } ∷ []);
  exec = λ script db. some db;
  accepts = accept_all;
  open_zip = λ path. if path == "city.zip" then some archive else none;
  order = order;
  parse_int = parse_number;
  ending = signalled false;
  polled = true;
}

abbrev before : World (Tables ℤ)
before = record { db = nothing_before; pools = 0 }

program : Unit {0}
unfolding parse_import parse_serve parse read_argument cut set_flag lookup assign
program = tt

abbrev import_args : List String
import_args = "--gtfs=old.zip" ∷ "-gtfs" ∷ "city.zip" ∷ []

-- The last value counts.
import_args_parse : parse_import host import_args ≡ parsed "city.zip"
unfolding program
import_args_parse = refl

help_exits : parse_serve host ("-h" ∷ []) ≡ exits 0
unfolding program
help_exits = refl

bad_number_exits : parse_serve host ("--poll-interval" ∷ "soon" ∷ []) ≡ exits 2
unfolding program
bad_number_exits = refl

abbrev flags : ServeFlags
flags = record { addr = ":8080"; feed_url = "http://feed"; poll_interval = pos 0 }

abbrev serve_args : List String
serve_args = "--feed-url" ∷ "http://feed" ∷ "-poll-interval=0" ∷ []

serve_args_parse : parse_serve host serve_args ≡ parsed flags
unfolding program
serve_args_parse = refl

main-import_example :
    let (w', status) = main host conv sort ("import" ∷ import_args) before in
    (w'.pools ≡ 0)
    × (((status ≡ exited 0) × HoldsArchive host conv sort sort-IsSorting "city.zip" w'.db)
        ⊎ ((status ≡ exited 1)
            × ((w'.db ≡ nothing_before)
                ⊎ (w'.db ≡ (migrate host.exec host.migrations nothing_before).0))))
main-import_example =
    main-import host conv sort sort-IsSorting "city.zip" import_args before import_args_parse refl

main-serve_example :
    let (w', status) = main host conv sort ("serve" ∷ serve_args) before in
    ((status ≡ crashed)
      ↔ (IsReady host (env_or host "DATABASE_URL" default_dsn) nothing_before × Panics host flags))
    × ((w'.db ≡ nothing_before) ⊎ (w'.db ≡ (migrate host.exec host.migrations nothing_before).0))
    × ((status ≡ crashed) ⊎ (w'.pools ≡ 0))
main-serve_example =
    main-serve host conv sort serve_args flags before serve_args_parse (omega arith) (omega arith)

-- An interval of 0 seconds ends the process.
serve_crashes : (main host conv sort ("serve" ∷ serve_args) before).1 ≡ crashed
unfolding program main env_or run_migrate with_store run_serve poller_panics interval_of new_store
    close_store migrate migrate_range wrap_int64 ◌*ℤ◌
serve_crashes = refl

-- So many seconds that their nanoseconds wrap around to a negative number.
interval_wraps : starts_ticker (interval_of (pos 9_223_372_037)) ≡ false
unfolding interval_of wrap_int64 ◌*ℤ◌
interval_wraps = refl

unknown_command : main host conv sort ("start" ∷ []) before ≡ (before, exited 1)
unfolding main
unknown_command = refl
