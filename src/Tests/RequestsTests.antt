-- ===== src/Tests/RequestsTests.antt =====
-- A request to the API behind the import of a small archive, over a database that answers all queries.
use public_transport_tracker.Base.{
  string_eq, ◌≡◌, ◌∙◌, refl, Bool, false, none, List, [], ◌∷◌, String, if◌then◌else◌, ◌==◌,
}
use public_transport_tracker.Base.Int.{ℤ}
use public_transport_tracker.Api.Mux.{Request}
use public_transport_tracker.Api.Server.{new_server, serve_http}
use public_transport_tracker.Store.{Column, Sql}
use public_transport_tracker.Store.Queries.{all_shapes_text, route_shape_text, stops_text}
use public_transport_tracker.Store.Answers.{store_of}
use public_transport_tracker.Store.Select.{Answers, Holds}
use public_transport_tracker.Store.Imported.Contents.{archive_rows}
use public_transport_tracker.Store.Imported.Service.{one_route, Replies, setting_of, HoldsAll}
use public_transport_tracker.Store.Imported.Requests.{serve_http-Replies}
use public_transport_tracker.Tests.GtfsTests.{sort, conv, sort-IsSorting, nothing_before}
use public_transport_tracker.Tests.SchemaTests.{city, two_points, order}
use public_transport_tracker.Tests.ImportedTests
use public_transport_tracker.Tests.ImportedTests.{
  takes, unordered, tables_after, imported, sql_of-Holds,
}
use public_transport_tracker.Tests.ShapesTests
use public_transport_tracker.Tests.ShapesTests.{as_geo_json, imported-HoldsShapes}
use public_transport_tracker.Tests.StopsTests
use public_transport_tracker.Tests.StopsTests.{gis, codec, bbox, database-HoldsStops}

abbrev pub database : Sql ℤ
database = record {
  query = λ query args.
      if query == all_shapes_text
      then ShapesTests.database.query query args
      else if query == route_shape_text
      then ShapesTests.database.query query args
      else if query == stops_text
      then StopsTests.database.query query args
      else ImportedTests.database.query query args;
  scan_string = ImportedTests.database.scan_string;
  scan_int = ImportedTests.database.scan_int;
  scan_float = ImportedTests.database.scan_float;
}

Answers-query :
    {A : Type 0} {other : Sql ℤ} {text : String} {args : List (Column ℤ)}
    {columns : A → List (Column ℤ)} {selected : List A} {before : A → A → Bool}
    → database.query text args ≡ other.query text args
    → Answers other text args columns selected before
    → Answers database text args columns selected before
Answers-query same a = record {
  rows = a.rows;
  permutes = a.permutes;
  ascends = a.ascends;
  answer = same ∙ a.answer;
}

database-Holds : Holds database takes unordered tables_after
database-Holds =
    let holds = sql_of-Holds tables_after in
    record {
      strings = λ s. refl;
      ints = λ n. refl;
      floats = λ x. refl;
      all_routes = Answers-query refl holds.all_routes;
      routes_of_type = λ t fits. Answers-query refl (holds.routes_of_type t fits);
      no_integer = holds.no_integer;
      one_route = λ id taken. Answers-query refl (holds.one_route id taken);
      no_route_text = holds.no_route_text;
      trip_stop_times = λ id taken. Answers-query refl (holds.trip_stop_times id taken);
      no_trip_text = holds.no_trip_text;
    }

pub database-HoldsAll : HoldsAll gis as_geo_json takes unordered database tables_after
database-HoldsAll =
    let lines = imported-HoldsShapes in
    let places = database-HoldsStops in
    record {
      texts = database-Holds;
      lines = record {
        strings = λ s. refl;
        ints = λ n. refl;
        lines = lines.lines;
        distinct = lines.distinct;
        ascends = lines.ascends;
        all_shapes = lines.all_shapes;
        route_shape = lines.route_shape;
        no_shape_text = lines.no_shape_text;
      };
      places = record {
        strings = λ s. refl;
        ints = λ n. refl;
        stops_in_box = λ a b c d. Answers-query refl (places.stops_in_box a b c d);
      };
    }

abbrev pub request : Request
request = record { method = "HEAD"; path = "api" ∷ "routes" ∷ "r" ∷ [] }

serve_http-Replies_example :
    Replies
      (setting_of codec
        (λ b. "r")
        (λ s. [])
        (λ s. [])
        gis
        as_geo_json
        takes
        unordered
        database
        (λ name. bbox))
      (archive_rows conv sort sort-IsSorting order (city two_points))
      (one_route "r")
      (serve_http codec
        (λ s. [])
        (new_server (store_of database (λ b. "r") (λ s. [])) none false ":8080")
        (λ name. bbox)
        request)
serve_http-Replies_example =
    serve_http-Replies conv sort sort-IsSorting codec (λ b. "r") (λ s. []) (λ s. []) gis as_geo_json
      takes unordered database (λ name. bbox) order (city two_points) nothing_before none false
      ":8080" imported database-HoldsAll (one_route "r") request refl refl refl
