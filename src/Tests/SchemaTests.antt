-- ===== src/Tests/SchemaTests.antt =====
-- Archives over a database with the schema.
use public_transport_tracker.Base.{
  string_eq, ◌≡◌, ◌↔◌, refl, true, false, Option, none, some, List, [], ◌∷◌, String,
}
use public_transport_tracker.GoMap.{lookup, assign}
use public_transport_tracker.Gtfs.Csv.{
  CsvFile, trim_space, trim_left, trim_right, trim_bom, col_index, col_index_range, get_field,
  read_csv,
}
use public_transport_tracker.Gtfs.Rows.{agency_row, route_row, stop_row, trip_row, stop_time_row}
use public_transport_tracker.Gtfs.Shapes.{point_of, group_range, line_string}
use public_transport_tracker.Gtfs.Schema.{schema}
use public_transport_tracker.Gtfs.Importer.{import, index_files}
use public_transport_tracker.Gtfs.Importer.Integrity.{import-consistent, is_consistent}
use public_transport_tracker.Tests.GtfsTests.{sort, conv, sort-IsSorting, file_of, nothing_before}

unfoldable pub program : Unit {0}
unfolding import index_files lookup assign trim_space trim_left trim_right trim_bom col_index
    col_index_range get_field read_csv agency_row route_row stop_row trip_row stop_time_row point_of
    group_range line_string schema
program = tt

-- One route with one trip, whose shape has the given points.
abbrev pub city : List (List String) → List (String × Option CsvFile)
city points =
    ("agency.txt", file_of ("agency_id" ∷ []) (("a" ∷ []) ∷ []))
    ∷ ("routes.txt", file_of ("route_id" ∷ "agency_id" ∷ []) (("r" ∷ "a" ∷ []) ∷ []))
    ∷ (
      "stops.txt",
      file_of ("stop_id" ∷ "parent_station" ∷ []) (("s" ∷ "" ∷ []) ∷ ("p" ∷ "s" ∷ []) ∷ []),
    )
    ∷ ("shapes.txt", file_of ("shape_id" ∷ "shape_pt_sequence" ∷ []) points)
    ∷ (
      "trips.txt",
      file_of ("trip_id" ∷ "route_id" ∷ "shape_id" ∷ []) (("t" ∷ "r" ∷ "w" ∷ []) ∷ []),
    )
    ∷ (
      "stop_times.txt",
      file_of ("trip_id" ∷ "stop_id" ∷ "stop_sequence" ∷ [])
          (("t" ∷ "s" ∷ "1" ∷ []) ∷ ("t" ∷ "p" ∷ "2" ∷ []) ∷ []),
    )
    ∷ []

abbrev pub two_points : List (List String)
two_points = ("w" ∷ "1" ∷ []) ∷ ("w" ∷ "2" ∷ []) ∷ []

abbrev pub order : List String
order = "w" ∷ []

import-consistent_example :
    ((import schema conv sort order (some (city two_points)) nothing_before).1 ≡ none)
    ↔ (is_consistent conv sort sort-IsSorting order (some (city two_points)) ≡ true)
import-consistent_example =
    import-consistent conv sort sort-IsSorting order (some (city two_points)) nothing_before

pub city_consistent : is_consistent conv sort sort-IsSorting order (some (city two_points)) ≡ true
unfolding program
city_consistent = refl

-- A shape of one point is not inserted, and its trip is refused.
one_point_refused :
    is_consistent conv sort sort-IsSorting order (some (city (("w" ∷ "1" ∷ []) ∷ []))) ≡ false
unfolding program
one_point_refused = refl

-- A platform and its station, in the given order.
abbrev station_in : List (List String) → List (String × Option CsvFile)
station_in rows =
    ("agency.txt", file_of [] [])
    ∷ ("routes.txt", file_of [] [])
    ∷ ("stops.txt", file_of ("stop_id" ∷ "parent_station" ∷ []) rows)
    ∷ ("trips.txt", file_of [] [])
    ∷ ("stop_times.txt", file_of [] [])
    ∷ []

abbrev station : List String
station = "station" ∷ "" ∷ []

abbrev platform : List String
platform = "platform" ∷ "station" ∷ []

platform_first_refused :
    (is_consistent conv sort sort-IsSorting [] (some (station_in (station ∷ platform ∷ []))) ≡ true)
    × (is_consistent conv sort sort-IsSorting [] (some (station_in (platform ∷ station ∷ [])))
        ≡ false)
unfolding program
platform_first_refused = (refl, refl)
