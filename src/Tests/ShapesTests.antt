-- ===== src/Tests/ShapesTests.antt =====
-- A database that answers the queries for the shapes, and the answers of the API behind the import of a
-- small archive.
use mathlib.Core.List.{Memᴰ}
use public_transport_tracker.Base.{
  string_eq, ◌≡◌, refl, sym, subst, none, some, List, [], ◌∷◌, String,
}
use public_transport_tracker.Base.Int.{ℤ, pos}
use public_transport_tracker.Gtfs.{Tables}
use public_transport_tracker.Api.Handlers.{write_json, handle_get_all_shapes}
use public_transport_tracker.Store.{
  text, number, real, null, Sql, GeoJsonFeature, string, int, route_type_name,
}
use public_transport_tracker.Store.Answers.{Value, store_of}
use public_transport_tracker.Store.Select.Scanned.{traverse}
use public_transport_tracker.Store.Select.Shapes.{
  FirstOf, feature_of, no_first, a_first, RouteLine, route_lines, lines_of, line_columns,
  shape_columns, HoldsShapes,
}
use public_transport_tracker.Store.Imported.Contents.{archive_rows, import-IsImported}
use public_transport_tracker.Store.Imported.Geometry.{RouteShapes}
use public_transport_tracker.Store.Imported.Shapes.{handle_get_all_shapes-import}
use public_transport_tracker.Tests.GtfsTests.{sort, conv, sort-IsSorting, nothing_before}
use public_transport_tracker.Tests.SchemaTests.{program, city, two_points, order}
use public_transport_tracker.Tests.ImportedTests.{
  takes, yields, unordered, codec, tables_after, imported,
}
use public_transport_tracker.Base.{if◌then◌else◌}

abbrev pub as_geo_json : String → String
as_geo_json line = line

abbrev first_row : {A : Type 0} → List A → List A
first_row [] = []
first_row (a ∷ rows) = a ∷ []

first_row-FirstOf : {A : Type 0} (rows : List A) → FirstOf rows (first_row rows)
first_row-FirstOf [] = no_first refl
first_row-FirstOf (a ∷ rows) = a_first a (Memᴰ.head refl)

abbrev rows : Tables ℤ
rows = archive_rows conv sort sort-IsSorting order (city two_points)

-- The only line of the archive.
abbrev lines : List (RouteLine ℤ)
lines = route_lines rows

abbrev pub database : Sql ℤ
database = record {
  query = λ query args. elim args [
    | [] ↦ yields (line_columns as_geo_json) lines
    | arg ∷ rest ↦ elim arg [
      | text id ↦
          if takes id
          then yields (shape_columns as_geo_json) (first_row (lines_of id rows))
          else none
      | number t ↦ none
      | real x ↦ none
      | null ↦ none
    ]
  ];
  scan_string = λ c. elim c [ text s ↦ some s | number n ↦ none | real x ↦ none | null ↦ none ];
  scan_int = λ c. elim c [ text s ↦ none | number n ↦ some n | real x ↦ none | null ↦ none ];
  scan_float = λ c. elim c [ text s ↦ none | number n ↦ none | real x ↦ some x | null ↦ none ];
}

database-HoldsShapes : HoldsShapes as_geo_json database takes unordered rows
unfolding program
database-HoldsShapes = record {
  strings = λ s. refl;
  ints = λ n. refl;
  lines = lines;
  distinct = ((Memᴰ.head refl, tt), (refl, tt));
  ascends = tt;
  all_shapes = refl;
  route_shape = λ id taken. (first_row (lines_of id rows), first_row-FirstOf _, rw taken refl);
  no_shape_text = λ id refused. rw refused refl;
}

pub imported-HoldsShapes : HoldsShapes as_geo_json database takes unordered tables_after
imported-HoldsShapes =
    subst (λ db. HoldsShapes as_geo_json database takes unordered db)
      (sym
        (import-IsImported conv sort sort-IsSorting order (city two_points) nothing_before
          imported).0)
      database-HoldsShapes

-- The route of the archive has no color: its feature has `#` for one.
no_color :
    traverse (feature_of as_geo_json) lines
    ≡ some (
        record {
          type = "Feature";
          properties =
              ("route_id", string "r")
              ∷ ("short_name", string "")
              ∷ ("long_name", string "")
              ∷ ("route_type", int (pos 0))
              ∷ ("modality", string "tram")
              ∷ ("color", string "#")
              ∷ [];
          geometry = "LINESTRING(0 0,0 0)";
        }
        ∷ [])
unfolding program route_type_name
no_color = refl

handle_get_all_shapes-import_example :
    let store = store_of database (λ b. "r") (λ s. []) in
    (shown : List (GeoJsonFeature ℤ)) × RouteShapes as_geo_json
      (archive_rows conv sort sort-IsSorting order (city two_points))
      unordered
      shown
    × (handle_get_all_shapes codec store
        ≡ write_json codec store
            (some "application/geo+json")
            (Value.collection (record { type = "FeatureCollection"; features = shown })))
handle_get_all_shapes-import_example =
    handle_get_all_shapes-import conv sort sort-IsSorting codec (λ b. "r") (λ s. []) as_geo_json
      order (city two_points) nothing_before database takes unordered imported imported-HoldsShapes
