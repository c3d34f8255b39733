-- ===== src/Tests/StopsTests.antt =====
-- A database that answers the query for the stops in a box, and the answer of the API behind the import
-- of a small archive.
use public_transport_tracker.Base.{
  string_eq, ◌≡◌, ◌≢◌, ◌⊎◌, refl, true, false, not, ◌&&◌, none, some, List, [], ◌∷◌, length, arith,
}
use public_transport_tracker.Base.Int.{ℤ, pos, ltb_ℤ}
use public_transport_tracker.Gtfs.{Row, stop, stops}
use public_transport_tracker.Api.Split.{Bytes, split}
use public_transport_tracker.Api.BBox.{Parses}
use public_transport_tracker.Api.Handlers.{ResponseWriter, Codec, write_json, handle_list_stops}
use public_transport_tracker.Store.{text, number, real, null, Sql, GeoJsonFeature}
use public_transport_tracker.Store.Answers.{Value, collection, store_of}
use public_transport_tracker.Store.Select.{select_where}
use public_transport_tracker.Store.Select.Stops.{
  PostGis, in_box, stop_columns, name_before, HoldsStops,
}
use public_transport_tracker.Store.Imported.Contents.{archive_rows}
use public_transport_tracker.Store.Imported.Stops.{StopList, handle_list_stops-import}
use public_transport_tracker.Tests.GtfsTests.{sort, conv, sort-IsSorting, nothing_before}
use public_transport_tracker.Tests.SchemaTests.{program, city, two_points, order}
use public_transport_tracker.Tests.ImportedTests.{
  order_by, order_by_permutes, order_by-Ascends, yields, unordered, tables_after, imported,
  digit_of,
}

-- The points of the plane.
abbrev pub gis : PostGis ℤ
gis = record {
  overlaps = λ a b c d lon lat.
      not (ltb_ℤ lon a) && not (ltb_ℤ lat b) && not (ltb_ℤ c lon) && not (ltb_ℤ d lat);
  point_json = λ lon lat. "";
}

abbrev pub codec : Codec ℤ (Value ℤ)
codec = record {
  atoi = digit_of;
  parse_float = digit_of;
  encode = λ v. some (1 ∷ []);
  status_ok = Value.routes [];
  no_values = Value.routes [];
  text = λ s. [];
}

abbrev pub database : Sql ℤ
database = record {
  query = λ query args. elim args [
    | real a ∷ real b ∷ real c ∷ real d ∷ [] ↦ yields (stop_columns gis) (
        order_by (name_before gis unordered)
          (select_where (in_box gis a b c d) (tables_after stops)))
    | _ ↦ none
  ];
  scan_string = λ c. elim c [ text s ↦ some s | number n ↦ none | real x ↦ none | null ↦ none ];
  scan_int = λ c. elim c [ text s ↦ none | number n ↦ some n | real x ↦ none | null ↦ none ];
  scan_float = λ c. elim c [ text s ↦ none | number n ↦ none | real x ↦ some x | null ↦ none ];
}

name_before_asymmetric :
    (r s : Row ℤ) → name_before gis unordered r s ≡ true → name_before gis unordered s r ≡ false
name_before_asymmetric (stop _ _ _ _ _ _ _) (stop _ _ _ _ _ _ _) h = refl
name_before_asymmetric (stop _ _ _ _ _ _ _) _ h = absurd (ground arith)
name_before_asymmetric _ s h = absurd (ground arith)

pub database-HoldsStops : HoldsStops gis database unordered tables_after
database-HoldsStops = record {
  strings = λ s. refl;
  ints = λ n. refl;
  stops_in_box = λ a b c d.
      let selected = select_where (in_box gis a b c d) (tables_after stops) in
      record {
        rows = order_by (name_before gis unordered) selected;
        permutes = order_by_permutes (name_before gis unordered) selected;
        ascends = order_by-Ascends (name_before gis unordered) name_before_asymmetric selected;
        answer = refl;
      };
}

-- 0,0,9,9
abbrev pub bbox : Bytes
bbox = 48 ∷ 44 ∷ 48 ∷ 44 ∷ 57 ∷ 44 ∷ 57 ∷ []

handle_list_stops-import_example :
    let store = store_of database (λ b. "") (λ s. []) in
    ((a : ℤ) × (b : ℤ) × (c : ℤ) × (d : ℤ) × Parses digit_of (split bbox 44) (a ∷ b ∷ c ∷ d ∷ [])
      × (shown : List (GeoJsonFeature ℤ)) × StopList gis
          (archive_rows conv sort sort-IsSorting order (city two_points))
          unordered
          a
          b
          c
          d
          shown
      × (handle_list_stops codec store bbox
          ≡ some (
              write_json codec store
                (some "application/geo+json")
                (collection (record { type = "FeatureCollection"; features = shown })))))
    ⊎ (((vs : List ℤ) → Parses digit_of (split bbox 44) vs → length vs ≢ 4)
        × (response : ResponseWriter) × (handle_list_stops codec store bbox ≡ some response)
        × (response.status ≡ 400))
handle_list_stops-import_example =
    handle_list_stops-import gis conv sort sort-IsSorting codec (λ b. "") (λ s. []) order
      (city two_points) nothing_before database unordered bbox imported database-HoldsStops

-- The second box has neither of the two stops.
two_stops :
    let rows = archive_rows conv sort sort-IsSorting order (city two_points) stops in
    (length (select_where (in_box gis (pos 0) (pos 0) (pos 9) (pos 9)) rows) ≡ 2)
    × (length (select_where (in_box gis (pos 1) (pos 0) (pos 9) (pos 9)) rows) ≡ 0)
unfolding program
two_stops = (refl, refl)
