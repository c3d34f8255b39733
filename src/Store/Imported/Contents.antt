-- ===== src/Store/Imported/Contents.antt =====
-- The tables behind an import that has succeeded.
use mathlib.Core.Path.{fun_ext}
use public_transport_tracker.Base.{
  string_eq, ◌≡◌, refl, sym, ap, ◌∙◌, Bool, true, false, Option, none, some, List, [], ◌∷◌, map,
  String, All, arith, ltb, length, Bool-cases, Option-cases, inl, inr, is_some,
}
use public_transport_tracker.GoMap.{GoMap, empty, lookup}
use public_transport_tracker.Gtfs.{
  Table, routes, stops, stop_times, trips, shapes, Row, trip, shape, Tables,
}
use public_transport_tracker.Gtfs.Csv.{CsvFile, strip_bom}
use public_transport_tracker.Gtfs.Rows.{Conversions, route_row, stop_row, stop_time_row, trip_row}
use public_transport_tracker.Gtfs.Shapes.{ShapePoint}
use public_transport_tracker.Gtfs.Shapes.Group.{IsSorting}
use public_transport_tracker.Gtfs.Schema.{schema, fits_rows}
use public_transport_tracker.Gtfs.Importer.{import, index_files}
use public_transport_tracker.Gtfs.Importer.Loops.{file_rows}
use public_transport_tracker.Gtfs.Importer.Lines.{shape_rows, file_points}
use public_transport_tracker.Gtfs.Importer.Import.{import_lem, table_rows}
use public_transport_tracker.Gtfs.Importer.Integrity.{
  import-consistent, are_consistent, known_tables,
}
use public_transport_tracker.Store.Select.{route_of}
use public_transport_tracker.Store.Imported.Keys.{is_stop_row, is_stop_time_row}

map-All :
    {A B : Type 0} (P : B → Type 0) (f : A → B) (rows : List A)
    → ((a : A) → P (f a))
    → All P (map f rows)
map-All P f [] h = tt
map-All P f (a ∷ rows) h = (h a, map-All P f rows h)

file_rows-All :
    {F : Type 0} (P : Row F → Type 0) (to_row : List String → List String → Row F)
    (f : Option (Option CsvFile))
    → ((header row : List String) → P (to_row header row))
    → All P (file_rows to_row f)
file_rows-All P to_row none h = tt
file_rows-All P to_row (some none) h = tt
file_rows-All P to_row (some (some file)) h = elim (Option-cases file.header) [
  | inl e ↦ rw e tt
  | inr (header, e) ↦ rw e (map-All P (to_row (strip_bom header)) file.rows (h (strip_bom header)))
]

abbrev pub is_trip_row : {F : Type 0} → Row F → Bool
is_trip_row (trip _ _ _ _ _ _ _) = true
is_trip_row _ = false

abbrev pub is_shape_row : {F : Type 0} → Row F → Bool
is_shape_row (shape _ _) = true
is_shape_row _ = false

-- Tables that an import can leave: rows of their own kinds, for which the keys of the schema hold.
pub record IsImported {F : Type 0} (rows : Tables F) : Type 0 where
  pub routes_typed : All (λ row. is_some (route_of row) ≡ true) (rows routes)
  pub stops_typed : All (λ row. is_stop_row row ≡ true) (rows stops)
  pub stop_times_typed : All (λ row. is_stop_time_row row ≡ true) (rows stop_times)
  pub routes_fit : fits_rows routes [] (rows routes) rows ≡ true
  pub stops_fit : fits_rows stops [] (rows stops) rows ≡ true
  pub trips_typed : All (λ row. is_trip_row row ≡ true) (rows trips)
  pub shapes_typed : All (λ row. is_shape_row row ≡ true) (rows shapes)
  pub trips_fit : fits_rows trips [] (rows trips) rows ≡ true
  pub stop_times_fit : fits_rows stop_times [] (rows stop_times) rows ≡ true

module _ {F : Type 0} (conv : Conversions F) (sort : List (ShapePoint F) → List (ShapePoint F))
    (sorts : IsSorting sort) where
  -- What the files of an archive say that the tables hold.
  abbrev pub archive_rows : List String → List (String × Option CsvFile) → Tables F
  archive_rows order entries =
      table_rows schema conv sort sorts order (index_files schema conv sort entries empty)

  shape_rows-All :
      (order : List String) (points : String → List (ShapePoint F))
      → All (λ row. is_shape_row row ≡ true) (shape_rows schema conv sort sorts order points)
  shape_rows-All [] points = tt
  shape_rows-All (id ∷ order) points = elim (Bool-cases (ltb (length (points id)) 2)) [
    | inl few ↦ rw few (shape_rows-All order points)
    | inr many ↦ rw many (refl, shape_rows-All order points)
  ]

  consistent-All :
      (known : List (Bool × (String × Table))) (files : GoMap String (Option CsvFile))
      (rows : Tables F)
      → are_consistent conv sort sorts known files rows ≡ true
      → All (λ k. fits_rows k.1.1 [] (rows k.1.1) rows ≡ true) known
  consistent-All [] files rows h = tt
  consistent-All ((req, (name, t)) ∷ known) files rows h =
      (ground arith, consistent-All known files rows (ground arith))

  pub import-IsImported :
      (order : List String) (entries : List (String × Option CsvFile)) (db : Tables F)
      → (import schema conv sort order (some entries) db).1 ≡ none
      → ((import schema conv sort order (some entries) db).0 ≡ archive_rows order entries)
        × IsImported (archive_rows order entries)
  unfolding route_row stop_row stop_time_row trip_row
  import-IsImported order entries db e =
      let files = index_files schema conv sort entries empty in
      let consistent = (import-consistent conv sort sorts order (some entries) db).0 e in
      let rows = archive_rows order entries in
      let (_, (routes_fit, (stops_fit, (_, (trips_fit, (stop_times_fit, _)))))) =
        consistent-All (known_tables conv sort sorts) files rows consistent in
      (
        elim (import_lem schema conv sort sorts order (some entries) db) [
          | inl (_, (others, h, same)) ↦
              let one : entries ≡ others = ground arith in
              fun_ext λ t. same t ∙ ap (λ es. archive_rows order es t) (sym one)
          | inr (failed, _) ↦ absurd (ground arith)
        ],
        record {
          routes_typed = file_rows-All _ (route_row conv) (lookup "routes.txt" files) λ h row. refl;
          stops_typed = file_rows-All _ (stop_row conv) (lookup "stops.txt" files) λ h row. refl;
          stop_times_typed =
              file_rows-All _ (stop_time_row conv) (lookup "stop_times.txt" files) λ h row. refl;
          routes_fit = routes_fit;
          stops_fit = stops_fit;
          stop_times_fit = stop_times_fit;
          trips_typed = file_rows-All _ (trip_row conv) (lookup "trips.txt" files) λ h row. refl;
          shapes_typed =
              shape_rows-All order (file_points schema conv sort sorts (lookup "shapes.txt" files));
          trips_fit = trips_fit;
        },
      )
