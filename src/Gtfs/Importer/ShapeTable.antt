-- ===== src/Gtfs/Importer/ShapeTable.antt =====
-- The table of shapes after an import.
use mathlib.Core.List.{Permᴰ}
use public_transport_tracker.Base.{
  string_eq, nat_eq, ◌≡◌, refl, true, false, Option, none, some, List, [], String, if◌then◌else◌,
  arith, length, Bool-cases, Option-cases, inl, inr, ltb, get_or, count, leb, ◌⊎◌, not, ◌&&◌,
}
use public_transport_tracker.GoMap.{GoMap, empty, lookup, Enumerates}
use public_transport_tracker.Gtfs.{Tables, Database, shapes}
use public_transport_tracker.Gtfs.Csv.{CsvFile, strip_bom}
use public_transport_tracker.Gtfs.Rows.{Conversions}
use public_transport_tracker.Gtfs.Shapes.{ShapePoint, group_range, line_string}
use public_transport_tracker.Gtfs.Shapes.Group.{IsSorting, IsAscending, group_range-points_of}
use public_transport_tracker.Gtfs.Importer.{import, index_files}
use public_transport_tracker.Gtfs.Importer.Lines.{file_points, find_line, find_line-shape_rows}
use public_transport_tracker.Gtfs.Importer.Import.{import_lem}

module _ {F : Type 0} (accepts : Database F) (conv : Conversions F)
    (sort : List (ShapePoint F) → List (ShapePoint F)) (sorts : IsSorting sort) where
  -- The map that the grouping loop makes of the file of shapes.
  abbrev pub file_groups : Option (Option CsvFile) → GoMap String (List (ShapePoint F))
  file_groups none = empty
  file_groups (some none) = empty
  file_groups (some (some file)) = elim file.header [
    | none ↦ empty
    | some header ↦ group_range conv (strip_bom header) file.rows empty
  ]

  file_groups-file_points :
      (entry : Option (Option CsvFile)) (id : String)
      → get_or (lookup id (file_groups entry)) [] ≡ file_points accepts conv sort sorts entry id
  unfolding lookup
  file_groups-file_points none id = refl
  file_groups-file_points (some none) id = refl
  file_groups-file_points (some (some file)) id = elim (Option-cases file.header) [
    | inl h ↦ rw h refl
    | inr (header, h) ↦ rw h (group_range-points_of conv (strip_bom header) id file.rows empty)
  ]

  -- After an import without an error the table of shapes holds, for a shape of two points or more,
  -- the line through its points in ascending order of their numbers, and no row for other shapes.
  pub import-shapes :
      (order : List String) (entries : List (String × Option CsvFile)) (db : Tables F) (id : String)
      → (import accepts conv sort order (some entries) db).1 ≡ none
      → Enumerates order
          (file_groups (lookup "shapes.txt" (index_files accepts conv sort entries empty)))
      → let rows = (import accepts conv sort order (some entries) db).0 shapes in
        let points : List (ShapePoint F) =
          file_points accepts conv sort sorts
            (lookup "shapes.txt" (index_files accepts conv sort entries empty))
            id in
        ((ltb (length points) 2 ≡ true) × (find_line accepts conv sort sorts id rows ≡ none))
        ⊎ ((ltb (length points) 2 ≡ false)
            × ((line : List (ShapePoint F)) × (find_line accepts conv sort sorts id rows
                  ≡ some (line_string conv line))
                × Permᴰ line points
                × IsAscending line))
  import-shapes order entries db id e visits =
      let entry = lookup "shapes.txt" (index_files accepts conv sort entries empty) in
      let points : List (ShapePoint F) = file_points accepts conv sort sorts entry id in
      let found : find_line accepts conv sort sorts id
            ((import accepts conv sort order (some entries) db).0 shapes)
          ≡ (if leb 1 (count id order) && not (ltb (length points) 2)
              then some (line_string conv (sort points))
              else none) =
        elim (import_lem accepts conv sort sorts order (some entries) db) [
          | inl (done, (others, h, rows)) ↦
              let same : others ≡ entries = ground arith in
              rw (rows shapes, same)
                (find_line-shape_rows accepts conv sort sorts id order
                  (file_points accepts conv sort sorts entry))
          | inr (bad, h) ↦ absurd (ground arith)
        ] in
      let grouped = file_groups-file_points entry id in
      elim (Bool-cases (ltb (length points) 2)) [
        | inl few ↦ inl (few, ground arith)
        | inr many ↦
            let visited : leb 1 (count id order) ≡ true =
              elim (Option-cases (lookup id (file_groups entry))) [
                | inl h ↦ let none_of : [] ≡ points = rw h at grouped in absurd (ground arith)
                | inr (ps, h) ↦ ground (arith, visits id)
              ] in
            inr (many, (sort points, ground arith, sorts.permutes points, sorts.ascends points))
      ]
