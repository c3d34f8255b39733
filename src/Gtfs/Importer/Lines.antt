-- ===== src/Gtfs/Importer/Lines.antt =====
-- What the range over the grouped shapes adds to the table of shapes.
use public_transport_tracker.Base.{
  string_eq, nat_eq, ℕ, ◌+◌, ◌≡◌, refl, sym, ap, ◌∙◌, true, false, Option, none, some, List, [],
  ◌∷◌, ◌++◌, String, if◌then◌else◌, ◌==◌, ==_iff, arith, append-nil, length, Bool-cases,
  Option-cases, inl, inr, ltb, get_or, count, leb, not, ◌&&◌,
}
use public_transport_tracker.GoMap.{GoMap, empty, lookup}
use public_transport_tracker.Gtfs.{
  table_eq, shapes, Row, shape, Tables, Database, insert, prepare, insert_row,
}
use public_transport_tracker.Gtfs.Csv.{CsvFile, strip_bom, read_csv}
use public_transport_tracker.Gtfs.Rows.{Conversions}
use public_transport_tracker.Gtfs.Shapes.{ShapePoint, group_range, line_string}
use public_transport_tracker.Gtfs.Shapes.Group.{
  IsSorting, length-sort, points_of, group_range-points_of,
}
use public_transport_tracker.Gtfs.Importer.{insert_shapes, import_shapes}
use public_transport_tracker.Gtfs.Importer.Loops.{insert_row-rows_for, Adds}

module _ {F : Type 0} (accepts : Database F) (conv : Conversions F)
    (sort : List (ShapePoint F) → List (ShapePoint F)) (sorts : IsSorting sort) where
  -- The row of a shape, if it has two points or more.
  abbrev pub shape_row : String → List (ShapePoint F) → List (Row F)
  shape_row id points =
      if ltb (length points) 2 then [] else shape id (line_string conv (sort points)) ∷ []

  abbrev pub shape_rows : List String → (String → List (ShapePoint F)) → List (Row F)
  shape_rows [] points = []
  shape_rows (id ∷ order) points = shape_row id (points id) ++ shape_rows order points

  insert_shapes-Adds :
      (order : List String) (grouped : GoMap String (List (ShapePoint F)))
      (points : String → List (ShapePoint F)) (count : ℕ) (tx : Tables F)
      → ((id : String) → get_or (lookup id grouped) [] ≡ points id)
      → Adds shapes
          (shape_rows order points)
          tx
          (insert_shapes accepts conv sort order grouped count tx)
  unfolding insert_shapes
  insert_shapes-Adds [] grouped points count tx known n tx' e u =
      let same : tx' ≡ tx = ground arith in
      rw same (elim (Bool-cases (shapes == u)) [
        | inl h ↦ rw (h, append-nil) refl
        | inr h ↦ rw (h, append-nil) refl
      ])
  insert_shapes-Adds (id ∷ order) grouped points count tx known n tx' e u =
      let row : Row F = shape id (line_string conv (sort (points id))) in
      elim (Option-cases (lookup id grouped)) [
        | inl h ↦
            let none_of : points id ≡ [] = sym (known id) ∙ ap (λ o. get_or o []) h in
            rw none_of
              (insert_shapes-Adds order grouped points count tx known n tx' (ground arith) u)
        | inr (ps, h) ↦
            let here : lookup id grouped ≡ some (points id) =
              h ∙ ap some (sym (ap (λ o. get_or o []) h) ∙ known id) in
            let size : length (sort (points id)) ≡ length (points id) =
              length-sort sort sorts (points id) in
            elim (Bool-cases (ltb (length (points id)) 2)) [
              | inl few ↦
                  let few' : ltb (length (sort (points id))) 2 ≡ true = rw size few in
                  rw few
                    (insert_shapes-Adds order grouped points count tx known n tx' (ground arith) u)
              | inr many ↦
                  let many' : ltb (length (sort (points id))) 2 ≡ false = rw size many in
                  elim (Bool-cases (accepts (insert shapes row) tx)) [
                    | inl a ↦ rw many (
                        insert_shapes-Adds order grouped points (count + 1)
                          (insert_row shapes row tx) known n tx' (ground arith) u
                        ∙ insert_row-rows_for shapes u row (shape_rows order points) tx)
                    | inr a ↦ absurd (ground arith)
                  ]
            ]
      ]

  -- The records of the file of shapes; a file that is absent or has no header has none.
  abbrev pub file_points : Option (Option CsvFile) → String → List (ShapePoint F)
  file_points none id = []
  file_points (some none) id = []
  file_points (some (some file)) id = elim file.header [
    | none ↦ []
    | some header ↦ points_of conv (strip_bom header) id file.rows
  ]

  pub import_shapes-Adds :
      (order : List String) (entry : Option CsvFile) (tx : Tables F)
      → Adds shapes
          (shape_rows order (file_points (some entry)))
          tx
          (import_shapes accepts conv sort order entry tx)
  unfolding import_shapes read_csv
  import_shapes-Adds order none tx n tx' e u = absurd (ground arith)
  import_shapes-Adds order (some file) tx n tx' e u = elim (Option-cases file.header) [
    | inl h ↦ absurd (ground arith)
    | inr (header, h) ↦ elim (Bool-cases file.complete) [
      | inl whole ↦ elim (Bool-cases (accepts (prepare shapes) tx)) [
        | inl a ↦
            insert_shapes-Adds order (group_range conv (strip_bom header) file.rows empty)
              (file_points (some (some file))) 0 tx
              (λ id.
                rw h (
                  unfold lookup in
                  group_range-points_of conv (strip_bom header) id file.rows empty))
              n tx' (ground arith) u
        | inr a ↦ absurd (ground arith)
      ]
      | inr part ↦ absurd (ground arith)
    ]
  ]

  -- The geometry of the first row of a shape.
  abbrev pub find_line : String → List (Row F) → Option String
  find_line id [] = none
  find_line id (shape i line ∷ rows) = if i == id then some line else find_line id rows
  find_line id (_ ∷ rows) = find_line id rows

  pub find_line-shape_rows :
      (id : String) (order : List String) (points : String → List (ShapePoint F))
      → find_line id (shape_rows order points) ≡ (
          if leb 1 (count id order) && not (ltb (length (points id)) 2)
          then some (line_string conv (sort (points id)))
          else none)
  find_line-shape_rows id [] points = refl
  find_line-shape_rows id (i ∷ order) points = elim (Bool-cases (ltb (length (points i)) 2)) [
    | inl few ↦ ground (arith, ==_iff i id, find_line-shape_rows id order points)
    | inr many ↦ ground (arith, ==_iff i id, find_line-shape_rows id order points)
  ]
