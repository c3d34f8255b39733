-- ===== src/Gtfs/Importer/Inserts.antt =====
-- When the loops over the records of a file succeed, over a database with the schema.
use public_transport_tracker.Base.{
  string_eq, nat_eq, ℕ, ◌+◌, ◌≡◌, refl, sym, ap, ◌∙◌, Bool, ◌&&◌, Option, none, some, List, [], ◌∷◌,
  ◌++◌, map, String, All, arith, length, get_or, ==_refl, Option-cases, inl, inr,
}
use public_transport_tracker.GoMap.{GoMap, empty, lookup}
use public_transport_tracker.Gtfs.{
  table_eq, Table, agencies, routes, stops, shapes, trips, stop_times, calendar, calendar_dates,
  Row, shape, Tables, insert_row,
}
use public_transport_tracker.Gtfs.Csv.{CsvFile, strip_bom, read_csv}
use public_transport_tracker.Gtfs.Rows.{Conversions}
use public_transport_tracker.Gtfs.Shapes.{ShapePoint, group_range, line_string}
use public_transport_tracker.Gtfs.Shapes.Group.{IsSorting, length-sort, group_range-points_of}
use public_transport_tracker.Gtfs.Schema.{schema, has_links, fits_rows}
use public_transport_tracker.Gtfs.Importer.{insert_range, import_rows, insert_shapes, import_shapes}
use public_transport_tracker.Gtfs.Importer.Loops.{file_rows}
use public_transport_tracker.Gtfs.Importer.Lines.{shape_rows, file_points}
use public_transport_tracker.Gtfs.Importer.Success.{is_ok, is_readable}

-- The tables that the rows of a table refer to.
abbrev pub parents : Table → List Table
parents agencies = []
parents routes = agencies ∷ []
parents stops = []
parents shapes = []
parents trips = routes ∷ shapes ∷ []
parents stop_times = trips ∷ stops ∷ []
parents calendar = []
parents calendar_dates = []

module _ {F : Type 0} where
  -- Only the tables that a row refers to count.
  has_links-parents :
      (t : Table) (row : Row F) (db db' : Tables F)
      → All (λ u. db u ≡ db' u) (parents t)
      → has_links t row db ≡ has_links t row db'
  has_links-parents agencies row db db' h = refl
  has_links-parents stops row db db' h = refl
  has_links-parents shapes row db db' h = refl
  has_links-parents calendar row db db' h = refl
  has_links-parents calendar_dates row db db' h = refl
  has_links-parents routes row db db' h = ground arith
  has_links-parents trips row db db' h = ground arith
  has_links-parents stop_times row db db' h = ground arith

  pub fits_rows-parents :
      (t : Table) (before rows : List (Row F)) (db db' : Tables F)
      → All (λ u. db u ≡ db' u) (parents t)
      → fits_rows t before rows db ≡ fits_rows t before rows db'
  fits_rows-parents t before [] db db' h = refl
  fits_rows-parents t before (row ∷ rows) db db' h = ground (
    arith,
    has_links-parents t row db db' h,
    fits_rows-parents t (before ++ row ∷ []) rows db db' h,
  )

  -- Inserting into a table does not change the tables that it refers to.
  insert_row-parents :
      (t : Table) (row : Row F) (db : Tables F)
      → All (λ u. insert_row t row db u ≡ db u) (parents t)
  insert_row-parents agencies row db = tt
  insert_row-parents routes row db = (refl, tt)
  insert_row-parents stops row db = tt
  insert_row-parents shapes row db = tt
  insert_row-parents trips row db = (refl, (refl, tt))
  insert_row-parents stop_times row db = (refl, (refl, tt))
  insert_row-parents calendar row db = tt
  insert_row-parents calendar_dates row db = tt

  insert_row_own :
      (t : Table) (row : Row F) (db : Tables F) → insert_row t row db t ≡ db t ++ row ∷ []
  insert_row_own t row db = rw (==_refl t) refl

  -- A row that fits, and the rows behind it.
  fits_rows_insert :
      (t : Table) (row : Row F) (rows : List (Row F)) (db : Tables F)
      → fits_rows t (insert_row t row db t) rows (insert_row t row db)
        ≡ fits_rows t (db t ++ row ∷ []) rows db
  fits_rows_insert t row rows db =
      ap (λ b. fits_rows t b rows (insert_row t row db)) (insert_row_own t row db)
      ∙ fits_rows-parents t (db t ++ row ∷ []) rows (insert_row t row db) db
          (insert_row-parents t row db)

  insert_range-fits :
      (t : Table) (to_row : List String → Row F) (rows : List (List String)) (complete : Bool)
      (count : ℕ) (tx : Tables F)
      → is_ok (insert_range schema t to_row rows complete count tx)
        ≡ (fits_rows t (tx t) (map to_row rows) tx && complete)
  unfolding insert_range schema
  insert_range-fits t to_row [] complete count tx = ground arith
  insert_range-fits t to_row (r ∷ rows) complete count tx =
      let row : Row F = to_row r in
      ground (
        arith,
        insert_range-fits t to_row rows complete (count + 1) (insert_row t row tx),
        fits_rows_insert t row (map to_row rows) tx,
      )

  pub import_rows-fits :
      (t : Table) (to_row : List String → List String → Row F) (f : Option CsvFile) (tx : Tables F)
      → is_ok (import_rows schema t to_row f tx)
        ≡ (is_readable f && fits_rows t (tx t) (file_rows to_row (some f)) tx)
  unfolding import_rows read_csv schema
  import_rows-fits t to_row none tx = refl
  import_rows-fits t to_row (some file) tx = elim (Option-cases file.header) [
    | inl h ↦ rw h refl
    | inr (header, h) ↦
        ground (arith, insert_range-fits t (to_row (strip_bom header)) file.rows file.complete 0 tx)
  ]

  module _ (conv : Conversions F) (sort : List (ShapePoint F) → List (ShapePoint F))
      (sorts : IsSorting sort) where
    insert_shapes-fits :
        (order : List String) (grouped : GoMap String (List (ShapePoint F)))
        (points : String → List (ShapePoint F)) (count : ℕ) (tx : Tables F)
        → ((id : String) → get_or (lookup id grouped) [] ≡ points id)
        → is_ok (insert_shapes schema conv sort order grouped count tx)
          ≡ fits_rows shapes (tx shapes) (shape_rows schema conv sort sorts order points) tx
    unfolding insert_shapes schema
    insert_shapes-fits [] grouped points count tx known = refl
    insert_shapes-fits (id ∷ order) grouped points count tx known =
        let row : Row F = shape id (line_string conv (sort (points id))) in
        let later = shape_rows schema conv sort sorts order points in
        elim (Option-cases (lookup id grouped)) [
          | inl h ↦
              let none_of : points id ≡ [] = sym (known id) ∙ ap (λ o. get_or o []) h in
              rw (h, none_of, insert_shapes)
                (insert_shapes-fits order grouped points count tx known)
          | inr (ps, h) ↦
              let same : ps ≡ points id = sym (ap (λ o. get_or o []) h) ∙ known id in
              let size : length (sort (points id)) ≡ length (points id) =
                length-sort sort sorts (points id) in
              ground (
                arith,
                same,
                size,
                insert_shapes-fits order grouped points count tx known,
                insert_shapes-fits order grouped points (count + 1) (insert_row shapes row tx)
                    known,
                fits_rows_insert shapes row later tx,
              )
        ]

    pub import_shapes-fits :
        (order : List String) (f : Option CsvFile) (tx : Tables F)
        → is_ok (import_shapes schema conv sort order f tx) ≡ (
            is_readable f
            && fits_rows shapes
                (tx shapes)
                (shape_rows schema conv sort sorts order
                  (file_points schema conv sort sorts (some f)))
                tx)
    unfolding import_shapes read_csv schema
    import_shapes-fits order none tx = refl
    import_shapes-fits order (some file) tx = elim (Option-cases file.header) [
      | inl h ↦ rw h refl
      | inr (header, h) ↦
          let answer =
            insert_shapes-fits order (group_range conv (strip_bom header) file.rows empty)
              (file_points schema conv sort sorts (some (some file))) 0 tx
              (λ id. rw h (
                unfold lookup in
                group_range-points_of conv (strip_bom header) id file.rows empty)) in
          ground (arith, answer)
    ]
