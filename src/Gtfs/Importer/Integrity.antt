-- ===== src/Gtfs/Importer/Integrity.antt =====
-- Which archives are imported into a database with the schema.
use mathlib.Core.Path.{fun_ext}
use public_transport_tracker.Base.{
  string_eq, nat_eq, ◌≡◌, ◌↔◌, refl, sym, ap, ◌∙◌, Bool, true, false, ◌&&◌, Option, none, some,
  List, [], ◌∷◌, String, All, arith, append-nil, inl, inr,
}
use public_transport_tracker.GoMap.{GoMap, empty}
use public_transport_tracker.Gtfs.{
  table_eq, Table, agencies, routes, stops, shapes, trips, stop_times, calendar, calendar_dates,
  Tables,
}
use public_transport_tracker.Gtfs.Csv.{CsvFile}
use public_transport_tracker.Gtfs.Rows.{Conversions}
use public_transport_tracker.Gtfs.Shapes.{ShapePoint}
use public_transport_tracker.Gtfs.Shapes.Group.{IsSorting}
use public_transport_tracker.Gtfs.Schema.{schema, referring, all_empty, fits_rows}
use public_transport_tracker.Gtfs.Importer.{
  ImportError, Result, ok, err, importers, import_range, index_files, in_transaction, import,
}
use public_transport_tracker.Gtfs.Importer.Loops.{Result-cases}
use public_transport_tracker.Gtfs.Importer.Cleared.{delete_range-cleared}
use public_transport_tracker.Gtfs.Importer.Deletions.{DeletesUnreferenced, delete_range_clears}
use public_transport_tracker.Gtfs.Importer.Import.{file_specs, importers-AllCover, table_rows}
use public_transport_tracker.Gtfs.Importer.Chain.{
  AllSucceed, Lined, all_fit, import_range-chain, chain-all_fit,
}
use public_transport_tracker.Gtfs.Importer.Success.{is_ok, is_importable}
use public_transport_tracker.Gtfs.Importer.Inserts.{import_rows-fits, import_shapes-fits}

module _ {F : Type 0} where
  all_empty_of_All :
      (tables : List Table) (db : Tables F)
      → All (λ u. db u ≡ []) tables
      → all_empty tables db ≡ true
  all_empty_of_All [] db h = refl
  all_empty_of_All (t ∷ tables) db (here, h) = ground (arith, all_empty_of_All tables db h)

  pub schema-DeletesUnreferenced : DeletesUnreferenced (schema {F = F})
  unfolding schema
  schema-DeletesUnreferenced t db h = all_empty_of_All (referring t) db h

module _ {F : Type 0} (conv : Conversions F) (sort : List (ShapePoint F) → List (ShapePoint F))
    (sorts : IsSorting sort) where
  importers-AllSucceed :
      (order : List String)
      → AllSucceed conv sort sorts
          (importers schema conv sort order)
          (file_specs schema conv sort sorts order)
  unfolding importers
  importers-AllSucceed order = (
    import_rows-fits _ _,
    (
      import_rows-fits _ _,
      (
        import_rows-fits _ _,
        (
          import_shapes-fits conv sort sorts order,
          (
            import_rows-fits _ _,
            (import_rows-fits _ _, (import_rows-fits _ _, (import_rows-fits _ _, tt))),
          ),
        ),
      ),
    ),
  )

  importers-Lined :
      (order : List String) (files : GoMap String (Option CsvFile))
      → Lined conv sort sorts files
          (importers schema conv sort order)
          (file_specs schema conv sort sorts order)
          (λ u. [])
          (table_rows schema conv sort sorts order files)
  unfolding importers Lined
  importers-Lined order files = (
    refl,
    tt,
    (
      refl,
      (refl, tt),
      (
        refl,
        tt,
        (
          refl,
          tt,
          (
            refl,
            (simp append-nil refl, (refl, tt)),
            (refl, (refl, (simp append-nil refl, tt)), (refl, tt, (refl, tt, tt))),
          ),
        ),
      ),
    ),
  )

  -- The files that the importer knows: whether each must be there, its name, and its table.
  abbrev pub known_tables : List (Bool × (String × Table))
  known_tables =
      (true, ("agency.txt", agencies))
      ∷ (true, ("routes.txt", routes))
      ∷ (true, ("stops.txt", stops))
      ∷ (false, ("shapes.txt", shapes))
      ∷ (true, ("trips.txt", trips))
      ∷ (true, ("stop_times.txt", stop_times))
      ∷ (false, ("calendar.txt", calendar))
      ∷ (false, ("calendar_dates.txt", calendar_dates))
      ∷ []

  -- Each file can be imported, and its rows fit the rows of all files.
  abbrev pub are_consistent :
      List (Bool × (String × Table)) → GoMap String (Option CsvFile) → Tables F → Bool
  are_consistent [] files rows = true
  are_consistent ((req, (name, t)) ∷ known) files rows =
      is_importable req name files
      && (fits_rows t [] (rows t) rows && are_consistent known files rows)

  abbrev pub is_consistent : List String → Option (List (String × Option CsvFile)) → Bool
  is_consistent order none = false
  is_consistent order (some entries) =
      let files = index_files schema conv sort entries empty in
      are_consistent known_tables files (table_rows schema conv sort sorts order files)

  importers-consistent :
      (order : List String) (files : GoMap String (Option CsvFile))
      → is_ok (import_range schema conv sort (importers schema conv sort order) files (λ u. []))
        ≡ are_consistent known_tables files (table_rows schema conv sort sorts order files)
  importers-consistent order files =
      import_range-chain conv sort sorts files (importers schema conv sort order)
        (file_specs schema conv sort sorts order) (λ u. [])
        (importers-AllCover schema conv sort sorts order) (importers-AllSucceed order)
      ∙ chain-all_fit conv sort sorts files (importers schema conv sort order)
          (file_specs schema conv sort sorts order) (λ u. [])
          (table_rows schema conv sort sorts order files) (importers-Lined order files)
      ∙ unfold importers all_fit in refl

  in_transaction-consistent :
      (order : List String) (files : GoMap String (Option CsvFile)) (db : Tables F)
      → is_ok (in_transaction schema conv sort order files db)
        ≡ are_consistent known_tables files (table_rows schema conv sort sorts order files)
  unfolding in_transaction
  in_transaction-consistent order files db =
      let (tx, e) = delete_range_clears schema conv sort schema-DeletesUnreferenced db in
      let cleared : tx ≡ (λ u. []) = fun_ext (delete_range-cleared schema conv sort db tx e) in
      ap
        (λ r.
          is_ok {F = F} {E = ImportError} {A = Unit} (elim r as (λ s. Result F ImportError Unit) [
            | err x ↦ err x
            | ok u tx' ↦ import_range schema conv sort (importers schema conv sort order) files tx'
          ]))
        e
      ∙ ap (λ t. is_ok (import_range schema conv sort (importers schema conv sort order) files t))
          cleared
      ∙ importers-consistent order files

  -- Over a database that checks the primary and the foreign keys and the INTEGER columns of the schema,
  -- an import succeeds exactly if the archive is consistent: it opens, its five required files are
  -- there, each of the eight files that is there can be read to its end, no two rows of a table have
  -- the same key, every integer has 32 bits, every stop has its parent before it or is its own, and
  -- every other reference is to a row of the archive. What the tables held before does not matter.
  pub import-consistent :
      (order : List String) (zip : Option (List (String × Option CsvFile))) (db : Tables F)
      → ((import schema conv sort order zip db).1 ≡ none) ↔ (is_consistent order zip ≡ true)
  unfolding import schema
  import-consistent order none db = (λ e. ground arith, λ e. ground arith)
  import-consistent order (some entries) db =
      let files = index_files schema conv sort entries empty in
      let answer = in_transaction-consistent order files db in
      elim (Result-cases (in_transaction schema conv sort order files db)) [
        | inl (x, tx, h) ↦ (λ e. sym answer ∙ ap is_ok h, λ e. rw h refl)
        | inr (bad, h) ↦ (λ e. absurd (ground arith), λ e. absurd (ground (arith, answer)))
      ]
