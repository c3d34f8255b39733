-- ===== src/Gtfs/Importer/Chain.antt =====
-- The loop over the importers, over a database with the schema: when each file's turn
-- comes, the tables that its rows refer to are complete.
use mathlib.Core.Path.{fun_ext}
use public_transport_tracker.Base.{
  string_eq, nat_eq, ◌≡◌, refl, sym, ap, ◌∙◌, Bool, true, false, ◌&&◌, Option, some, List, [], ◌∷◌,
  ◌++◌, String, All, arith, append-nil, Option-cases, inl, inr,
}
use public_transport_tracker.GoMap.{GoMap, lookup}
use public_transport_tracker.Gtfs.{table_eq, Table, Row, Tables}
use public_transport_tracker.Gtfs.Csv.{CsvFile}
use public_transport_tracker.Gtfs.Rows.{Conversions}
use public_transport_tracker.Gtfs.Shapes.{ShapePoint}
use public_transport_tracker.Gtfs.Shapes.Group.{IsSorting}
use public_transport_tracker.Gtfs.Schema.{schema, fits_rows}
use public_transport_tracker.Gtfs.Importer.{FileImporter, import_range}
use public_transport_tracker.Gtfs.Importer.Loops.{Result-cases, rows_for}
use public_transport_tracker.Gtfs.Importer.Import.{FileRows, AllCover, rows_for-nil}
use public_transport_tracker.Gtfs.Importer.Success.{is_ok, is_readable, is_importable}
use public_transport_tracker.Gtfs.Importer.Inserts.{parents, fits_rows-parents}

module _ {F : Type 0} where
  -- The tables with rows added to one of them.
  abbrev pub extend : Table → List (Row F) → Tables F → Tables F
  extend t rows tx u = tx u ++ rows_for t u rows

module _ {F : Type 0} (conv : Conversions F) (sort : List (ShapePoint F) → List (ShapePoint F))
    (sorts : IsSorting sort) where
  abbrev pub Imp : Type 0
  Imp = FileImporter (schema {F = F}) conv sort

  abbrev pub Spec : Type 0
  Spec = FileRows (schema {F = F}) conv sort sorts

  extend-nil : (t : Table) (tx : Tables F) → extend t [] tx ≡ tx
  extend-nil t tx =
      fun_ext λ u. ap (λ l. tx u ++ l) (rows_for-nil schema conv sort sorts t u) ∙ append-nil (tx u)

  -- The importer of a file succeeds exactly on readable entries whose rows fit.
  abbrev pub Succeeds : Imp → Spec → Type 0
  Succeeds imp spec =
      (f : Option CsvFile) (tx : Tables F)
      → is_ok (imp.fn f tx)
        ≡ (is_readable f && fits_rows spec.table (tx spec.table) (spec.rows (some f)) tx)

  abbrev pub AllSucceed : List Imp → List Spec → Type 0
  AllSucceed [] specs = Unit
  AllSucceed (imp ∷ imps) [] = ⊥
  AllSucceed (imp ∷ imps) (spec ∷ specs) = Succeeds imp spec × AllSucceed imps specs

  module _ (files : GoMap String (Option CsvFile)) where
    -- Each file can be imported, and its rows fit the tables as the files before it leave them.
    unfoldable pub chain : List Imp → List Spec → Tables F → Bool
    chain (imp ∷ imps) (spec ∷ specs) tx =
        let rows = spec.rows (lookup imp.file files) in
        is_importable imp.req imp.file files
        && (fits_rows spec.table (tx spec.table) rows tx
            && chain imps specs (extend spec.table rows tx))
    chain _ _ tx = true

    pub import_range-chain :
        (imps : List Imp) (specs : List Spec) (tx : Tables F)
        → AllCover schema conv sort sorts imps specs
        → AllSucceed imps specs
        → is_ok (import_range schema conv sort imps files tx) ≡ chain imps specs tx
    unfolding import_range chain
    import_range-chain [] specs tx covers succeeds = refl
    import_range-chain (imp ∷ imps) [] tx covers succeeds = absurd covers
    import_range-chain (imp ∷ imps) (spec ∷ specs) tx (covers, cs) (succeeds, ss) =
        elim (Option-cases (lookup imp.file files)) [
          | inl missing ↦
              let same : extend spec.table (spec.rows (lookup imp.file files)) tx ≡ tx =
                ap (λ o. extend spec.table (spec.rows o) tx) missing
                ∙ ap (λ rows. extend spec.table rows tx) covers.absent
                ∙ extend-nil spec.table tx in
              let none_to_fit : fits_rows spec.table (tx spec.table)
                    (spec.rows (lookup imp.file files)) tx
                  ≡ true =
                ap (λ o. fits_rows spec.table (tx spec.table) (spec.rows o) tx) missing
                ∙ ap (λ rows. fits_rows spec.table (tx spec.table) rows tx) covers.absent in
              let rest : is_ok (import_range schema conv sort imps files tx)
                  ≡ chain imps specs (extend spec.table (spec.rows (lookup imp.file files)) tx) =
                import_range-chain imps specs tx cs ss ∙ ap (chain imps specs) (sym same) in
              ground (arith, none_to_fit, rest)
          | inr (f, found) ↦ elim (Result-cases (imp.fn f tx)) [
            | inl (n, tx', h) ↦
                let same : tx' ≡ extend spec.table (spec.rows (lookup imp.file files)) tx =
                  fun_ext (covers.adds f tx n tx' h)
                  ∙ ap (λ o. extend spec.table (spec.rows o) tx) (sym found) in
                let fits : (is_readable f
                      && fits_rows spec.table (tx spec.table) (spec.rows (lookup imp.file files))
                          tx)
                    ≡ true =
                  ap (λ o. is_readable f && fits_rows spec.table (tx spec.table) (spec.rows o) tx)
                    found
                  ∙ sym (succeeds f tx)
                  ∙ ap is_ok h in
                let rest : is_ok (import_range schema conv sort imps files tx')
                    ≡ chain imps specs (extend spec.table (spec.rows (lookup imp.file files)) tx) =
                  import_range-chain imps specs tx' cs ss ∙ ap (chain imps specs) same in
                ground (arith, fits, rest)
            | inr (bad, h) ↦
                let misfits : (is_readable f
                      && fits_rows spec.table (tx spec.table) (spec.rows (lookup imp.file files))
                          tx)
                    ≡ false =
                  ap (λ o. is_readable f && fits_rows spec.table (tx spec.table) (spec.rows o) tx)
                    found
                  ∙ sym (succeeds f tx)
                  ∙ ap is_ok h in
                ground (arith, misfits)
          ]
        ]

    -- Where a table gets its rows it is empty, and the tables that it refers to are complete.
    unfoldable pub Lined : List Imp → List Spec → (tx final : Tables F) → Type 0
    Lined (imp ∷ imps) (spec ∷ specs) tx final =
        (tx spec.table ≡ [])
        × All (λ u. tx u ≡ final u) (parents spec.table)
        × Lined imps specs (extend spec.table (spec.rows (lookup imp.file files)) tx) final
    Lined _ _ tx final = Unit

    -- Each file can be imported, and its rows fit the complete tables.
    unfoldable pub all_fit : List Imp → List Spec → Tables F → Bool
    all_fit (imp ∷ imps) (spec ∷ specs) final =
        is_importable imp.req imp.file files
        && (fits_rows spec.table [] (spec.rows (lookup imp.file files)) final
            && all_fit imps specs final)
    all_fit _ _ final = true

    pub chain-all_fit :
        (imps : List Imp) (specs : List Spec) (tx final : Tables F)
        → Lined imps specs tx final
        → chain imps specs tx ≡ all_fit imps specs final
    unfolding chain all_fit Lined
    chain-all_fit [] specs tx final lined = refl
    chain-all_fit (imp ∷ imps) [] tx final lined = refl
    chain-all_fit (imp ∷ imps) (spec ∷ specs) tx final (new, whole, lined) =
        let rows = spec.rows (lookup imp.file files) in
        let rest = chain-all_fit imps specs (extend spec.table rows tx) final lined in
        let fits : fits_rows spec.table (tx spec.table) rows tx
            ≡ fits_rows spec.table [] rows final =
          ap (λ b. fits_rows spec.table b rows tx) new
          ∙ fits_rows-parents spec.table [] rows tx final whole in
        ground (arith, rest, fits)
