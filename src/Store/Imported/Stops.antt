-- ===== src/Store/Imported/Stops.antt =====
-- `GET /api/stops` behind an import: `handleListStops` (internal/api/handlers.go) and `ListStopsByBBox`
-- (internal/store/queries.go).
use mathlib.Core.List.{Permᴰ}
use public_transport_tracker.Base.{
  string_eq, ◌≡◌, ◌≢◌, ◌⊎◌, refl, subst, Bool, true, Option, none, some, List, [], ◌∷◌, String,
  All-Perm, is_some, length, arith, inl, inr,
}
use public_transport_tracker.Gtfs.{Row, stop, stops, Tables}
use public_transport_tracker.Gtfs.Csv.{CsvFile}
use public_transport_tracker.Gtfs.Rows.{Conversions}
use public_transport_tracker.Gtfs.Shapes.{ShapePoint}
use public_transport_tracker.Gtfs.Shapes.Group.{IsSorting}
use public_transport_tracker.Gtfs.Schema.{schema}
use public_transport_tracker.Gtfs.Importer.{import}
use public_transport_tracker.Api.Split.{Bytes, split}
use public_transport_tracker.Api.BBox.{Parses}
use public_transport_tracker.Api.Handlers.{ResponseWriter, Codec, write_json, handle_list_stops}
use public_transport_tracker.Api.Handlers.Responses.{handle_list_stops_lem}
use public_transport_tracker.Store.{Sql, GeoJsonFeature}
use public_transport_tracker.Store.Queries.{scan_stop}
use public_transport_tracker.Store.Answers.{Value, store_of, handle_list_stops-features}
use public_transport_tracker.Store.Select.{Ascends, select_where}
use public_transport_tracker.Store.Select.Scanned.{traverse, traverse-some, traverse-Scans}
use public_transport_tracker.Store.Select.Members.{All-Memᴰ, All-members, select_where-Memᴰ}
use public_transport_tracker.Store.Select.Stops.{
  PostGis, in_box, stop_columns, name_before, HoldsStops, stop_feature_of,
}
use public_transport_tracker.Store.Imported.Keys.{is_stop_row}
use public_transport_tracker.Store.Imported.Contents.{archive_rows, import-IsImported}

module _ {F : Type 0} (gis : PostGis F) where
  -- The stops whose place is in the box, each once, in ascending order of their names.
  pub record StopList (rows : Tables F) (text_before : String → String → Bool) (a b c d : F)
      (shown : List (GeoJsonFeature F)) : Type 0 where
    pub found : List (Row F)
    pub complete : Permᴰ found (select_where (in_box gis a b c d) (rows stops))
    pub ascends : Ascends (name_before gis text_before) found
    pub values : traverse (stop_feature_of gis) found ≡ some shown

  is_stop_row-stop_feature_of :
      (row : Row F) → is_stop_row row ≡ true → is_some (stop_feature_of gis row) ≡ true
  is_stop_row-stop_feature_of (stop _ _ _ _ _ _ _) h = refl
  is_stop_row-stop_feature_of _ h = absurd (ground arith)

  scan_stop-columns :
      (sql : Sql F) (text_before : String → String → Bool) (rows : Tables F)
      → HoldsStops gis sql text_before rows
      → (row : Row F) → scan_stop sql (stop_columns gis row) ≡ stop_feature_of gis row
  unfolding scan_stop
  scan_stop-columns sql text_before rows holds (stop i code name location_type _ lon lat) =
      simp (holds.strings, holds.ints) refl
  scan_stop-columns sql text_before rows holds _ = refl

  module _ (conv : Conversions F) (sort : List (ShapePoint F) → List (ShapePoint F))
      (sorts : IsSorting sort) (codec : Codec F (Value F)) (decode : Bytes → String)
      (encode : String → Bytes) where
    open codec use {parse_float}

    -- After an import that has succeeded, over a database with the keys of the schema, whatever it held
    -- before: a request for the stops in a box does not panic. If the parameter is four numbers, it is
    -- answered 200 with the records of stops.txt whose place is in this box, each once, in ascending
    -- order of their names; otherwise with 400.
    pub handle_list_stops-import :
        (order : List String) (entries : List (String × Option CsvFile)) (before : Tables F)
        (sql : Sql F) (text_before : String → String → Bool) (bbox : Bytes)
        → (import schema conv sort order (some entries) before).1 ≡ none
        → HoldsStops gis sql text_before (import schema conv sort order (some entries) before).0
        → let store = store_of sql decode encode in
          ((a : F) × (b : F) × (c : F) × (d : F) × Parses parse_float
              (split bbox 44)
              (a ∷ b ∷ c ∷ d ∷ [])
            × (shown : List (GeoJsonFeature F)) × StopList
                (archive_rows conv sort sorts order entries)
                text_before
                a
                b
                c
                d
                shown
            × (handle_list_stops codec store bbox
                ≡ some (
                    write_json codec store (some "application/geo+json") (
                      Value.collection (record { type = "FeatureCollection"; features = shown })))))
          ⊎ (((vs : List F) → Parses parse_float (split bbox 44) vs → length vs ≢ 4)
              × (response : ResponseWriter) × (handle_list_stops codec store bbox ≡ some response)
              × (response.status ≡ 400))
    handle_list_stops-import order entries before sql text_before bbox e holds =
        let (same, i) = import-IsImported conv sort sorts order entries before e in
        let rows = archive_rows conv sort sorts order entries in
        let holds' = subst (λ db. HoldsStops gis sql text_before db) same holds in
        let (response, answers, outcome) =
          handle_list_stops_lem codec (store_of sql decode encode) bbox in
        elim outcome [
          | inl (a, b, c, d, parses, status) ↦
              let answer = holds'.stops_in_box a b c d in
              let typed = All-members _ (select_where (in_box gis a b c d) (rows stops)) λ row m.
                let (there, h) = select_where-Memᴰ (in_box gis a b c d) (rows stops) row m in
                is_stop_row-stop_feature_of row (All-Memᴰ _ (rows stops) row i.stops_typed there) in
              let (shown, values) =
                traverse-some (stop_feature_of gis) answer.rows
                  (All-Perm _ answer.permutes typed) in
              inl (
                a,
                b,
                c,
                d,
                parses,
                shown,
                record {
                  found = answer.rows;
                  complete = answer.permutes;
                  ascends = answer.ascends;
                  values = values;
                },
                handle_list_stops-features sql codec decode encode bbox a b c d _ shown parses
                    answer.answer refl
                    (traverse-Scans (scan_stop sql) (stop_columns gis) (stop_feature_of gis)
                      answer.rows shown (scan_stop-columns sql text_before rows holds') values),
              )
          | inr (not_four, status) ↦ inr (not_four, response, answers, status)
        ]
