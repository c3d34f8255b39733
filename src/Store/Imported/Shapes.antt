-- ===== src/Store/Imported/Shapes.antt =====
-- `GET /api/routes/shapes` and `GET /api/routes/{id}/shape` behind an import: `handleGetAllShapes` and
-- `handleGetRouteShape` (internal/api/handlers.go), `GetAllRouteShapes` and `GetRouteShape`
-- (internal/store/queries.go).
use public_transport_tracker.Base.{
  string_eq, nat_eq, ◌≡◌, ◌⊎◌, refl, subst, Bool, true, false, Option, none, some, List, String,
  arith, Bool-cases, Option-cases, inl, inr,
}
use public_transport_tracker.Gtfs.{Tables}
use public_transport_tracker.Gtfs.Csv.{CsvFile}
use public_transport_tracker.Gtfs.Rows.{Conversions}
use public_transport_tracker.Gtfs.Shapes.{ShapePoint}
use public_transport_tracker.Gtfs.Shapes.Group.{IsSorting}
use public_transport_tracker.Gtfs.Schema.{schema}
use public_transport_tracker.Gtfs.Importer.{import}
use public_transport_tracker.Api.Split.{Bytes}
use public_transport_tracker.Api.Handlers.{
  Codec, http_error, write_json, handle_get_all_shapes, handle_get_route_shape,
}
use public_transport_tracker.Store.{Sql, GeoJsonFeature}
use public_transport_tracker.Store.Queries.{get_route_shape}
use public_transport_tracker.Store.Answers.{Value, store_of}
use public_transport_tracker.Store.Select.Shapes.{HoldsShapes}
use public_transport_tracker.Store.Imported.Contents.{archive_rows, import-IsImported}
use public_transport_tracker.Store.Imported.Geometry.{
  RouteShapes, LineOf, imported_shapes, imported_shape, no_shape_of,
}

module _ {F : Type 0} (conv : Conversions F) (sort : List (ShapePoint F) → List (ShapePoint F))
    (sorts : IsSorting sort) (codec : Codec F (Value F)) (decode : Bytes → String)
    (encode : String → Bytes) (as_geo_json : String → String) where
  -- After an import that has succeeded, over a database with the keys of the schema, whatever it held
  -- before: a request for all shapes is answered 200 with a collection in which each route that some
  -- record of trips.txt puts on a shape stands exactly once, and no other route, in ascending order of
  -- the IDs; each with the values of its record of routes.txt, `#` before the color of this record
  -- (also where it has none), and the line of the shape of one of its trips.
  pub handle_get_all_shapes-import :
      (order : List String) (entries : List (String × Option CsvFile)) (before : Tables F)
      (sql : Sql F) (takes : String → Bool) (text_before : String → String → Bool)
      → (import schema conv sort order (some entries) before).1 ≡ none
      → HoldsShapes as_geo_json sql takes text_before
          (import schema conv sort order (some entries) before).0
      → let store = store_of sql decode encode in
        (shown : List (GeoJsonFeature F)) × RouteShapes as_geo_json
          (archive_rows conv sort sorts order entries)
          text_before
          shown
        × (handle_get_all_shapes codec store
            ≡ write_json codec store
                (some "application/geo+json")
                (Value.collection (record { type = "FeatureCollection"; features = shown })))
  unfolding handle_get_all_shapes
  handle_get_all_shapes-import order entries before sql takes text_before e holds =
      let (same, i) = import-IsImported conv sort sorts order entries before e in
      let rows = archive_rows conv sort sorts order entries in
      let holds' = subst (λ db. HoldsShapes as_geo_json sql takes text_before db) same holds in
      let (shown, lines, answer) =
        imported_shapes as_geo_json sql takes text_before rows holds' i in
      (shown, lines, rw answer refl)

  -- And a request for the shape of a route is answered 200 with the line of the shape of one of the
  -- records of trips.txt that put the route on a shape, or 404 if there is no such record, or if the
  -- database does not take the ID.
  pub handle_get_route_shape-import :
      (order : List String) (entries : List (String × Option CsvFile)) (before : Tables F)
      (sql : Sql F) (takes : String → Bool) (text_before : String → String → Bool) (id : Bytes)
      → (import schema conv sort order (some entries) before).1 ≡ none
      → HoldsShapes as_geo_json sql takes text_before
          (import schema conv sort order (some entries) before).0
      → let store = store_of sql decode encode in
        ((takes (decode id) ≡ true)
          × (found : Option String) × LineOf as_geo_json
              (archive_rows conv sort sorts order entries)
              (decode id)
              found
          × (handle_get_route_shape codec store id ≡ elim found [
            | none ↦ http_error codec store "not found" 404
            | some line ↦ record {
              status = 200;
              content_type = "application/geo+json";
              body = encode line;
            }
          ]))
        ⊎ ((takes (decode id) ≡ false)
            × (handle_get_route_shape codec store id ≡ http_error codec store "not found" 404))
  unfolding handle_get_route_shape
  handle_get_route_shape-import order entries before sql takes text_before id e holds =
      let (same, i) = import-IsImported conv sort sorts order entries before e in
      let rows = archive_rows conv sort sorts order entries in
      let holds' = subst (λ db. HoldsShapes as_geo_json sql takes text_before db) same holds in
      elim (Bool-cases (takes (decode id))) [
        | inr refused ↦
            let answer =
              no_shape_of as_geo_json sql takes text_before rows holds' i (decode id) refused in
            inr (refused, rw (answer, handle_get_route_shape) refl)
        | inl taken ↦ inl (
          taken,
          get_route_shape sql (decode id),
          imported_shape as_geo_json sql takes text_before rows holds' i (decode id) taken,
          elim (Option-cases (get_route_shape sql (decode id))) [
            | inl k ↦ ground arith
            | inr (value, k) ↦ ground arith
          ],
        )
      ]
