-- ===== src/Store/Imported/Routes.antt =====
-- `GET /api/routes` and `GET /api/routes/{id}` behind an import: `handleListRoutes` and `handleGetRoute`
-- (internal/api/handlers.go), `ListRoutes` and `GetRoute` (internal/store/queries.go).
use public_transport_tracker.Base.{
  string_eq, ◌≡◌, ◌⊎◌, refl, subst, Bool, true, false, Option, none, some, List, [], ◌∷◌, String,
  arith, Bool-cases, Option-cases, inl, inr,
}
use public_transport_tracker.Base.Int.{ℤ}
use public_transport_tracker.Gtfs.{Tables}
use public_transport_tracker.Gtfs.Csv.{CsvFile}
use public_transport_tracker.Gtfs.Rows.{Conversions}
use public_transport_tracker.Gtfs.Shapes.{ShapePoint}
use public_transport_tracker.Gtfs.Shapes.Group.{IsSorting}
use public_transport_tracker.Gtfs.Schema.{schema}
use public_transport_tracker.Gtfs.Importer.{import}
use public_transport_tracker.Api.Split.{Bytes}
use public_transport_tracker.Api.Handlers.{
  Codec, http_error, write_json, list_routes_of, handle_list_routes, handle_get_route,
}
use public_transport_tracker.Store.{Sql, Route}
use public_transport_tracker.Store.Queries.{get_route}
use public_transport_tracker.Store.Answers.{Value, store_of}
use public_transport_tracker.Store.Select.{Holds}
use public_transport_tracker.Store.Imported.Contents.{archive_rows, import-IsImported}
use public_transport_tracker.Store.Imported.Listing.{
  is_type, RouteList, Finds, imported_routes, imported_route, no_routes, no_route_of,
}

module _ {F : Type 0} (codec : Codec F (Value F)) where
  open codec use {atoi}

  -- The parameter `type`: absent, a number, or `none`.
  abbrev pub type_of : Bytes → Option (Option ℤ)
  type_of [] = some none
  type_of (b ∷ type) = elim (atoi (b ∷ type)) [ none ↦ none | some t ↦ some (some t) ]

module _ {F : Type 0} (conv : Conversions F) (sort : List (ShapePoint F) → List (ShapePoint F))
    (sorts : IsSorting sort) (codec : Codec F (Value F)) (decode : Bytes → String)
    (encode : String → Bytes) where
  routes_behind :
      (order : List String) (entries : List (String × Option CsvFile)) (before : Tables F)
      (sql : Sql F) (takes : String → Bool) (text_before : String → String → Bool)
      → (import schema conv sort order (some entries) before).1 ≡ none
      → Holds sql takes text_before (import schema conv sort order (some entries) before).0
      → (t : Option ℤ)
      → let store = store_of sql decode encode in
        ((is_type t ≡ true)
          × (shown : List Route) × RouteList
              (archive_rows conv sort sorts order entries)
              text_before
              t
              shown
          × (list_routes_of codec store t ≡ write_json codec store none (Value.routes shown)))
        ⊎ ((is_type t ≡ false)
            × (list_routes_of codec store t ≡ http_error codec store "internal error" 500))
  unfolding list_routes_of
  routes_behind order entries before sql takes text_before e holds t =
      let (same, i) = import-IsImported conv sort sorts order entries before e in
      let rows = archive_rows conv sort sorts order entries in
      let holds' = subst (λ db. Holds sql takes text_before db) same holds in
      elim (Bool-cases (is_type t)) [
        | inl fits ↦
            let (shown, listed, answer) =
              imported_routes sql takes text_before rows holds' i t fits in
            inl (fits, shown, listed, rw (answer, list_routes_of) refl)
        | inr outside ↦
            let answer = no_routes sql takes text_before rows holds' i t outside in
            inr (outside, rw (answer, list_routes_of) refl)
      ]

  -- After an import that has succeeded, over a database with the keys of the schema, whatever it held
  -- before: a request for the routes is answered 200 with the records of routes.txt, of the type that
  -- the parameter names if it names one, each once, in ascending order of their numbers and names; or
  -- 400 if the parameter is not a number; or 500 if it is a number outside the INTEGER column.
  pub handle_list_routes-import :
      (order : List String) (entries : List (String × Option CsvFile)) (before : Tables F)
      (sql : Sql F) (takes : String → Bool) (text_before : String → String → Bool) (type : Bytes)
      → (import schema conv sort order (some entries) before).1 ≡ none
      → Holds sql takes text_before (import schema conv sort order (some entries) before).0
      → let store = store_of sql decode encode in
        let answer = handle_list_routes codec store type in
        ((type_of codec type ≡ none)
          × (answer ≡ http_error codec store "invalid type parameter" 400))
        ⊎ ((t : Option ℤ) × (type_of codec type ≡ some t)
            × (((is_type t ≡ true)
                  × (shown : List Route) × RouteList
                      (archive_rows conv sort sorts order entries)
                      text_before
                      t
                      shown
                  × (answer ≡ write_json codec store none (Value.routes shown)))
                ⊎ ((is_type t ≡ false) × (answer ≡ http_error codec store "internal error" 500))))
  unfolding handle_list_routes
  handle_list_routes-import order entries before sql takes text_before [] e holds =
      inr (none, refl, routes_behind order entries before sql takes text_before e holds none)
  handle_list_routes-import order entries before sql takes text_before (b ∷ type) e holds =
      elim (Option-cases (codec.atoi (b ∷ type))) [
        | inl a ↦ inl (ground arith, ground arith)
        | inr (t, a) ↦ inr (
          some t,
          ground arith,
          rw (a, handle_list_routes)
              (routes_behind order entries before sql takes text_before e holds (some t)),
        )
      ]

  -- And a request for one route is answered 200 with the only record of routes.txt that has the ID, or
  -- 404 if there is none, or if the database does not take the ID.
  pub handle_get_route-import :
      (order : List String) (entries : List (String × Option CsvFile)) (before : Tables F)
      (sql : Sql F) (takes : String → Bool) (text_before : String → String → Bool) (id : Bytes)
      → (import schema conv sort order (some entries) before).1 ≡ none
      → Holds sql takes text_before (import schema conv sort order (some entries) before).0
      → let store = store_of sql decode encode in
        ((takes (decode id) ≡ true)
          × (found : Option Route) × Finds
              (archive_rows conv sort sorts order entries)
              (decode id)
              found
          × (handle_get_route codec store id ≡ elim found [
            | none ↦ http_error codec store "not found" 404
            | some value ↦ write_json codec store none (Value.route value)
          ]))
        ⊎ ((takes (decode id) ≡ false)
            × (handle_get_route codec store id ≡ http_error codec store "not found" 404))
  unfolding handle_get_route
  handle_get_route-import order entries before sql takes text_before id e holds =
      let (same, i) = import-IsImported conv sort sorts order entries before e in
      let rows = archive_rows conv sort sorts order entries in
      let holds' = subst (λ db. Holds sql takes text_before db) same holds in
      elim (Bool-cases (takes (decode id))) [
        | inr refused ↦
            let answer = no_route_of sql takes text_before rows holds' i (decode id) refused in
            inr (refused, rw (answer, handle_get_route) refl)
        | inl taken ↦ inl (
          taken,
          get_route sql (decode id),
          imported_route sql takes text_before rows holds' i (decode id) taken,
          elim (Option-cases (get_route sql (decode id))) [
            | inl k ↦ ground arith
            | inr (value, k) ↦ ground arith
          ],
        )
      ]
