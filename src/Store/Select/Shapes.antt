-- ===== src/Store/Select/Shapes.antt =====
-- internal/store/queries.go: what the SQL texts of the shapes select from the tables that the importer
-- fills, and a database that answers them so.
use mathlib.Core.List.{Memᴰ}
use Prim.Native.String.{◌++◌ as ◌+s◌}
use public_transport_tracker.Base.{
  string_eq, ◌≡◌, Bool, true, false, Option, none, some, List, [], ◌∷◌, map, String, All, ◌==◌,
  length,
}
use public_transport_tracker.Base.Int.{ℤ}
use public_transport_tracker.Gtfs.{Row, route, shape, trip, routes, trips, shapes, Tables}
use public_transport_tracker.Store.{
  Column, text, number, Sql, string, int, GeoJsonFeature, route_type_name,
}
use public_transport_tracker.Store.Queries.{all_shapes_text, route_shape_text}
use public_transport_tracker.Store.Select.{select_where, join_on, Ascends, is_route}

-- SELECT DISTINCT ON: of the rows selected, one for each key, in an order that the text asks for.
abbrev pub OneEach : {A : Type 0} → (A → A → Bool) → List A → List A → Type 0
OneEach same selected rows =
    All (λ a. Memᴰ a selected) rows × All (λ a. length (select_where (same a) rows) ≡ 1) selected

-- LIMIT 1: any of the rows selected, or none if there is none.
pub data FirstOf {A : Type 0} (selected : List A) : List A → Type 0 where
  no_first : selected ≡ [] → FirstOf selected []
  a_first : (a : A) → Memᴰ a selected → FirstOf selected (a ∷ [])

-- A route, a trip of it and the shape of the trip.
abbrev pub RouteLine : Type 0 → Type 0
RouteLine F = (Row F × Row F) × Row F

module _ {F : Type 0} where
  -- t.route_id = $1
  abbrev pub runs_on : String → Row F → Bool
  runs_on id (trip _ r _ _ _ _ _) = r == id
  runs_on id _ = false

  -- t.route_id = r.route_id
  abbrev pub of_route : Row F → Row F → Bool
  of_route (route i _ _ _ _ _ _ _) t = runs_on i t
  of_route _ t = false

  abbrev pub is_shape : String → Row F → Bool
  is_shape id (shape i _) = i == id
  is_shape id _ = false

  -- s.shape_id = t.shape_id, which NULL does not meet.
  abbrev pub has_shape : Row F → Row F → Bool
  has_shape (trip _ _ _ _ _ _ (some id)) s = is_shape id s
  has_shape _ s = false

  abbrev pub route_lines : Tables F → List (RouteLine F)
  route_lines db =
      join_on (λ (p : Row F × Row F) s. has_shape p.1 s) (join_on of_route (db routes) (db trips))
        (db shapes)

  -- DISTINCT ON (r.route_id)
  abbrev pub same_route : RouteLine F → RouteLine F → Bool
  same_route ((route i _ _ _ _ _ _ _, t), s) q = is_route i q.0.0
  same_route _ q = false

  -- ORDER BY r.route_id
  abbrev pub route_id_before : (String → String → Bool) → RouteLine F → RouteLine F → Bool
  route_id_before text_before ((route i _ _ _ _ _ _ _, _), _) ((route j _ _ _ _ _ _ _, _), _) =
      text_before i j
  route_id_before text_before _ _ = false

  -- FROM shapes JOIN trips … WHERE t.route_id = $1
  abbrev pub lines_of : String → Tables F → List (Row F × Row F)
  lines_of id db =
      select_where (λ p. runs_on id p.1) (join_on (λ s t. has_shape t s) (db shapes) (db trips))

  module _ (as_geo_json : String → String) where
    -- The SELECT list; no color is NULL.
    abbrev pub line_columns : RouteLine F → List (Column F)
    line_columns ((route i _ s l t c _ _, _), shape _ line) =
        text i ∷ text s ∷ text l ∷ number t ∷ text c ∷ text (as_geo_json line) ∷ []
    line_columns _ = []

    abbrev pub shape_columns : Row F × Row F → List (Column F)
    shape_columns (shape _ line, t) = text (as_geo_json line) ∷ []
    shape_columns _ = []

    -- A database with these tables, as its answers to the queries for the shapes show it (see `Holds`); `as_geo_json`
    -- is `ST_AsGeoJSON` of the text of a geometry.
    pub record HoldsShapes (sql : Sql F) (takes : String → Bool)
        (text_before : String → String → Bool) (db : Tables F) : Type 0 where
      pub strings : (s : String) → sql.scan_string (text s) ≡ some s
      pub ints : (n : ℤ) → sql.scan_int (number n) ≡ some n
      pub lines : List (RouteLine F)
      pub distinct : OneEach same_route (route_lines db) lines
      pub ascends : Ascends (route_id_before text_before) lines
      pub all_shapes :
          sql.query all_shapes_text []
          ≡ some (record { items = map line_columns lines; failed = false })
      pub route_shape :
          (id : String)
          → takes id ≡ true
          → (first : List (Row F × Row F)) × FirstOf (lines_of id db) first
            × (sql.query route_shape_text (text id ∷ [])
                ≡ some (record { items = map shape_columns first; failed = false }))
      pub no_shape_text :
          (id : String) → takes id ≡ false → sql.query route_shape_text (text id ∷ []) ≡ none

    -- The row as the program's value: the color is that of the record, none included.
    abbrev pub feature_of : RouteLine F → Option (GeoJsonFeature F)
    feature_of ((route i _ s l t c _ _, _), shape _ line) = some (record {
      type = "Feature";
      properties =
          ("route_id", string i)
          ∷ ("short_name", string s)
          ∷ ("long_name", string l)
          ∷ ("route_type", int t)
          ∷ ("modality", string (route_type_name t))
          ∷ ("color", string ("#" +s c))
          ∷ [];
      geometry = as_geo_json line;
    })
    feature_of _ = none

    abbrev pub geometry_of : Row F × Row F → Option String
    geometry_of (shape _ line, t) = some (as_geo_json line)
    geometry_of _ = none
