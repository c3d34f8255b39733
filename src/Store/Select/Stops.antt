-- ===== src/Store/Select/Stops.antt =====
-- internal/store/queries.go: what the SQL text of the stops in a box selects from the table that the
-- importer fills, and a database that answers it so.
use public_transport_tracker.Base.{
  string_eq, ◌≡◌, Bool, false, Option, none, some, List, [], ◌∷◌, String,
}
use public_transport_tracker.Base.Int.{ℤ}
use public_transport_tracker.Gtfs.{Row, stop, stops, Tables}
use public_transport_tracker.Store.{Column, text, number, real, Sql, string, int, GeoJsonFeature}
use public_transport_tracker.Store.Queries.{stops_text}
use public_transport_tracker.Store.Select.{select_where, Answers}

-- `geom && ST_MakeEnvelope(…)` of a longitude and a latitude, behind the four numbers of the box, and
-- `ST_AsGeoJSON` of the point.
pub record PostGis (F : Type 0) : Type 0 where
  pub overlaps : F → F → F → F → F → F → Bool
  pub point_json : F → F → String

module _ {F : Type 0} (gis : PostGis F) where
  open gis use {overlaps, point_json}

  -- WHERE
  abbrev pub in_box : F → F → F → F → Row F → Bool
  in_box a b c d (stop _ _ _ _ _ lon lat) = overlaps a b c d lon lat
  in_box a b c d _ = false

  -- The SELECT list; no code is NULL.
  abbrev pub stop_columns : Row F → List (Column F)
  stop_columns (stop i code name location_type _ lon lat) =
      text i ∷ text name ∷ text code ∷ number location_type ∷ text (point_json lon lat) ∷ []
  stop_columns _ = []

  -- ORDER BY stop_name
  abbrev pub name_before : (String → String → Bool) → Row F → Row F → Bool
  name_before text_before (stop _ _ m _ _ _ _) (stop _ _ n _ _ _ _) = text_before m n
  name_before text_before _ _ = false

  -- A database with these tables, as its answers to the query for the stops show it.
  pub record HoldsStops (sql : Sql F) (text_before : String → String → Bool) (db : Tables F)
      : Type 0 where
    pub strings : (s : String) → sql.scan_string (text s) ≡ some s
    pub ints : (n : ℤ) → sql.scan_int (number n) ≡ some n
    pub stops_in_box :
        (a b c d : F)
        → Answers sql stops_text
            (real a ∷ real b ∷ real c ∷ real d ∷ [])
            stop_columns
            (select_where (in_box a b c d) (db stops))
            (name_before text_before)

  -- The row as the program's value.
  abbrev pub stop_feature_of : Row F → Option (GeoJsonFeature F)
  stop_feature_of (stop i code name location_type _ lon lat) = some (record {
    type = "Feature";
    properties =
        ("stop_id", string i)
        ∷ ("stop_name", string name)
        ∷ ("stop_code", string code)
        ∷ ("location_type", int location_type)
        ∷ [];
    geometry = point_json lon lat;
  })
  stop_feature_of _ = none
