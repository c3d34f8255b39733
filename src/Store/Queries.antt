-- ===== src/Store/Queries.antt =====
-- internal/store/queries.go, one function per query. The white space of the SQL texts is reduced to
-- single spaces. `none` is an error.
use Prim.Native.String.{◌++◌ as ◌+s◌}
use public_transport_tracker.Base.{Bool, true, false, Option, none, some, List, [], ◌∷◌, String}
use public_transport_tracker.Base.Int.{ℤ}
use public_transport_tracker.Store.{
  Column, text, number, real, Rows, Sql, Route, Property, string, int, float, GeoJsonFeature,
  GeoJsonCollection, route_type_name, scan_query, scan_first, bind,
}

abbrev pub select_route : String
select_route =
    "SELECT route_id, COALESCE(agency_id,''), short_name, long_name, route_type, COALESCE(color,''), COALESCE(text_color,''), sort_order FROM routes"

abbrev pub routes_text : String
routes_text = select_route +s " ORDER BY sort_order, short_name"

abbrev pub routes_of_type_text : String
routes_of_type_text =
    select_route +s (" WHERE route_type = $1" +s " ORDER BY sort_order, short_name")

abbrev pub route_text : String
route_text = select_route +s " WHERE route_id = $1"

abbrev pub route_shape_text : String
route_shape_text =
    "SELECT ST_AsGeoJSON(s.geom) FROM shapes s JOIN trips t ON t.shape_id = s.shape_id WHERE t.route_id = $1 LIMIT 1"

abbrev pub all_shapes_text : String
all_shapes_text =
    "SELECT DISTINCT ON (r.route_id) r.route_id, r.short_name, r.long_name, r.route_type, COALESCE(r.color, '000000'), ST_AsGeoJSON(s.geom) FROM routes r JOIN trips t ON t.route_id = r.route_id JOIN shapes s ON s.shape_id = t.shape_id ORDER BY r.route_id"

abbrev pub stops_text : String
stops_text =
    "SELECT stop_id, stop_name, COALESCE(stop_code, ''), location_type, ST_AsGeoJSON(geom) FROM stops WHERE geom && ST_MakeEnvelope($1, $2, $3, $4, 4326) ORDER BY stop_name"

abbrev pub stop_times_text : String
stop_times_text =
    "SELECT st.stop_sequence, st.arrival_time, st.departure_time, s.stop_id, s.stop_name, ST_Y(s.geom) as lat, ST_X(s.geom) as lon FROM stop_times st JOIN stops s ON s.stop_id = st.stop_id WHERE st.trip_id = $1 ORDER BY st.stop_sequence"

module _ {F : Type 0} (sql : Sql F) where
  open sql use {query, scan_string, scan_int, scan_float}

  unfoldable pub scan_route : List (Column F) → Option Route
  scan_route (c0 ∷ c1 ∷ c2 ∷ c3 ∷ c4 ∷ c5 ∷ c6 ∷ c7 ∷ []) = bind (scan_string c0) λ id.
      bind (scan_string c1) λ agency_id. bind (scan_string c2) λ short_name.
        bind (scan_string c3) λ long_name. bind (scan_int c4) λ type. bind (scan_string c5) λ color.
          bind (scan_string c6) λ text_color. bind (scan_int c7) λ sort_order. some (record {
            id = id;
            agency_id = agency_id;
            short_name = short_name;
            long_name = long_name;
            type = type;
            color = color;
            text_color = text_color;
            sort_order = sort_order;
          })
  scan_route _ = none

  abbrev pub routes_query : Option ℤ → Option (Rows F)
  routes_query none = query routes_text []
  routes_query (some t) = query routes_of_type_text (number t ∷ [])

  unfoldable pub list_routes : Option ℤ → Option (List Route)
  list_routes route_type = scan_query scan_route (routes_query route_type)

  unfoldable pub get_route : String → Option Route
  get_route route_id = scan_first scan_route (query route_text (text route_id ∷ []))

  abbrev pub scan_geojson : List (Column F) → Option String
  scan_geojson (c ∷ []) = scan_string c
  scan_geojson _ = none

  unfoldable pub get_route_shape : String → Option String
  get_route_shape route_id = scan_first scan_geojson (query route_shape_text (text route_id ∷ []))

  unfoldable pub scan_route_shape : List (Column F) → Option (GeoJsonFeature F)
  scan_route_shape (c0 ∷ c1 ∷ c2 ∷ c3 ∷ c4 ∷ c5 ∷ []) = bind (scan_string c0) λ route_id.
      bind (scan_string c1) λ short_name. bind (scan_string c2) λ long_name.
        bind (scan_int c3) λ route_type. bind (scan_string c4) λ color.
          bind (scan_string c5) λ geom. some (record {
            type = "Feature";
            properties =
                ("route_id", string route_id)
                ∷ ("short_name", string short_name)
                ∷ ("long_name", string long_name)
                ∷ ("route_type", int route_type)
                ∷ ("modality", string (route_type_name route_type))
                ∷ ("color", string ("#" +s color))
                ∷ [];
            geometry = geom;
          })
  scan_route_shape _ = none

  -- A collection of the features that a loop has appended.
  abbrev pub feature_collection : Option (List (GeoJsonFeature F)) → Option (GeoJsonCollection F)
  feature_collection none = none
  feature_collection (some features) =
      some (record { type = "FeatureCollection"; features = features })

  unfoldable pub get_all_route_shapes : Option (GeoJsonCollection F)
  get_all_route_shapes = feature_collection (scan_query scan_route_shape (query all_shapes_text []))

  unfoldable pub scan_stop : List (Column F) → Option (GeoJsonFeature F)
  scan_stop (c0 ∷ c1 ∷ c2 ∷ c3 ∷ c4 ∷ []) = bind (scan_string c0) λ id.
      bind (scan_string c1) λ name. bind (scan_string c2) λ code. bind (scan_int c3) λ loc_type.
        bind (scan_string c4) λ geom. some (record {
          type = "Feature";
          properties =
              ("stop_id", string id)
              ∷ ("stop_name", string name)
              ∷ ("stop_code", string code)
              ∷ ("location_type", int loc_type)
              ∷ [];
          geometry = geom;
        })
  scan_stop _ = none

  abbrev pub stops_query : F → F → F → F → Option (Rows F)
  stops_query min_lon min_lat max_lon max_lat =
      query stops_text (real min_lon ∷ real min_lat ∷ real max_lon ∷ real max_lat ∷ [])

  unfoldable pub list_stops_by_b_box : F → F → F → F → Option (GeoJsonCollection F)
  list_stops_by_b_box min_lon min_lat max_lon max_lat =
      feature_collection (scan_query scan_stop (stops_query min_lon min_lat max_lon max_lat))

  unfoldable pub scan_stop_time : List (Column F) → Option (List (String × Property F))
  scan_stop_time (c0 ∷ c1 ∷ c2 ∷ c3 ∷ c4 ∷ c5 ∷ c6 ∷ []) = bind (scan_int c0) λ seq.
      bind (scan_string c1) λ arrival. bind (scan_string c2) λ departure.
        bind (scan_string c3) λ stop_id. bind (scan_string c4) λ stop_name.
          bind (scan_float c5) λ lat. bind (scan_float c6) λ lon. some (
            ("stop_sequence", int seq)
            ∷ ("arrival_time", string arrival)
            ∷ ("departure_time", string departure)
            ∷ ("stop_id", string stop_id)
            ∷ ("stop_name", string stop_name)
            ∷ ("lat", float lat)
            ∷ ("lon", float lon)
            ∷ [])
  scan_stop_time _ = none

  unfoldable pub get_trip_stop_times : String → Option (List (List (String × Property F)))
  get_trip_stop_times trip_id =
      scan_query scan_stop_time (query stop_times_text (text trip_id ∷ []))

  -- `QueryRow` of the version: an error where the query or the scan fails.
  unfoldable pub healthy : Bool
  healthy = elim (scan_first scan_geojson (query "SELECT PostGIS_Version()" [])) [
    | none ↦ false
    | some version ↦ true
  ]
