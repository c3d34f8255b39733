-- ===== src/Store/Imported/Service.antt =====
-- What the API (internal/api/server.go) promises of an archive that has been imported, without a word
-- of tables, queries and handlers.
use public_transport_tracker.Base.{
  string_eq, ◌≡◌, ◌≢◌, Bool, true, false, not, Option, none, some, List, [], ◌∷◌, String, ◌==◌,
  length,
}
use public_transport_tracker.Base.Int.{ℤ}
use public_transport_tracker.Gtfs.{Tables}
use public_transport_tracker.Api.Split.{Bytes, split}
use public_transport_tracker.Api.BBox.{Parses}
use public_transport_tracker.Api.Handlers.{ResponseWriter, Codec, Store, http_error, write_json}
use public_transport_tracker.Api.Server.{Answer, responds}
use public_transport_tracker.Store.{Sql, Route, Property, GeoJsonFeature}
use public_transport_tracker.Store.Answers.{Value, store_of}
use public_transport_tracker.Store.Select.{Holds}
use public_transport_tracker.Store.Select.Shapes.{HoldsShapes}
use public_transport_tracker.Store.Select.Stops.{PostGis, HoldsStops}
use public_transport_tracker.Store.Imported.StopTimes.{TripTimes}
use public_transport_tracker.Store.Imported.Listing.{RouteList, Finds, is_type}
use public_transport_tracker.Store.Imported.Routes.{type_of}
use public_transport_tracker.Store.Imported.Geometry.{RouteShapes, LineOf}
use public_transport_tracker.Store.Imported.Stops.{StopList}

-- What a client may ask of the data of the archive.
pub data Question : Type 0 where
  all_routes all_shapes stops_in_box : Question
  one_route route_shape stop_times_of_trip : String → Question

abbrev pub path_of : Question → List String
path_of all_routes = "api" ∷ "routes" ∷ []
path_of all_shapes = "api" ∷ "shapes" ∷ []
path_of stops_in_box = "api" ∷ "stops" ∷ []
path_of (one_route id) = "api" ∷ "routes" ∷ id ∷ []
path_of (route_shape id) = "api" ∷ "routes" ∷ id ∷ "shape" ∷ []
path_of (stop_times_of_trip id) = "api" ∷ "trips" ∷ id ∷ "stop-times" ∷ []

-- A segment of a path is no slash.
abbrev pub is_proper : Question → Bool
is_proper (one_route id) = not (id == "/")
is_proper (route_shape id) = not (id == "/")
is_proper (stop_times_of_trip id) = not (id == "/")
is_proper _ = true

-- What stands beside the archive: how texts and values are written and ordered, and the parameters of
-- the URL. `text_of` is the text of a segment, and `takes` whether the database takes a text.
pub record Setting (F : Type 0) : Type 0 where
  pub codec : Codec F (Value F)
  pub store : Store F (Value F)
  pub gis : PostGis F
  pub as_geo_json : String → String
  pub encode : String → Bytes
  pub text_of : String → String
  pub takes : String → Bool
  pub text_before : String → String → Bool
  pub query : String → Bytes

module _ {F : Type 0} (setting : Setting F) (rows : Tables F) where
  open setting use {codec, store, gis, as_geo_json, encode, text_of, takes, text_before, query}

  pub data Replies : Question → Answer → Type 0 where
    bad_type :
        type_of codec (query "type") ≡ none
        → Replies all_routes (responds (http_error codec store "invalid type parameter" 400))
    route_list :
        (t : Option ℤ) (shown : List Route)
        → type_of codec (query "type") ≡ some t
        → is_type t ≡ true
        → RouteList rows text_before t shown
        → Replies all_routes (responds (write_json codec store none (Value.routes shown)))
    no_such_type :
        (t : Option ℤ)
        → type_of codec (query "type") ≡ some t
        → is_type t ≡ false
        → Replies all_routes (responds (http_error codec store "internal error" 500))
    no_route :
        (id : String)
        → takes (text_of id) ≡ true
        → Finds rows (text_of id) none
        → Replies (one_route id) (responds (http_error codec store "not found" 404))
    a_route :
        (id : String) (value : Route)
        → takes (text_of id) ≡ true
        → Finds rows (text_of id) (some value)
        → Replies (one_route id) (responds (write_json codec store none (Value.route value)))
    refused_route :
        (id : String)
        → takes (text_of id) ≡ false
        → Replies (one_route id) (responds (http_error codec store "not found" 404))
    refused_shape :
        (id : String)
        → takes (text_of id) ≡ false
        → Replies (route_shape id) (responds (http_error codec store "not found" 404))
    refused_trip :
        (id : String)
        → takes (text_of id) ≡ false
        → Replies (stop_times_of_trip id) (responds (http_error codec store "not found" 404))
    no_shape :
        (id : String)
        → takes (text_of id) ≡ true
        → LineOf as_geo_json rows (text_of id) none
        → Replies (route_shape id) (responds (http_error codec store "not found" 404))
    a_shape :
        (id line : String)
        → takes (text_of id) ≡ true
        → LineOf as_geo_json rows (text_of id) (some line)
        → Replies (route_shape id) (
            responds
              (record { status = 200; content_type = "application/geo+json"; body = encode line }))
    shapes_shown :
        (shown : List (GeoJsonFeature F))
        → RouteShapes as_geo_json rows text_before shown
        → Replies all_shapes (
            responds (
              write_json codec store
                (some "application/geo+json")
                (Value.collection (record { type = "FeatureCollection"; features = shown }))))
    bad_box :
        (response : ResponseWriter)
        → ((vs : List F) → Parses codec.parse_float (split (query "bbox") 44) vs → length vs ≢ 4)
        → response.status ≡ 400
        → Replies stops_in_box (responds response)
    stops_shown :
        (a b c d : F) (shown : List (GeoJsonFeature F))
        → Parses codec.parse_float (split (query "bbox") 44) (a ∷ b ∷ c ∷ d ∷ [])
        → StopList gis rows text_before a b c d shown
        → Replies stops_in_box (
            responds (
              write_json codec store
                (some "application/geo+json")
                (Value.collection (record { type = "FeatureCollection"; features = shown }))))
    times_shown :
        (id : String) (shown : List (List (String × Property F)))
        → takes (text_of id) ≡ true
        → TripTimes rows (text_of id) shown
        → Replies
            (stop_times_of_trip id)
            (responds (write_json codec store none (Value.stop_times shown)))

module _ {F : Type 0} (gis : PostGis F) (as_geo_json : String → String) (takes : String → Bool)
    (text_before : String → String → Bool) (sql : Sql F) where
  -- A database with these tables, as its answers to all queries of the store show it.
  pub record HoldsAll (db : Tables F) : Type 0 where
    pub texts : Holds sql takes text_before db
    pub lines : HoldsShapes as_geo_json sql takes text_before db
    pub places : HoldsStops gis sql text_before db

-- The setting of the store over a database; `bytes_of` and `decode` take a segment to the handlers and
-- to the store.
abbrev pub setting_of :
    {F : Type 0}
    → Codec F (Value F)
    → (Bytes → String)
    → (String → Bytes)
    → (String → Bytes)
    → PostGis F
    → (String → String)
    → (String → Bool)
    → (String → String → Bool)
    → Sql F
    → (String → Bytes)
    → Setting F
setting_of codec decode encode bytes_of gis as_geo_json takes text_before sql query = record {
  codec = codec;
  store = store_of sql decode encode;
  gis = gis;
  as_geo_json = as_geo_json;
  encode = encode;
  text_of = λ id. decode (bytes_of id);
  takes = takes;
  text_before = text_before;
  query = query;
}
