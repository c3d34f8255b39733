-- ===== src/Store/Answers.antt =====
-- The store behind the interface of the API handlers, and what a handler answers with it.
use public_transport_tracker.Base.{
  string_eq, ◌≡◌, refl, false, Option, none, some, List, [], ◌∷◌, String, arith,
}
use public_transport_tracker.Api.Split.{Bytes, split, split-join}
use public_transport_tracker.Api.BBox.{Parses, split_b_box-Parses, length-Parses}
use public_transport_tracker.Api.Handlers.{
  Store, Codec, write_json, list_stops_of, handle_list_stops,
}
use public_transport_tracker.Store.{Rows, Sql, Route, Property, GeoJsonFeature, GeoJsonCollection}
use public_transport_tracker.Store.Scan.{Scans, scan_query-Scans}
use public_transport_tracker.Store.Queries.{
  list_routes, get_route, get_route_shape, get_all_route_shapes, list_stops_by_b_box,
  get_trip_stop_times, healthy, scan_stop, stops_query,
}

-- The values that the handlers write.
pub data Value (F : Type 0) : Type 0 where
  routes : List Route → Value F
  route : Route → Value F
  collection : GeoJsonCollection F → Value F
  stop_times : List (List (String × Property F)) → Value F

abbrev pub as_value : {A B : Type 0} → (A → B) → Option A → Option B
as_value f none = none
as_value f (some a) = some (f a)

-- `decode` and `encode` are the text of a path value and the bytes of a text.
abbrev pub store_of : {F : Type 0} → Sql F → (Bytes → String) → (String → Bytes) → Store F (Value F)
store_of sql decode encode = record {
  healthy = healthy sql;
  list_routes = λ route_type. as_value routes (list_routes sql route_type);
  get_route = λ id. as_value route (get_route sql (decode id));
  get_route_shape = λ id. as_value encode (get_route_shape sql (decode id));
  get_all_route_shapes = as_value collection (get_all_route_shapes sql);
  list_stops_by_b_box = λ a b c d. as_value collection (list_stops_by_b_box sql a b c d);
  get_trip_stop_times = λ id. as_value stop_times (get_trip_stop_times sql (decode id));
}

module _ {F : Type 0} (sql : Sql F) (codec : Codec F (Value F)) (decode : Bytes → String)
    (encode : String → Bytes) where
  open codec use {parse_float}

  -- The answer to a request for the stops in a box: if the parameter is four numbers, the database
  -- answers the query for them, each row scans to a feature and the cursor ends without an error,
  -- then the response is the collection of these features, in the order of the rows.
  pub handle_list_stops-features :
      (bbox : Bytes) (a b c d : F) (rows : Rows F) (features : List (GeoJsonFeature F))
      → Parses parse_float (split bbox 44) (a ∷ b ∷ c ∷ d ∷ [])
      → stops_query sql a b c d ≡ some rows
      → rows.failed ≡ false
      → Scans (scan_stop sql) rows.items features
      → handle_list_stops codec (store_of sql decode encode) bbox
        ≡ some (
            write_json codec
              (store_of sql decode encode)
              (some "application/geo+json")
              (collection (record { type = "FeatureCollection"; features = features })))
  unfolding handle_list_stops list_stops_of list_stops_by_b_box
  handle_list_stops-features [] a b c d rows features parses q ok s =
      absurd (omega (arith, length-Parses parse_float parses, (split-join [] 44).2))
  handle_list_stops-features (byte ∷ bytes) a b c d rows features parses q ok s =
      let four =
        (split_b_box-Parses parse_float (byte ∷ bytes) (a ∷ b ∷ c ∷ d ∷ [])).1 (refl, parses) in
      let found =
        (scan_query-Scans (scan_stop sql) (stops_query sql a b c d) features).1 (rows, q, ok, s) in
      rw (four, found) refl
