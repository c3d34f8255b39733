-- ===== src/Store/Imported/Requests.antt =====
-- A request to the API (internal/api/server.go), from its path to the records of the archive that has
-- been imported.
use mathlib.Core.List.{Memᴰ}
use mathlib.Core.List.Memᴰ.{head, tail}
use public_transport_tracker.Base.{
  string_eq, ◌≡◌, refl, ap, ◌∙◌, Bool, true, Option, none, some, List, [], ◌∷◌, String, arith, inl,
  inr,
}
use public_transport_tracker.Gtfs.{Tables}
use public_transport_tracker.Gtfs.Csv.{CsvFile}
use public_transport_tracker.Gtfs.Rows.{Conversions}
use public_transport_tracker.Gtfs.Shapes.{ShapePoint}
use public_transport_tracker.Gtfs.Shapes.Group.{IsSorting}
use public_transport_tracker.Gtfs.Schema.{schema}
use public_transport_tracker.Gtfs.Importer.{import}
use public_transport_tracker.Api.Split.{Bytes}
use public_transport_tracker.Api.Mux.{
  Segment, literal, wildcard, Params, Request, match_path, allows,
}
use public_transport_tracker.Api.Handlers.{Codec, http_error, write_json}
use public_transport_tracker.Api.Server.{
  responds, Handler, on_get, api_routes, new_server, handle, serve_http,
}
use public_transport_tracker.Api.Server.Dispatch.{serve_http-route}
use public_transport_tracker.Store.{Sql, Route}
use public_transport_tracker.Store.Answers.{Value, store_of}
use public_transport_tracker.Store.Select.Stops.{PostGis}
use public_transport_tracker.Store.Imported.Contents.{archive_rows}
use public_transport_tracker.Store.Imported.StopTimes.{handle_get_trip_stop_times-import}
use public_transport_tracker.Store.Imported.Listing.{Finds}
use public_transport_tracker.Store.Imported.Routes.{
  handle_list_routes-import, handle_get_route-import,
}
use public_transport_tracker.Store.Imported.Geometry.{LineOf}
use public_transport_tracker.Store.Imported.Shapes.{
  handle_get_all_shapes-import, handle_get_route_shape-import,
}
use public_transport_tracker.Store.Imported.Stops.{handle_list_stops-import}
use public_transport_tracker.Store.Imported.Service.{
  Question, all_routes, all_shapes, stops_in_box, one_route, route_shape, stop_times_of_trip,
  path_of, is_proper, Setting, setting_of, HoldsAll, Replies, bad_type, route_list, no_such_type,
  refused_route, refused_shape, refused_trip, no_route, a_route, no_shape, a_shape, shapes_shown,
  bad_box, stops_shown, times_shown,
}

-- The route of the server for a question.
abbrev pattern_of : Question → List Segment
pattern_of all_routes = literal "api" ∷ literal "routes" ∷ []
pattern_of all_shapes = literal "api" ∷ literal "shapes" ∷ []
pattern_of stops_in_box = literal "api" ∷ literal "stops" ∷ []
pattern_of (one_route id) = literal "api" ∷ literal "routes" ∷ wildcard "routeID" ∷ []
pattern_of (route_shape id) =
    literal "api" ∷ literal "routes" ∷ wildcard "routeID" ∷ literal "shape" ∷ []
pattern_of (stop_times_of_trip id) =
    literal "api" ∷ literal "trips" ∷ wildcard "tripID" ∷ literal "stop-times" ∷ []

abbrev handler_of : Question → Handler
handler_of all_routes = Handler.list_routes
handler_of all_shapes = Handler.get_all_shapes
handler_of stops_in_box = Handler.list_stops
handler_of (one_route id) = Handler.get_route
handler_of (route_shape id) = Handler.get_route_shape
handler_of (stop_times_of_trip id) = Handler.get_trip_stop_times

abbrev params_of : Question → Params
params_of (one_route id) = ("routeID", id) ∷ []
params_of (route_shape id) = ("routeID", id) ∷ []
params_of (stop_times_of_trip id) = ("tripID", id) ∷ []
params_of _ = []

pattern_of-listed : (q : Question) → Memᴰ (on_get (pattern_of q) (handler_of q)) api_routes
pattern_of-listed all_routes = tail (head refl)
pattern_of-listed (one_route id) = tail (tail (head refl))
pattern_of-listed (route_shape id) = tail (tail (tail (head refl)))
pattern_of-listed all_shapes = tail (tail (tail (tail (head refl))))
pattern_of-listed stops_in_box = tail (tail (tail (tail (tail (head refl)))))
pattern_of-listed (stop_times_of_trip id) = tail (tail (tail (tail (tail (tail (head refl))))))

match_path-path_of :
    (q : Question) → is_proper q ≡ true → match_path (pattern_of q) (path_of q) ≡ some (params_of q)
unfolding match_path
match_path-path_of all_routes h = refl
match_path-path_of all_shapes h = refl
match_path-path_of stops_in_box h = refl
match_path-path_of (one_route id) h = ground arith
match_path-path_of (route_shape id) h = ground arith
match_path-path_of (stop_times_of_trip id) h = ground arith

module _ {F : Type 0} (conv : Conversions F) (sort : List (ShapePoint F) → List (ShapePoint F))
    (sorts : IsSorting sort) (codec : Codec F (Value F)) (decode : Bytes → String)
    (encode : String → Bytes) (bytes_of : String → Bytes) (gis : PostGis F)
    (as_geo_json : String → String) (takes : String → Bool) (text_before : String → String → Bool)
    (sql : Sql F) (query : String → Bytes) where
  abbrev setting : Setting F
  setting = setting_of codec decode encode bytes_of gis as_geo_json takes text_before sql query

  route_reply :
      (rows : Tables F) (id : String) (found : Option Route)
      → takes (decode (bytes_of id)) ≡ true
      → Finds rows (decode (bytes_of id)) found
      → Replies setting rows (one_route id) (
          responds (elim found [
            | none ↦ http_error codec (store_of sql decode encode) "not found" 404
            | some value ↦ write_json codec (store_of sql decode encode) none (Value.route value)
          ]))
  route_reply rows id none taken finds = no_route id taken finds
  route_reply rows id (some value) taken finds = a_route id value taken finds

  shape_reply :
      (rows : Tables F) (id : String) (found : Option String)
      → takes (decode (bytes_of id)) ≡ true
      → LineOf as_geo_json rows (decode (bytes_of id)) found
      → Replies setting rows (route_shape id) (
          responds (elim found [
            | none ↦ http_error codec (store_of sql decode encode) "not found" 404
            | some line ↦ record {
              status = 200;
              content_type = "application/geo+json";
              body = encode line;
            }
          ]))
  shape_reply rows id none taken line = no_shape id taken line
  shape_reply rows id (some shown) taken line = a_shape id shown taken line

  module _ (order : List String) (entries : List (String × Option CsvFile)) (before : Tables F)
      (vehicles : Option (Value F)) (hub : Bool) (addr : String)
      (done : (import schema conv sort order (some entries) before).1 ≡ none)
      (holds : HoldsAll gis as_geo_json takes text_before sql
        (import schema conv sort order (some entries) before).0) where
    handle-Replies :
        (q : Question)
        → Replies setting (archive_rows conv sort sorts order entries) q (
            handle codec bytes_of
              (new_server (store_of sql decode encode) vehicles hub addr)
              query
              (handler_of q)
              (params_of q))
    unfolding handle new_server
    handle-Replies all_routes =
        elim (handle_list_routes-import conv sort sorts codec decode encode order entries before sql
          takes text_before (query "type") done holds.texts) [
            | inl (bad, answer) ↦ rw answer (bad_type bad)
            | inr (t, good, inl (fits, shown, listed, answer)) ↦
                rw answer (route_list t shown good fits listed)
            | inr (t, good, inr (outside, answer)) ↦ rw answer (no_such_type t good outside)
          ]
    handle-Replies all_shapes =
        let (shown, lines, answer) =
          handle_get_all_shapes-import conv sort sorts codec decode encode as_geo_json order entries
            before sql takes text_before done holds.lines in
        rw answer (shapes_shown shown lines)
    handle-Replies stops_in_box =
        elim (handle_list_stops-import gis conv sort sorts codec decode encode order entries before
          sql text_before (query "bbox") done holds.places) [
            | inl (a, b, c, d, parses, shown, listed, answer) ↦
                rw answer (stops_shown a b c d shown parses listed)
            | inr (bad, response, answer, status) ↦ rw answer (bad_box response bad status)
          ]
    handle-Replies (one_route id) =
        elim (handle_get_route-import conv sort sorts codec decode encode order entries before sql
          takes text_before (bytes_of id) done holds.texts) [
            | inl (taken, found, finds, answer) ↦ rw answer (route_reply _ id found taken finds)
            | inr (refused, answer) ↦ rw answer (refused_route id refused)
          ]
    handle-Replies (route_shape id) =
        elim (handle_get_route_shape-import conv sort sorts codec decode encode as_geo_json order
          entries before sql takes text_before (bytes_of id) done holds.lines) [
            | inl (taken, found, line, answer) ↦ rw answer (shape_reply _ id found taken line)
            | inr (refused, answer) ↦ rw answer (refused_shape id refused)
          ]
    handle-Replies (stop_times_of_trip id) =
        elim (handle_get_trip_stop_times-import conv sort sorts codec decode encode order entries
          before sql takes text_before (bytes_of id) done holds.texts) [
            | inl (taken, shown, times, answer) ↦ rw answer (times_shown id shown taken times)
            | inr (refused, answer) ↦ rw answer (refused_trip id refused)
          ]

    -- After an import that has succeeded, over a database with the keys of the schema, whatever it held
    -- before: the server answers a request for data of the archive, by GET or HEAD and with segments
    -- that are no slash, as the description of the API promises of the records of the archive.
    pub serve_http-Replies :
        (q : Question) (req : Request)
        → is_proper q ≡ true
        → req.path ≡ path_of q
        → allows (some "GET") req.method ≡ true
        → Replies setting (archive_rows conv sort sorts order entries) q (
            serve_http codec bytes_of
              (new_server (store_of sql decode encode) vehicles hub addr)
              query
              req)
    serve_http-Replies q req proper path method =
        let matches : match_path (pattern_of q) req.path ≡ some (params_of q) =
          ap (match_path (pattern_of q)) path ∙ match_path-path_of q proper in
        let answer =
          serve_http-route codec bytes_of query (store_of sql decode encode) vehicles hub addr
            (on_get (pattern_of q) (handler_of q)) req (params_of q) (pattern_of-listed q)
            matches in
        rw (answer, method) (handle-Replies q)
