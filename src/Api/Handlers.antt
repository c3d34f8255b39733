-- ===== src/Api/Handlers.antt =====
-- internal/api/handlers.go: one function per handler, from the request's parameters to the response.
pub mod Responses
use public_transport_tracker.Base.{
  string_eq, ℕ, ◌≡◌, Bool, true, false, Option, none, some, List, [], ◌∷◌, String, if◌then◌else◌,
  is_empty,
}
use public_transport_tracker.Base.Int.{ℤ}
use public_transport_tracker.Api.Split.{Bytes}
use public_transport_tracker.Api.BBox.{split_b_box}

-- What a client sees of an `http.ResponseWriter`: the status, the header Content-Type, and the body.
pub record ResponseWriter : Type 0 where
  pub status : ℕ
  pub content_type : String
  pub body : Bytes

-- The queries of the store, as the handlers call them; `none` is an error. `Value` is Go's `any`.
pub record Store (F Value : Type 0) : Type 0 where
  pub healthy : Bool
  pub list_routes : Option ℤ → Option Value
  pub get_route : Bytes → Option Value
  pub get_route_shape : Bytes → Option Bytes
  pub get_all_route_shapes : Option Value
  pub list_stops_by_b_box : F → F → F → F → Option Value
  pub get_trip_stop_times : Bytes → Option Value

-- The functions of the packages `strconv` and `encoding/json`. `encode` gives the text of a value and
-- its line feed, and `none` where `Encode` fails: then nothing is written.
pub record Codec (F Value : Type 0) : Type 0 where
  pub atoi : Bytes → Option ℤ
  pub parse_float : Bytes → Option F
  pub encode : Value → Option Bytes
  -- the map {"status": "ok"}
  pub status_ok : Value
  -- []any{}
  pub no_values : Value
  -- the text that `http.Error` writes
  pub text : String → Bytes

module _ {F Value : Type 0} (codec : Codec F Value) (store : Store F Value) where
  open codec use {atoi, parse_float, encode, status_ok, no_values, text}

  -- `http.Error`
  unfoldable pub http_error : String → ℕ → ResponseWriter
  http_error message status = record {
    status = status;
    content_type = "text/plain; charset=utf-8";
    body = text message;
  }

  -- `json.NewEncoder(w).Encode(v)` under a Content-Type that has been set.
  unfoldable pub encode_to : String → Value → ResponseWriter
  encode_to content_type v = record {
    status = 200;
    content_type = content_type;
    body = elim (encode v) [ none ↦ [] | some message ↦ message ];
  }

  -- The Content-Type that the handler has set is given, and `writeJSON` sets it again.
  unfoldable pub write_json : Option String → Value → ResponseWriter
  write_json before v = encode_to "application/json" v

  unfoldable pub handle_health : ResponseWriter
  handle_health =
      if store.healthy then encode_to "application/json" status_ok else http_error "unhealthy" 503

  -- `type` is the query's parameter, the empty text if it is absent.
  unfoldable pub list_routes_of : Option ℤ → ResponseWriter
  list_routes_of route_type = elim (store.list_routes route_type) [
    | none ↦ http_error "internal error" 500
    | some routes ↦ write_json none routes
  ]

  unfoldable pub handle_list_routes : Bytes → ResponseWriter
  handle_list_routes type = if is_empty type then list_routes_of none else elim (atoi type) [
    | none ↦ http_error "invalid type parameter" 400
    | some v ↦ list_routes_of (some v)
  ]

  unfoldable pub handle_get_route : Bytes → ResponseWriter
  handle_get_route route_id = elim (store.get_route route_id) [
    | none ↦ http_error "not found" 404
    | some route ↦ write_json none route
  ]

  unfoldable pub handle_get_route_shape : Bytes → ResponseWriter
  handle_get_route_shape route_id = elim (store.get_route_shape route_id) [
    | none ↦ http_error "not found" 404
    | some geojson ↦ record { status = 200; content_type = "application/geo+json"; body = geojson }
  ]

  unfoldable pub handle_get_all_shapes : ResponseWriter
  handle_get_all_shapes = elim store.get_all_route_shapes [
    | none ↦ http_error "internal error" 500
    | some fc ↦ write_json (some "application/geo+json") fc
  ]

  -- The query with `coords[0]` to `coords[3]`; `none` is the panic of an index out of range.
  unfoldable pub list_stops_of : List F → Option ResponseWriter
  list_stops_of (a ∷ b ∷ c ∷ d ∷ coords) = some (elim (store.list_stops_by_b_box a b c d) [
    | none ↦ http_error "internal error" 500
    | some fc ↦ write_json (some "application/geo+json") fc
  ])
  list_stops_of _ = none

  unfoldable pub handle_list_stops : Bytes → Option ResponseWriter
  handle_list_stops bbox =
      if is_empty bbox
      then some (http_error "bbox parameter required (minLon,minLat,maxLon,maxLat)" 400)
      else elim (split_b_box parse_float bbox) [
        | none ↦ some (http_error "invalid bbox format, expected minLon,minLat,maxLon,maxLat" 400)
        | some coords ↦ list_stops_of coords
      ]

  unfoldable pub handle_get_trip_stop_times : Bytes → ResponseWriter
  handle_get_trip_stop_times trip_id = elim (store.get_trip_stop_times trip_id) [
    | none ↦ http_error "not found" 404
    | some stop_times ↦ write_json none stop_times
  ]

  -- `vehicles` is `nil`, or what `All` returns, as a value.
  unfoldable pub handle_list_vehicles : Option Value → ResponseWriter
  handle_list_vehicles vehicles = elim vehicles [
    | none ↦ write_json none no_values
    | some states ↦ write_json none states
  ]
