-- ===== src/Api/Server.antt =====
-- internal/api/server.go: the server with its routes, and the handler of the WebSocket endpoint
-- (handlers.go).
pub mod Dispatch
use public_transport_tracker.Base.{
  string_eq, ℕ, ◌*◌, Bool, false, Option, none, some, List, [], ◌∷◌, String, if◌then◌else◌,
}
use public_transport_tracker.Api.Split.{Bytes}
use public_transport_tracker.Api.Mux.{
  Segment, literal, wildcard, Params, Route, Request, path_value, Selected, handled,
  method_not_allowed, not_found, select,
}
use public_transport_tracker.Api.Handlers
use public_transport_tracker.Api.Handlers.{ResponseWriter, Store, Codec, http_error}

pub data Handler : Type 0 where
  health list_routes get_route get_route_shape get_all_shapes list_stops : Handler
  get_trip_stop_times list_vehicles web_socket : Handler

-- `http.Server`, with its timeouts in nanoseconds.
pub record HttpServer : Type 0 where
  pub addr : String
  pub read_timeout : ℕ
  pub write_timeout : ℕ
  pub idle_timeout : ℕ

-- `vehicles` is what `All` of the manager returns, as a value, and `none` where there is no manager;
-- `hub` is whether there is a hub.
pub record Server (F Value : Type 0) : Type 0 where
  pub store : Store F Value
  pub vehicles : Option Value
  pub hub : Bool
  pub mux : List (Route Handler)
  pub server : HttpServer

-- "GET " and the pattern
abbrev pub on_get : List Segment → Handler → Route Handler
on_get pattern handler = record { method = some "GET"; pattern = pattern; handler = handler }

abbrev pub api_routes : List (Route Handler)
api_routes =
    on_get (literal "healthz" ∷ []) health
    ∷ on_get (literal "api" ∷ literal "routes" ∷ []) list_routes
    ∷ on_get (literal "api" ∷ literal "routes" ∷ wildcard "routeID" ∷ []) get_route
    ∷ on_get (literal "api" ∷ literal "routes" ∷ wildcard "routeID" ∷ literal "shape" ∷ [])
        get_route_shape
    ∷ on_get (literal "api" ∷ literal "shapes" ∷ []) get_all_shapes
    ∷ on_get (literal "api" ∷ literal "stops" ∷ []) list_stops
    ∷ on_get (literal "api" ∷ literal "trips" ∷ wildcard "tripID" ∷ literal "stop-times" ∷ [])
        get_trip_stop_times
    ∷ on_get (literal "api" ∷ literal "vehicles" ∷ []) list_vehicles
    ∷ record { method = none; pattern = literal "ws" ∷ []; handler = web_socket }
    ∷ []

-- What becomes of a request: a response, the upgrade that `broadcast.HandleWebSocket` makes, or a
-- panic, which net/http ends with the connection.
pub data Answer : Type 0 where
  responds : ResponseWriter → Answer
  upgrades panics : Answer

abbrev responds_or_panics : Option ResponseWriter → Answer
responds_or_panics none = panics
responds_or_panics (some response) = responds response

module _ {F Value : Type 0} where
  unfoldable pub new_server : Store F Value → Option Value → Bool → String → Server F Value
  new_server store vehicles hub addr = record {
    store = store;
    vehicles = vehicles;
    hub = hub;
    mux = api_routes;
    server = record {
      addr = addr;
      read_timeout = 10 * 1_000_000_000;
      write_timeout = 30 * 1_000_000_000;
      idle_timeout = 60 * 1_000_000_000;
    };
  }

  -- `query` gives the parameters of the URL's query, and `bytes_of` the bytes of a text.
  module _ (codec : Codec F Value) (bytes_of : String → Bytes) (s : Server F Value)
      (query : String → Bytes) where
    unfoldable pub handle_web_socket : Answer
    handle_web_socket =
        if s.hub
        then upgrades
        else responds (http_error codec s.store "websocket not available" 503)

    -- The method of the server that a route names, on the values of its wildcards.
    unfoldable pub handle : Handler → Params → Answer
    unfolding handle_web_socket
    handle health params = responds (Handlers.handle_health codec s.store)
    handle list_routes params = responds (Handlers.handle_list_routes codec s.store (query "type"))
    handle get_route params =
        responds (Handlers.handle_get_route codec s.store (bytes_of (path_value "routeID" params)))
    handle get_route_shape params =
        responds
          (Handlers.handle_get_route_shape codec s.store (bytes_of (path_value "routeID" params)))
    handle get_all_shapes params = responds (Handlers.handle_get_all_shapes codec s.store)
    handle list_stops params =
        responds_or_panics (Handlers.handle_list_stops codec s.store (query "bbox"))
    handle get_trip_stop_times params =
        responds (
          Handlers.handle_get_trip_stop_times codec s.store (bytes_of (path_value "tripID" params)))
    handle list_vehicles params = responds (Handlers.handle_list_vehicles codec s.store s.vehicles)
    handle web_socket params = handle_web_socket

    -- What the mux writes where it finds no handler.
    unfoldable pub serve_http : Request → Answer
    unfolding select handle
    serve_http req = elim (select s.mux req false) [
      | handled handler params ↦ handle handler params
      | method_not_allowed ↦ responds (http_error codec s.store "Method Not Allowed" 405)
      | not_found ↦ responds (http_error codec s.store "404 page not found" 404)
    ]
