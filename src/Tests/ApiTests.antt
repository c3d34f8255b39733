-- ===== src/Tests/ApiTests.antt =====
-- The parsing of a bounding box, and the handlers over a small store.
use public_transport_tracker.Base.{
  string_eq, nat_eq, ℕ, ◌≡◌, ◌+◌, true, false, refl, if◌then◌else◌, Option, none, some, List, [],
  ◌∷◌, length, All,
}
use public_transport_tracker.Api.Split.{Bytes, split, join, Lacks, count_bytes, split-join}
use public_transport_tracker.Api.Handlers.{Store, Codec, http_error}
use mathlib.Core.List.Memᴰ.{head, tail}
use public_transport_tracker.Api.Mux.{literal, wildcard, Route, Request, match_path, allows, select}
use public_transport_tracker.Api.Server.{
  Handler, get_trip_stop_times, Server, new_server, serve_http, handle, responds,
}
use public_transport_tracker.Api.Server.Dispatch.{serve_http-route}

-- 1,2,3,4
abbrev bbox : Bytes
bbox = 49 ∷ 44 ∷ 50 ∷ 44 ∷ 51 ∷ 44 ∷ 52 ∷ []

-- Texts of one byte parse.
abbrev parse_byte : Bytes → Option ℕ
parse_byte [] = none
parse_byte (b ∷ []) = some b
parse_byte (a ∷ b ∷ s) = none

abbrev four_bytes : List ℕ
four_bytes = 49 ∷ 50 ∷ 51 ∷ 52 ∷ []

split-join_example :
    (join 44 (split bbox 44) ≡ bbox)
    × All (Lacks 44) (split bbox 44)
    × (length (split bbox 44) ≡ count_bytes 44 bbox + 1)
split-join_example = split-join bbox 44

abbrev codec : Codec ℕ ℕ
codec = record {
  atoi = λ s. none;
  parse_float = parse_byte;
  encode = λ v. some (v ∷ []);
  status_ok = 0;
  no_values = 1;
  text = λ s. [];
}

abbrev store : Store ℕ ℕ
store = record {
  healthy = true;
  list_routes = λ t. some 1;
  get_route = λ id. some 2;
  get_route_shape = λ id. some id;
  get_all_route_shapes = some 3;
  list_stops_by_b_box = λ a b c d. some (a + b + c + d);
  get_trip_stop_times = λ id. none;
}

abbrev stop_times_route : Route Handler
stop_times_route = record {
  method = some "GET";
  pattern = literal "api" ∷ literal "trips" ∷ wildcard "tripID" ∷ literal "stop-times" ∷ [];
  handler = get_trip_stop_times;
}

abbrev head_request : Request
head_request = record { method = "HEAD"; path = "api" ∷ "trips" ∷ "t7" ∷ "stop-times" ∷ [] }

abbrev server : Server ℕ ℕ
server = new_server store none false ":8080"

serve_http-route_example : serve_http codec (λ s. []) server (λ name. []) head_request ≡ (
    if allows (some "GET") "HEAD"
    then handle codec (λ s. []) server (λ name. []) get_trip_stop_times (("tripID", "t7") ∷ [])
    else responds (http_error codec store "Method Not Allowed" 405))
unfolding match_path
serve_http-route_example =
    serve_http-route codec (λ s. []) (λ name. []) store none false ":8080" stop_times_route
      head_request (("tripID", "t7") ∷ []) (tail (tail (tail (tail (tail (tail (head refl)))))))
      refl

-- A slash at the end is no route ID.
no_route_id :
    serve_http codec
      (λ s. [])
      server
      (λ name. [])
      (record { method = "GET"; path = "api" ∷ "routes" ∷ "/" ∷ [] })
    ≡ responds (http_error codec store "404 page not found" 404)
unfolding serve_http new_server select match_path
no_route_id = refl
