-- ===== src/Api/Server/Dispatch.antt =====
-- Which handler answers a request.
use mathlib.Core.List.{Memᴰ}
use public_transport_tracker.Base.{
  string_eq, ◌≡◌, Bool, false, Option, some, String, if◌then◌else◌, arith,
}
use public_transport_tracker.Api.Split.{Bytes}
use public_transport_tracker.Api.Mux.{Params, Route, Request, match_path, allows}
use public_transport_tracker.Api.Mux.Unique.{AreDisjoint, select_unique}
use public_transport_tracker.Api.Handlers.{Store, Codec, http_error}
use public_transport_tracker.Api.Server.{
  Handler, Server, responds, api_routes, new_server, handle, serve_http,
}

api_routes-AreDisjoint : AreDisjoint api_routes
api_routes-AreDisjoint = ground arith

module _ {F Value : Type 0} (codec : Codec F Value) (bytes_of : String → Bytes)
    (query : String → Bytes) (store : Store F Value) (vehicles : Option Value) (hub : Bool)
    (addr : String) where
  abbrev built : Server F Value
  built = new_server store vehicles hub addr

  -- A request whose path matches a route of the server is answered by the handler of this route, on
  -- the values of its wildcards, wherever it stands among the registrations, or with 405 if the
  -- method is another one.
  pub serve_http-route :
      (r : Route Handler) (req : Request) (params : Params)
      → Memᴰ r api_routes
      → match_path r.pattern req.path ≡ some params
      → serve_http codec bytes_of built query req ≡ (
          if allows r.method req.method
          then handle codec bytes_of built query r.handler params
          else responds (http_error codec store "Method Not Allowed" 405))
  unfolding serve_http new_server
  serve_http-route r req params listed matches =
      ground
        (arith, select_unique api_routes r req params false api_routes-AreDisjoint listed matches)
