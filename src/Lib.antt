-- ===== src/Lib.antt =====
-- The tracker of public transport vehicles (Go).
--
-- The program imports a GTFS archive into a PostGIS database, polls a GTFS-RT feed of vehicle
-- positions, smooths each vehicle's positions with a Kalman filter and snaps them to the shape of
-- its trip, if one is loaded, and sends what has changed to WebSocket clients once a second. An
-- HTTP API answers queries about routes, stops, trips and vehicles.
--
-- How the parts interact: the poller (internal/realtime/poller.go) fetches a feed, decodes it
-- (decoder.go) and gives the updates to the handler of cmd/tracker/main.go, which calls `Update`
-- of the state manager (internal/vehicle/state.go) for each of them. `Update` calls the vehicle's
-- own filter (kalman.go) and the route snapper (snapper.go). The broadcast loop of main.go reads
-- all states, gives them to the delta encoder (internal/broadcast/encoder.go) and the delta to the
-- hub (hub.go), which sends it to every registered client (ws_client.go). A prune loop removes
-- stale vehicles. The importer (internal/gtfs/importer.go) and the API handlers
-- (internal/api/handlers.go) share the database with one another only.
--
-- Which file models which part:
--   Vehicle, Vehicle/Manager      internal/vehicle/types.go, state.go: `Update`, `Get`, `All`, `Prune`
--   Vehicle/Kalman                internal/vehicle/kalman.go, every method, statement by statement
--   Vehicle/Snapper               internal/vehicle/snapper.go: `LoadShape`, `Snap`, the projection
--   Broadcast, Broadcast/Encoder  internal/broadcast/types.go, encoder.go: `StateToUpdate`, `Encode`
--   Broadcast/Hub                 internal/broadcast/hub.go: the registry and `Broadcast`
--   Broadcast/WsClient            internal/broadcast/ws_client.go: `Send`, `Close`; `writePump`,
--                                 `readPump` and the clean-up of `HandleWebSocket` as a step relation
--   Realtime, Realtime/Decoder, Poller, Fetcher
--                                 internal/realtime/types.go, decoder.go, poller.go, fetcher.go
--   Tracker                       cmd/tracker/main.go: the goroutines of `runServe` as a step relation;
--                                 Tracker/Pipeline, Pruned and Smoothing are the parts that it puts together
--   Main, Flags                   cmd/tracker/main.go: `main` with its flags, `runMigrate`, `runImport`,
--                                 the start and the end of `runServe`; Main/Served follows the data
--                                 from the command `import` to the answers of the API
--   Api/Split, BBox, Handlers     internal/api/handlers.go: `split`, `splitBBox`, the handlers
--   Api/Mux, Server               internal/api/server.go: the routes, and how a request finds its
--                                 handler
--   Gtfs, Gtfs/Csv, Rows, Shapes, Importer
--                                 internal/gtfs/importer.go: the fields of a row, the row of each
--                                 table, the grouping of shapes, and `Import` with its transaction
--   Gtfs/Schema                   internal/store/migrations/001_gtfs_schema.sql: the primary and the
--                                 foreign keys and the INTEGER columns, as the database that they
--                                 make
--   Store, Store/Scan, Queries, Answers, Migrate, Open
--                                 internal/store/queries.go, postgres.go: the queries and their scan
--                                 loops, the store behind the handlers, `Migrate`, `New`, `Close`
--   Store/Select, Imported        internal/store/queries.go: what the texts of the queries select
--                                 from the tables that the importer fills, and the answers of the
--                                 API behind an import; Imported/Service describes the API by the
--                                 records of the archive alone
--   Base, GoMap, Float            helpers: lists and options, Go's maps, Go's float64
--   Tests                         concrete inputs, and the theorems applied to them
-- The children of a component's module state what holds of it (Manager/Prune, Encoder/Replay, ...).
--
-- How Go is modelled. A method becomes a function from the state before to the state after, with
-- the method's name in snake case. A struct is a record, a map is an association list with each key
-- once (GoMap), and a range over a map takes the keys in an order that is an argument: theorems
-- hold for every order that visits each key once. An early return and a failed call are branches;
-- an error is a value that names the failing call. A time is the number of nanoseconds since Go's
-- zero time. `float64` is an interface of operations (Float), and a theorem names the laws that it
-- needs: the order laws and `x - x` being 0 or NaN hold of IEEE doubles; the laws of `IsExact`,
-- `IsExactRing` and `IsExactDistance` hold of exact arithmetic only. The methods of the manager and
-- the hub hold a lock from their first to their last statement, so that each is one step of an
-- interleaving; so are `All` and `Encode` in a tick, since only that goroutine uses the encoder.
-- Loops are structural recursion, so that no fuel is needed; the loop of `writePump`, which waits
-- on channels, is a step relation, with bounds on its rounds (WsClient/Termination) and on what is
-- left to do when a connection ends (WsClient/Ending). An interval is an int64, and the product of
-- `runServe` wraps around (`wrap_int64`).
--
-- What is a parameter: the generated protobuf bindings and their unmarshalling; msgpack, the
-- WebSocket library and net/http, by what their calls return; encoding/csv and archive/zip, by the
-- records that they read; strconv, `time.Parse` and `%f`, as functions; `sort.Slice`, as a function
-- of which the theorems assume that it permutes and sorts; the database, as a choice of the
-- statements that it accepts (Gtfs/Schema is the choice that the schema makes), and of the rows
-- that it answers a query with (Store/Select says which rows, in which order, and which numbers and
-- texts it refuses); the functions of
-- PostGIS in these queries, and the order of the texts that the database's collation gives; the
-- conversions of `Scan`; the clock, as the times that it shows. The handlers take the store's queries as an interface, which Store/Answers fills, and the
-- poller its decoder, which Realtime/Decoder fills (`proto_decoder`).
--
-- Not modelled: of the SQL scripts of internal/store/migrations the types of the columns other than
-- INTEGER, which refuse texts with a zero byte, years before the first and broken lines, and the
-- indexes; the record types of internal/gtfs/models.go that nothing uses; the redirect of a path
-- that is not clean, which `http.ServeMux` makes before it looks for a route; what the time-outs of
-- internal/api/server.go end; logs and the usage text of cmd/tracker/main.go. Signals,
-- `ListenAndServe` and `Shutdown` appear by how serving ends (`Ending` of Main).
pub mod Base
pub mod GoMap
pub mod Float
pub mod Vehicle
pub mod Broadcast
mod Tests
pub mod Realtime
pub mod Tracker
pub mod Api
pub mod Gtfs
pub mod Store
pub mod Main
pub mod Flags
