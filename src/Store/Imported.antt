-- ===== src/Store/Imported.antt =====
-- The answers of the API behind an import (internal/gtfs/importer.go) into a database with the keys of
-- the schema: internal/store/queries.go on the tables that the importer has filled.
pub mod Keys
pub mod Joined
pub mod Lines
pub mod Contents
pub mod StopTimes
pub mod Listing
pub mod Routes
pub mod Geometry
pub mod Shapes
pub mod Stops
pub mod Service
pub mod Requests
