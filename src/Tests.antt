-- ===== src/Tests.antt =====
-- Concrete inputs: instances of the interfaces, runs of the code, and the theorems applied to them.
mod Samples
mod VehicleTests
mod SnapperTests
mod BroadcastTests
mod DriftTests
mod TrackerTests
mod KalmanTests
mod RealtimeTests
mod ApiTests
mod GtfsTests
mod StoreTests
mod ConnectionTests
mod MainTests
mod SchemaTests
mod ImportedTests
mod ShapesTests
mod StopsTests
mod RequestsTests
mod ServedTests
