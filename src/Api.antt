-- ===== src/Api.antt =====
-- internal/api: the HTTP handlers, and the parsing of their parameters.
pub mod Split
pub mod BBox
pub mod Handlers
pub mod Mux
pub mod Server
