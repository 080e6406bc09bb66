-- ===== src/Http.antt =====
-- services/apis/httpapi/httpapi.go: the HTTP API.
pub mod Arrays
pub mod Nested
pub mod Requests
pub mod Sockets
pub mod Exports
pub mod Handlers
