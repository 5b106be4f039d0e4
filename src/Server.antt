-- ===== src/Server.antt =====
-- internal/server/http.go
pub mod Form
pub mod Pages
pub mod Paths
pub mod RoundTrip
pub mod Handlers
pub mod Serving
pub mod Editing
mod Tests
