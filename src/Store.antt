-- ===== src/Store.antt =====
-- internal/store/store.go
pub mod Interface
pub mod Retention
pub mod Memory
pub mod Bolt
mod Tests
