-- ===== src/Target.antt =====
-- internal/target/target.go and internal/target/target_faktory.go
pub mod Http
pub mod Faktory
pub mod Dispatch
mod Tests
