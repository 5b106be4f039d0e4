-- ===== src/Config.antt =====
-- internal/config/config.go
pub mod Types
pub mod Defaults
pub mod Filled
pub mod Validate
pub mod Spec
pub mod Soundness
mod Tests
