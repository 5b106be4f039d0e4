-- ===== src/Engine.antt =====
-- internal/engine/engine.go
pub mod Timing
pub mod World
pub mod Registry
pub mod Saving
pub mod Pausing
pub mod Entries
pub mod Consistency
pub mod Switching
pub mod Events
pub mod Pruning
pub mod Runs
pub mod Startup
pub mod Requests
pub mod Reachability
pub mod Recorded
pub mod Overlap
pub mod Firing
pub mod Collision
pub mod KeptTimes
pub mod Saved
pub mod Storable
pub mod Samples
mod Tests
