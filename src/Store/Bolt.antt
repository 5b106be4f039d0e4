-- ===== src/Store/Bolt.antt =====
-- BoltStore of internal/store/store.go.
pub mod Buckets
pub mod Counter
pub mod Indexes
pub mod Writing
pub mod Pruning
pub mod Opening
pub mod Methods
pub mod Views
pub mod Keys
pub mod Effects
pub mod Counting
pub mod Invariant
pub mod Written
pub mod Replacing
pub mod Saving
pub mod Running
pub mod Sparing
pub mod Deleting
pub mod Deleted
pub mod Victims
pub mod Selection
pub mod Excess
pub mod Emptied
pub mod Phases
pub mod Shrunk
pub mod Pruned
pub mod Pruner
pub mod Terminating
pub mod Cleared
pub mod Rebuilding
pub mod Rebuilt
pub mod Listing
pub mod Listed
pub mod Finished
pub mod Sequences
pub mod Refinement
pub mod Database
pub mod Sample
mod Tests
