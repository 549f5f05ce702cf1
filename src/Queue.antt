-- ===== src/Queue.antt =====
-- crates/core/src/queue: the queue model.
pub mod Permutation
pub mod Spans
pub mod State
pub mod Read
pub mod Cleanup
pub mod ShuffleReads
pub mod History
pub mod Previous
pub mod Anchors
pub mod UpNext
pub mod Unshuffle
pub mod Held
pub mod Pieces
pub mod Rewind
pub mod Edit
pub mod Parity
pub mod WellFormed
pub mod Reachable
pub mod Refused
mod Tests
