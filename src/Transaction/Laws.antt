-- ===== src/Transaction/Laws.antt =====
-- The laws of the transaction engine.
pub mod Actions
pub mod Trees
pub mod Prepare
pub mod Writes
pub mod Removals
pub mod Locations
pub mod Outputs
pub mod Deletions
pub mod Recovery
pub mod Resume
pub mod Execution
pub mod Interrupted
pub mod Requests
pub mod Rooms
pub mod Ready
pub mod Drops
pub mod Checked
pub mod Commits
