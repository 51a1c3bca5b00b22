-- ===== src/Transaction.antt =====
-- src/asme/transaction.py: transactions that record their intent first, and their recovery.
pub mod Records
pub mod Tree
pub mod Disk
pub mod Materialize
pub mod Validate
pub mod Replay
pub mod Recover
pub mod Request
pub mod Preconditions
pub mod Execute
pub mod Laws
mod Tests
