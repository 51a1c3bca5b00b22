-- ===== src/Proposal.antt =====
-- The proposals of src/asme/proposal.py.
pub mod Origins
pub mod Edits
pub mod Decision
mod Tests
