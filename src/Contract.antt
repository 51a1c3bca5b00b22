-- ===== src/Contract.antt =====
-- The enumerations of src/asme/contract.py that the lifecycle and the claims policy read, with the
-- text of each value.
pub mod Enums
pub use Enums.*
