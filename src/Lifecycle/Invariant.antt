-- ===== src/Lifecycle/Invariant.antt =====
-- What holds of a domain between two transitions.
pub mod Defs
pub use Defs.*
pub mod Setup
pub mod Training
pub mod Gate
pub mod Delivery
pub mod Transition
