-- ===== src/Lifecycle/Routes.antt =====
-- The delivery routes of a domain.
pub mod Defs
pub mod Phases
pub mod Branches
pub mod Delivery
