-- ===== src/Wiki/Laws.antt =====
-- The laws of the wiki rules.
pub mod Sampling
pub mod Patches
pub mod Quotes
pub mod Pages
pub mod Changes
