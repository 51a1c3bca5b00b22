-- ===== src/Wiki.antt =====
-- The wiki rules of src/asme/wiki.py: the sample of traces, the patches and the pages of patterns, and
-- the checks of a maintainer's change. Page texts are code points.
pub mod Traces
pub mod Patch
pub mod Page
pub mod Attestation
pub mod Change
pub mod Laws
mod Tests
