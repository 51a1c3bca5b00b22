-- ===== src/Lifecycle/Branches.antt =====
-- The branches of `transition` in src/asme/lifecycle.py, one function each.
pub mod Setup
pub mod Training
pub mod Gate
pub mod Delivery
unfoldable pub use Setup.*
unfoldable pub use Training.*
unfoldable pub use Gate.*
unfoldable pub use Delivery.*
