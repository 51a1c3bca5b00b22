-- ===== src/Dependencies.antt =====
-- The dependency matrix of src/asme/dependencies.py and its checks. A set of names is a list of them;
-- the messages leave out the names that Python prints after them.
pub mod Matrix
pub mod Table
pub mod Hashes
pub mod Coverage
mod Tests
