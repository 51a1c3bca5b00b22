-- ===== src/Lifecycle.antt =====
-- src/asme/lifecycle.py: the total transition table of one domain, with its refusals.
pub mod State
mod Tests
pub mod Manifests
pub mod Branches
pub mod Transition
pub mod Outcomes
pub mod Consumption
pub mod Invariant
pub mod Reach
pub mod Promotion
pub mod Verdict
pub mod Scored
pub mod BestScore
pub mod Routes
pub mod History
pub mod Continuity
pub mod Budget
