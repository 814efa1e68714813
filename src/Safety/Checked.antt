-- ===== src/Safety/Checked.antt =====
-- Every decision that a handler returns went through `assert_controller_invariants`.
pub mod Checks
pub mod States
pub mod Pending
pub mod Observations
pub mod Handlers
