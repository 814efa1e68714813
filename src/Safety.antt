-- ===== src/Safety.antt =====
-- What every decision of the reducer guarantees.
pub mod Returns
pub mod Checked
pub mod Spec
pub mod Rows
pub mod Rules
pub mod Reachable
