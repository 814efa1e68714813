-- ===== src/Invariants.antt =====
-- The central invariants that every decision of the reducer is held to, one module for each group
-- of checks of .local/lib/monitor-controller/monitor_controller/invariants.py.
pub mod Rules
pub mod Phases
pub mod Identities
pub mod Authority
pub mod Safety
pub mod Checks
