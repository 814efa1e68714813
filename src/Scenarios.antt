-- ===== src/Scenarios.antt =====
-- Concrete states and samples, and the theorems applied to them.
pub mod Data
pub mod Decisions
pub mod Checks
mod Runs
mod Answers
mod Admissions
mod Machines
mod Stores
mod Outputs
mod Probes
