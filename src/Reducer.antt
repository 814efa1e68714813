-- ===== src/Reducer.antt =====
-- The policy reducer of .local/lib/monitor-controller/monitor_controller/reducer.py, one module for
-- each group of its functions.
pub mod Timing
pub mod Outcome
pub mod Tombstones
pub mod Targets
pub mod Epochs
pub mod Admission
pub mod Verification
pub mod Pending
pub mod Classify
pub mod Observe
pub mod Workers
pub mod Plans
pub mod Failures
pub mod Hints
pub mod Reduce
