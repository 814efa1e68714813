-- ===== src/Guards.antt =====
-- The answers of `reduce` to timers, samples, results and a change of the boot.
pub mod Timers
pub mod Retries
pub mod Stopping
pub mod Boots
pub mod Results
