-- ===== src/Observer.antt =====
-- The pure parts of .local/lib/monitor-controller/monitor_controller/observer/.
pub mod Bijection
pub mod Enumerated
pub mod Sole
pub mod Verdict
pub mod Topology
pub mod Injective
