-- ===== src/Retention.antt =====
-- How terminal identities are kept: properties of the tombstones of
-- .local/lib/monitor-controller/monitor_controller/model.py and reducer.py.
pub mod Sets
pub mod Bound
pub mod Append
