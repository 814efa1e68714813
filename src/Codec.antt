-- ===== src/Codec.antt =====
-- The stored form of the state: .local/lib/monitor-controller/monitor_controller/codec.py.
pub mod Validation
pub mod Migration
pub mod Accepted
pub mod Excluded
pub mod Recovered
pub mod Values
pub mod Encode
pub mod Decode
pub mod RoundTrip
pub mod Restored
