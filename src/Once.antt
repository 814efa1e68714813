-- ===== src/Once.antt =====
-- An action has an identity of its own, and is not started twice for the same evidence.
pub mod Fresh
pub mod Admit
pub mod Apply
pub mod Dispatch
pub mod Kept
