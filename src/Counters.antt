-- ===== src/Counters.antt =====
-- The counters of a state, and an attempted probe key, through every handler.
pub mod Gives
pub mod Ahead
pub mod Steps
pub mod Classified
pub mod Observed
pub mod Ended
pub mod Handled
