-- ===== src/Sleep.antt =====
-- While the displays are asleep, the classification of an observation starts no work that lights
-- them.
pub mod Quiet
pub mod Classified
