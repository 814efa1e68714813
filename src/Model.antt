-- ===== src/Model.antt =====
-- The immutable domain values of the controller: one module for each group of classes of model.py.
pub mod Enums
pub mod Identity
pub mod Observation
pub mod Action
pub mod State
pub mod Event
pub mod Effect
