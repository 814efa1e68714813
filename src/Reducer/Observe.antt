-- ===== src/Reducer/Observe.antt =====
-- `_observe` of .local/lib/monitor-controller/monitor_controller/reducer.py: what one completed
-- observation decides.
mod Recorded
mod Invalid
mod Stale
mod Running
unfoldable pub use Recorded.{record_observation}
pub use Recorded.{outdated, can_dirty_desktop, finalized_profile_returned}
unfoldable pub use Invalid.{
  cancel_probe, cancel_application, cancel_preparation, cancel_finalization, conclude_invalid,
  observe_invalid,
}
pub use Invalid.{stop_effects, internal_application}
unfoldable pub use Stale.{
  stop_stale_probe, stop_stale_application, fail_finalization_result, stop_finalization,
  stop_stale_finalization, stop_preparation, stop_stale_preparation, stop_stale_work,
}
unfoldable pub use Running.{
  await_display_worker, complete_finalization, observe_finalizing, conclude_observe,
  observe_preparation_result, observe_preparing, observe_running, observe_topology, observe_valid,
  observe,
}
pub use Running.{verifying_since, is_exact, is_uncertain, hasten}
