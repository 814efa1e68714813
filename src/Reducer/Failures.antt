-- ===== src/Reducer/Failures.antt =====
-- `_fail_action`, `_admission_dirtied`, `_stop_uncertain_mutator` and `_cancellation_acknowledged` of
-- .local/lib/monitor-controller/monitor_controller/reducer.py.
mod Failed
mod Stopped
mod Acknowledged
unfoldable pub use Failed.{place_failed, fail_action, withdraw_admission, admission_dirtied}
unfoldable pub use Stopped.{place_stopping, stop_uncertain_mutator}
pub use Stopped.{stop_reason}
unfoldable pub use Acknowledged.{
  resume_completed, place_unfinished, place_cancelled, end_stopping, cancellation_acknowledged,
}
pub use Acknowledged.{with_result, after_stop, is_preparation}
