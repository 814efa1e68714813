-- ===== src/Reducer/Workers.antt =====
-- `_dispatched` and `_finished` of .local/lib/monitor-controller/monitor_controller/reducer.py: a
-- worker's acknowledgement and its result, for each kind of action.
mod Kinds
mod Dispatched
mod Display
mod Desktop
pub use Kinds.{by_kind}
unfoldable pub use Dispatched.{
  dispatched_probe, dispatched_application, dispatched_preparation, dispatched_finalization,
  dispatched,
}
unfoldable pub use Display.{close_probe, finished_probe, close_application, finished_application}
pub use Display.{unsuccessful, observe_again, stop_again, ended_probe, ended_application}
unfoldable pub use Desktop.{
  close_preparation, finished_preparation, close_finalization, finished_finalization, finished,
}
pub use Desktop.{ended_preparation, ended_finalization}
