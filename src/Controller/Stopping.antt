-- ===== src/Controller/Stopping.antt =====
-- How the controller stops a worker: `_stop_action` of
-- .local/lib/monitor-controller/monitor_controller/runtime/controller.py.
use desktop_config.Prelude.{
  Bool, Option, Result, String, false, if◌then◌else◌, is_some, maybe, not, ok, ℕ, ◌!=◌, ◌&&◌, ◌==◌,
}
use desktop_config.Controller.Dispatch.{WorkerCompletion}
use desktop_config.Controller.Effects.{stamp}
use desktop_config.Controller.Machine.{Machine, process_event, slot_of}
use desktop_config.Controller.Starting.{report_unknown}
use desktop_config.Model.Action.{record_id, record_lifecycle, record_unit}
use desktop_config.Model.Enums.{ActionLifecycle, action_lifecycle_eq}
use desktop_config.Model.Event.{Event}
use desktop_config.Model.Identity.{ActionId, action_id_eq}
use desktop_config.Model.State.{State}

-- What the supervisor shows of a worker that it was told to stop: a call that `failed`, a worker
-- that is `active` still, or an `inactive` one with its result, if there is one.
pub data Stopped : Type 0 where
  failed : String → Stopped
  active : Stopped
  inactive : Option WorkerCompletion → Stopped

-- The worker that is being stopped
unfoldable pub is_stopping : State → ActionId → Bool
is_stopping s action_id = maybe (slot_of s action_id.kind) false λ action.
    record_id action == action_id
    && record_lifecycle action == ActionLifecycle.stopping
    && is_some (record_unit action)

unfoldable pub stop_action : Machine → Bool → ActionId → Stopped → ℕ → Result Machine
unfolding is_stopping report_unknown
stop_action m fenced action_id answer now_ms =
    if not (is_stopping m.state action_id) then ok m else elim answer [
      | failed reason ↦ report_unknown m fenced action_id reason now_ms
      | active ↦ ok m
      | inactive completion ↦
          maybe completion
            (report_unknown m fenced action_id
              "result_after_stop: inactive worker lacks its exact result" now_ms)
            λ c.
              if c.action_id != action_id
              then report_unknown m fenced action_id
                  "result_after_stop: inactive worker lacks its exact result" now_ms
              else process_event m fenced (
                  Event.worker_cancellation_acknowledged (record {
                    metadata = stamp m now_ms;
                    action_id = action_id;
                    terminal_lifecycle = c.terminal_lifecycle;
                    exit_status = c.exit_status;
                  }))
    ]
