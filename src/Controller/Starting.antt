-- ===== src/Controller/Starting.antt =====
-- How the controller starts a worker: `_dispatch` and what it calls in
-- .local/lib/monitor-controller/monitor_controller/runtime/controller.py. The event queue may be
-- drained before each of the first two fences, which is a step of its own.
use desktop_config.Prelude.{
  Bool, Error, List, Option, Result, String, [], ambiguous_bijection, controller_invariant, err,
  false, if◌then◌else◌, maybe, nat_eq, ok, option_eq, out_of_rounds, true, value_error, ℕ, ◌!=◌,
  ◌++◌, ◌<>◌, ◌>>=◌, ◌||◌, ◌∷◌,
}
use desktop_config.Controller.Context.{worker_request_context}
use desktop_config.Controller.Dispatch.{
  DispatchEffect, WorkerCompletion, dispatched_event, effect_generation, effect_id, finished_event,
}
use desktop_config.Controller.Effects.{stamp}
use desktop_config.Controller.Machine.{Machine, Task, effect_is_current, process_event}
use desktop_config.Model.Enums.{ActionLifecycle, action_lifecycle_eq}
use desktop_config.Model.Event.{Event}
use desktop_config.Model.Identity.{
  ActionId, WorkerUnit, action_id_eq, boot_id_eq, event_generation_eq,
}

-- `_record_dirty_admission`
unfoldable pub record_dirty_admission : Machine → DispatchEffect → ℕ → Result Machine
record_dirty_admission m effect now_ms = process_event m true (
    Event.admission_dirtied (record {
      metadata = stamp m now_ms;
      action_id = effect_id effect;
      event_generation = record { value = m.event_generation };
    }))

-- `_reject_dispatch`
unfoldable pub reject_dispatch : Machine → DispatchEffect → String → ℕ → Result Machine
reject_dispatch m effect reason now_ms = process_event m false (
    Event.dispatch_rejected
      (record { metadata = stamp m now_ms; action_id = effect_id effect; reason = reason }))

-- `_pre_dispatch_fence` once the queue is drained, and what follows where it passes
unfoldable pub pre_dispatch_fence : Machine → DispatchEffect → ℕ → Result Machine → Result Machine
unfolding record_dirty_admission effect_is_current
pre_dispatch_fence m effect now_ms passed =
    if m.event_generation != (effect_generation effect).value
    then record_dirty_admission m effect now_ms
    else if effect_is_current m.state effect
    then passed
    else ok m

-- `_bounded_reason("request_write", _exception_detail(error))` of a `ValueError` with one of the
-- short messages above
abbrev pub error_text : Error → String
error_text (value_error message) = "request_write: ValueError: " <> message
error_text (controller_invariant message) = "request_write: ControllerInvariantError: " <> message
error_text ambiguous_bijection = ""
error_text out_of_rounds = ""

-- `_dispatch` up to the written request; `failure` is why the dispatcher could not write it.
unfoldable pub write_request : Machine → DispatchEffect → Option String → ℕ → Result Machine
unfolding pre_dispatch_fence reject_dispatch worker_request_context
write_request m effect failure now_ms =
    pre_dispatch_fence m effect now_ms (elim (worker_request_context m.state effect) [
      | err e ↦ reject_dispatch m effect (error_text e) now_ms
      | ok context ↦
          maybe failure (ok (record m { tasks = Task.launch effect ∷ m.tasks }))
            λ reason. reject_dispatch m effect reason now_ms
    ])

-- `_dispatch` from the written request to the dispatcher's `start`
unfoldable pub launch_request : Machine → DispatchEffect → ℕ → Result Machine
unfolding pre_dispatch_fence
launch_request m effect now_ms =
    pre_dispatch_fence m effect now_ms (ok (record m { tasks = Task.submit effect ∷ m.tasks }))

-- What the dispatcher's `start` comes to: `refused` before any submission, `fenced_off` by the last
-- fence, or submitted: then it is `accepted`, `uncertain`, or already `ended`, by a
-- `DispatchAdapterError` with the detail and the completion that it carries.
pub data Start : Type 0 where
  refused : String → Start
  fenced_off : Start
  accepted : WorkerUnit → Start
  uncertain : WorkerUnit → String → Start
  ended : WorkerUnit → String → WorkerCompletion → Start

-- `_handle_final_fence_rejection`
unfoldable pub final_fence_rejection : Machine → DispatchEffect → ℕ → Result Machine
unfolding record_dirty_admission reject_dispatch effect_is_current
final_fence_rejection m effect now_ms =
    if m.event_generation != (effect_generation effect).value
    then record_dirty_admission m effect now_ms
    else if effect_is_current m.state effect
    then reject_dispatch m effect "unit_start: RuntimeError: adapter rejected a passing final fence"
        now_ms
    else ok m

-- `_acknowledge_dispatch`, with what is to follow once its effects are handled
unfoldable pub acknowledge_dispatch :
    Machine → DispatchEffect → WorkerUnit → List Task → ℕ → Result Machine
acknowledge_dispatch m effect unit after now_ms =
    process_event (record m { submitted = effect ∷ m.submitted; tasks = after ++ m.tasks }) false
      (dispatched_event effect unit (stamp m now_ms))

-- `_start_prepared`
unfoldable pub start_prepared : Machine → DispatchEffect → Start → ℕ → Result Machine
unfolding reject_dispatch final_fence_rejection acknowledge_dispatch
start_prepared m effect (refused reason) now_ms = reject_dispatch m effect reason now_ms
start_prepared m effect fenced_off now_ms = final_fence_rejection m effect now_ms
start_prepared m effect (accepted unit) now_ms = acknowledge_dispatch m effect unit [] now_ms
start_prepared m effect (uncertain unit reason) now_ms =
    acknowledge_dispatch m effect unit (Task.report_unknown (effect_id effect) reason ∷ []) now_ms
start_prepared m effect (ended unit detail c) now_ms =
    acknowledge_dispatch m effect unit
      ((if c.action_id != effect_id effect || c.terminal_lifecycle != ActionLifecycle.failed
          then Task.report_unknown (effect_id effect)
              ("unit_start_terminal_result: DispatchAdapterError: " <> detail)
          else Task.report_finished c)
        ∷ [])
      now_ms

-- The second events of `_mark_dispatch_uncertain` and `_complete_definitely_rejected_start`
unfoldable pub report_unknown : Machine → Bool → ActionId → String → ℕ → Result Machine
report_unknown m fenced action_id reason now_ms = process_event m fenced (
    Event.worker_status_unknown
      (record { metadata = stamp m now_ms; action_id = action_id; reason = reason }))

unfoldable pub report_finished : Machine → WorkerCompletion → ℕ → Result Machine
report_finished m c now_ms = do
  event ← finished_event c (stamp m now_ms)
  process_event m false event
