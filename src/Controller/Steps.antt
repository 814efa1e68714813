-- ===== src/Controller/Steps.antt =====
-- The steps of the controller: `process_next`, `_handle_effect` and the producers of events of
-- .local/lib/monitor-controller/monitor_controller/runtime/controller.py.
use desktop_config.Prelude.{
  Bool, List, Option, Result, String, [], false, if◌then◌else◌, is_some, maybe, none, not, ok, some,
  true, ℕ, ◌&&◌, ◌∷◌, ◌≡◌,
}
use desktop_config.Controller.Dispatch.{DispatchEffect}
use desktop_config.Controller.Effects.{Observed, create_plan, request_plan, request_sample}
use desktop_config.Controller.Machine.{
  Machine, Task, end_plan, enqueue, notify_drm_hint, process_event, start_machine,
}
use desktop_config.Controller.Starting.{
  Start, launch_request, report_finished, report_unknown, start_prepared, write_request,
}
use desktop_config.Controller.Stopping.{Stopped, stop_action}
use desktop_config.Model.Effect.{Effect}
use desktop_config.Model.Event.{Event}
use desktop_config.Model.Identity.{ActionId}

-- What the adapters answer to a task, and when
pub record Answer : Type 0 where
  pub now_ms : ℕ
  pub observed : Observed
  pub write_failure : Option String
  pub start : Start
  pub stopped : Stopped

-- The effects with which `_dispatch` is called
unfoldable pub to_dispatch : Effect → Option DispatchEffect
to_dispatch (Effect.activate_probe e) = some (DispatchEffect.probe e)
to_dispatch (Effect.apply_profile e) = some (DispatchEffect.apply e)
to_dispatch (Effect.prepare_desktop e) = some (DispatchEffect.prepare e)
to_dispatch (Effect.finalize_desktop e) = some (DispatchEffect.finalize e)
to_dispatch _ = none

-- The rest of `_handle_effect`; `_discard_plan` asks the planner, and cancels the planning task, whose
-- end is a step of its own.
unfoldable pub handle_other : Machine → Effect → Bool → Answer → Result Machine
unfolding request_sample request_plan stop_action
handle_other m (Effect.request_observation e) fenced a = request_sample m fenced a.observed a.now_ms
handle_other m (Effect.request_plan e) fenced a = request_plan m fenced e a.now_ms
handle_other m (Effect.stop_action e) fenced a = stop_action m fenced e.action_id a.stopped a.now_ms
handle_other m _ fenced a = ok m

-- `_handle_effect`
unfoldable pub handle_effect : Machine → Effect → Bool → Answer → Result Machine
unfolding to_dispatch handle_other write_request
handle_effect m e fenced a =
    maybe (to_dispatch e) (handle_other m e fenced a)
      λ effect. if fenced then ok m else write_request m effect a.write_failure a.now_ms

-- The innermost task, taken off the others
unfoldable pub perform_task : Machine → Task → Answer → Result Machine
unfolding handle_effect launch_request start_prepared report_unknown report_finished create_plan
perform_task m (Task.perform e fenced) a = handle_effect m e fenced a
perform_task m (Task.launch effect) a = launch_request m effect a.now_ms
perform_task m (Task.submit effect) a = start_prepared m effect a.start a.now_ms
perform_task m (Task.report_unknown action_id reason) a =
    report_unknown m false action_id reason a.now_ms
perform_task m (Task.report_finished c) a = report_finished m c a.now_ms
perform_task m (Task.create_plan action_id) a = create_plan m action_id

-- Whether the dispatcher says that it may have submitted the worker
unfoldable pub is_submission : Start → Bool
is_submission (Start.refused reason) = false
is_submission Start.fenced_off = false
is_submission (Start.accepted unit) = true
is_submission (Start.uncertain unit reason) = true
is_submission (Start.ended unit detail c) = true

-- The tasks before which `_pre_dispatch_fence` drains the queue
unfoldable pub drains : Task → Bool
unfolding to_dispatch
drains (Task.perform e fenced) = is_some (to_dispatch e) && not fenced
drains (Task.launch effect) = true
drains _ = false

-- One step, of the controller or of a producer. The queue is consumed where no task is left, and
-- drained before a fence.
pub data Step (m n : Machine) : Type 0 where
  started : (now_ms : ℕ) → n ≡ start_machine m now_ms → Step m n
  hinted : (now_ms : ℕ) → n ≡ notify_drm_hint m now_ms → Step m n
  enqueued : (e : Event) → n ≡ enqueue m e → Step m n
  planned : (i : ActionId) (event : Option Event) → n ≡ end_plan m i event → Step m n
  consumed :
      (e : Event) (rest : List Event)
      → m.tasks ≡ []
      → m.queue ≡ e ∷ rest
      → process_event (record m { queue = rest }) false e ≡ ok n
      → Step m n
  drained :
      (t : Task) (later : List Task) (e : Event) (rest : List Event)
      → m.tasks ≡ t ∷ later
      → drains t ≡ true
      → m.queue ≡ e ∷ rest
      → process_event (record m { queue = rest }) true e ≡ ok n
      → Step m n
  performed :
      (t : Task) (later : List Task) (a : Answer)
      → m.tasks ≡ t ∷ later
      → perform_task (record m { tasks = later }) t a ≡ ok n
      → Step m n

-- The runs of the controller from a machine
pub data Runs (m : Machine) : Machine → Type 0 where
  begin : Runs m m
  next : {n k : Machine} → Runs m n → Step n k → Runs m k
