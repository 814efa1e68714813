-- ===== src/Controller/Machine.antt =====
-- The controller's own state and its serialized step: `SerializedController` of
-- .local/lib/monitor-controller/monitor_controller/runtime/controller.py. What its adapters answer
-- is an argument.
use mathlib.Core.Option
use desktop_config.Prelude.{
  Bool, List, Option, Result, String, [], discard, false, if◌then◌else◌, map, max, maybe, nat_eq,
  none, ok, option_eq, some, true, ℕ, ◌&&◌, ◌++◌, ◌+◌, ◌==◌, ◌>>=◌, ◌∷◌,
}
use desktop_config.Controller.Dispatch.{
  DispatchEffect, WorkerCompletion, effect_generation, effect_id,
}
use desktop_config.Model.Action.{ActionRecord, record_id, record_lifecycle}
use desktop_config.Model.Effect.{Effect}
use desktop_config.Model.Enums.{ActionKind, ActionLifecycle, action_lifecycle_eq}
use desktop_config.Model.Event.{Event}
use desktop_config.Model.Identity.{
  ActionId, EventGeneration, action_id_eq, boot_id_eq, event_generation_eq,
}
use desktop_config.Model.Observation.{CanonicalObservation}
use desktop_config.Model.State.{State}
use desktop_config.Reducer.Reduce.{reduce}

-- What nested calls of `_process_event` have still to do. `perform` is an effect to handle, and says
-- whether it was decided while `_fence_depth` was above zero, which is while a worker is on its way
-- to its start; `launch` and `submit` are the two halves of `_dispatch` after the request is
-- written; `report_unknown` and `report_finished` are the second events of
-- `_mark_dispatch_uncertain` and `_complete_definitely_rejected_start`; `create_plan` is the end of
-- `_request_plan`.
pub data Task : Type 0 where
  perform : Effect → Bool → Task
  launch submit : DispatchEffect → Task
  report_unknown : ActionId → String → Task
  report_finished : WorkerCompletion → Task
  create_plan : ActionId → Task

-- The fields of `SerializedController` that decide what it does. `stored` is the state that the
-- store was last given; the first of `tasks` is the innermost; `planning_tasks` are the actions with
-- a planning task; `submitted` are the effects whose workers the dispatcher has been told to start,
-- the latest first.
pub record Machine : Type 0 where
  pub state : State
  pub stored : State
  pub event_generation : ℕ
  pub queue : List Event
  pub deadline_ms : Option ℕ
  pub tasks : List Task
  pub planning_tasks : List ActionId
  pub pending_boot_observation : Option CanonicalObservation
  pub started : Bool
  pub submitted : List DispatchEffect

-- `__init__`, with a state that the store holds
unfoldable pub new_machine : State → Machine
new_machine s = record {
  state = s;
  stored = s;
  event_generation = s.event_generation.value;
  queue = [];
  deadline_ms = none;
  tasks = [];
  planning_tasks = [];
  pending_boot_observation = none;
  started = false;
  submitted = [];
}

-- `start`, once: the persisted deadline, and the event of the start
unfoldable pub start_machine : Machine → ℕ → Machine
start_machine m now_ms = if m.started then m else record m {
  deadline_ms = m.state.next_timer_ms;
  queue =
      m.queue
      ++ Event.controller_started (record {
        metadata = record { processed_at_ms = now_ms; boot_id = m.state.boot_id };
        controller_instance = m.state.controller_instance;
      })
        ∷ [];
  started = true;
}

-- `notify_drm_hint`
unfoldable pub notify_drm_hint : Machine → ℕ → Machine
notify_drm_hint m now_ms = record m {
  event_generation = m.event_generation + 1;
  queue =
      m.queue
      ++ Event.drm_hint_received (record {
        metadata = record { processed_at_ms = now_ms; boot_id = m.state.boot_id };
        event_generation = record { value = m.event_generation + 1 };
      })
        ∷ [];
}

-- `put_nowait`, by which the timer, the planner and the supervisor hand over their events
unfoldable pub enqueue : Machine → Event → Machine
enqueue m event = record m { queue = m.queue ++ event ∷ [] }

-- The end of `_run_plan`: its event is queued, unless the task was cancelled.
unfoldable pub end_plan : Machine → ActionId → Option Event → Machine
end_plan m action_id event = record m {
  planning_tasks = discard m.planning_tasks action_id;
  queue = maybe event m.queue λ e. m.queue ++ e ∷ [];
}

-- The generation that `_process_event` goes on with
unfoldable pub next_generation : Event → ℕ → State → ℕ
next_generation (Event.boot_changed e) generation s = s.event_generation.value
next_generation _ generation s = max generation s.event_generation.value

-- `_process_event` up to its effects: they are put before the tasks at hand.
unfoldable pub process_event : Machine → Bool → Event → Result Machine
unfolding next_generation
process_event m fenced event = do
  d ← reduce m.state event
  ok (record m {
    state = d.state;
    stored = d.state;
    event_generation = next_generation event m.event_generation d.state;
    deadline_ms = d.state.next_timer_ms;
    tasks = map (λ (e : Effect). Task.perform e fenced) d.effects ++ m.tasks;
  })

-- The slot of a kind; a planning action has no worker.
abbrev pub slot_of : State → ActionKind → Option ActionRecord
slot_of s ActionKind.probe = Option.map ActionRecord.probe s.probe
slot_of s ActionKind.application = Option.map ActionRecord.application s.application
slot_of s ActionKind.preparation = Option.map ActionRecord.preparation s.preparation
slot_of s ActionKind.finalization = Option.map ActionRecord.finalization s.finalization
slot_of s ActionKind.plan = none

-- `action.admitted_event_generation`, which a planning action does not have
abbrev pub record_generation : ActionRecord → Option EventGeneration
record_generation (ActionRecord.probe a) = some a.admitted_event_generation
record_generation (ActionRecord.application a) = some a.admitted_event_generation
record_generation (ActionRecord.planning a) = none
record_generation (ActionRecord.preparation a) = some a.admitted_event_generation
record_generation (ActionRecord.finalization a) = some a.admitted_event_generation

-- `_effect_is_current`
unfoldable pub effect_is_current : State → DispatchEffect → Bool
effect_is_current s effect = maybe (slot_of s (effect_id effect).kind) false λ action.
    record_id action == effect_id effect
    && record_lifecycle action == ActionLifecycle.admitted
    && record_generation action == some (effect_generation effect)

-- `_final_dispatch_fence_passes`
unfoldable pub final_dispatch_fence_passes : Machine → DispatchEffect → Bool
unfolding effect_is_current
final_dispatch_fence_passes m effect =
    m.event_generation == (effect_generation effect).value && effect_is_current m.state effect
