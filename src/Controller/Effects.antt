-- ===== src/Controller/Effects.antt =====
-- How the controller handles the effects of a decision: `_handle_effect` and what it calls in
-- .local/lib/monitor-controller/monitor_controller/runtime/controller.py.
use desktop_config.Prelude.{
  Bool, Result, String, discard, elem, if◌then◌else◌, maybe, nat_eq, none, ok, option_eq, some, ℕ,
  ◌!=◌, ◌&&◌, ◌==◌, ◌∷◌,
}
use desktop_config.Controller.Machine.{Machine, Task, process_event}
use desktop_config.Model.Effect.{RequestPlan}
use desktop_config.Model.Enums.{ActionLifecycle, action_lifecycle_eq}
use desktop_config.Model.Event.{Event, EventMetadata}
use desktop_config.Model.Identity.{ActionId, action_id_eq, boot_id_eq, event_generation_eq}
use desktop_config.Model.Observation.{CanonicalObservation}

abbrev pub stamp : Machine → ℕ → EventMetadata
stamp m now_ms = record { processed_at_ms = now_ms; boot_id = m.state.boot_id }

-- The observation adapter's answer: a sample, or the reason of its failure.
pub data Observed : Type 0 where
  sample : CanonicalObservation → Observed
  raised : String → Observed

-- `_request_observation` with the sample at hand
unfoldable pub deliver_observation : Machine → Bool → CanonicalObservation → ℕ → Result Machine
deliver_observation m fenced o now_ms =
    if o.boot_id != m.state.boot_id
    then process_event (record m { pending_boot_observation = some o }) fenced
        (Event.boot_changed (record {
          metadata = record { processed_at_ms = now_ms; boot_id = o.boot_id };
          previous_boot_id = m.state.boot_id;
        }))
    else process_event m fenced (
        Event.observation_completed (record {
          metadata = record { processed_at_ms = now_ms; boot_id = o.boot_id };
          observation = o;
        }))

-- `_request_observation`: a sample that a change of the boot has set aside comes first.
unfoldable pub request_sample : Machine → Bool → Observed → ℕ → Result Machine
unfolding deliver_observation
request_sample m fenced answer now_ms =
    let taken = record m { pending_boot_observation = none } in
    maybe m.pending_boot_observation
      (elim answer [
        | sample o ↦ deliver_observation taken fenced o now_ms
        | raised reason ↦
            process_event taken fenced
              (Event.observation_failed (record { metadata = stamp m now_ms; reason = reason }))
      ])
      λ o. deliver_observation taken fenced o now_ms

-- `_request_plan`; what follows its event is the task `create_plan`.
unfoldable pub request_plan : Machine → Bool → RequestPlan → ℕ → Result Machine
request_plan m fenced request now_ms =
    if elem request.action_id m.planning_tasks
    then ok m
    else process_event (record m { tasks = Task.create_plan request.action_id ∷ m.tasks }) fenced
        (Event.plan_requested (record {
          metadata = stamp m now_ms;
          action_id = request.action_id;
          input_key = request.input_key;
        }))

-- The end of `_request_plan`: the planning task starts for an action that is dispatched still.
unfoldable pub create_plan : Machine → ActionId → Result Machine
create_plan m action_id = maybe m.state.planning (ok m) λ action.
    if action.action_id == action_id && action.lifecycle == ActionLifecycle.dispatched
    then ok (record m { planning_tasks = action_id ∷ discard m.planning_tasks action_id })
    else ok m
