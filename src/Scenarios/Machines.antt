-- ===== src/Scenarios/Machines.antt =====
-- The theorems on the controller, at the scenarios.
use desktop_config.Prelude.{
  List-discrete, Option-discrete, String-discrete, [], arith, false, inr, map, max, nat_eq, none,
  ok, refl, some, string_eq, ℕ_discrete, ◌++◌, ◌↔◌, ◌∷◌, ◌≡◌,
}
use desktop_config.Codec.Values.{value_eq}
use desktop_config.Controller.Awake.{arm-fire-wakes}
use desktop_config.Controller.Completed.{Reports, completion_event-Reports}
use desktop_config.Controller.Context.{plain_context, worker_request_context}
use desktop_config.Controller.Dispatch.{
  DispatchEffect, WorkerCompletion, WorkerRequestContext, completion_event, dispatched_event,
  new_completion, outcome_of,
}
use desktop_config.Controller.Effects.{Observed}
use desktop_config.Controller.Fenced.{hint_all, hints-close_fence}
use desktop_config.Controller.Machine.{
  Machine, Task, effect_is_current, enqueue, final_dispatch_fence_passes, new_machine,
  next_generation, process_event,
}
use desktop_config.Controller.Proven.{Proven, worker_request_context-Proven}
use desktop_config.Controller.Refined.{Consistent, Runs-Consistent}
use desktop_config.Controller.Scheduler.{arm, fire, unarmed, unarmed-IsArmed}
use desktop_config.Controller.Spent.{start_prepared-spends}
use desktop_config.Controller.Starting.{Start, acknowledge_dispatch, start_prepared}
use desktop_config.Controller.Steps.{Answer, Runs, Step, is_submission}
use desktop_config.Controller.Stopping.{Stopped}
use desktop_config.Guards.Timers.{at_timer, observation_failed-schedules}
use desktop_config.Invariants.Authority.{
  check_action_authorization, check_application, check_candidate, check_finalization,
  check_latest_observation, check_observation_authority, check_preparation, check_probe,
}
use desktop_config.Invariants.Checks.{assert_controller_invariants}
use desktop_config.Invariants.Identities.{
  check_acknowledged, check_action_id, check_action_identities, check_recovery_unit,
  check_tombstone, check_transition_id, check_worker_acknowledgements,
}
use desktop_config.Invariants.Phases.{
  check_phase_relationships, check_planning_relationships, check_planning_slot,
  check_preparation_slot, check_prepared_plan, check_slot,
}
use desktop_config.Invariants.Safety.{
  check_attempt_history, check_continuous_proof, check_durable_dispatch, check_no_laptop_fallback,
  check_numbered_safety_rules, check_probe_is_not_authorization, check_unplug_proof,
}
use desktop_config.Model.Effect.{Effect, FinalizeDesktop}
use desktop_config.Model.Enums.{
  ActionKind, ActionKind-discrete, ActionLifecycle, ActionLifecycle-discrete,
  ControllerPhase-discrete, DisplayPower-discrete, ObservationValidity-discrete,
  PlanningState-discrete, PreparationState-discrete, ProfileScope-discrete, WakeReason,
  WorkerOutcome, action_lifecycle_eq,
}
use desktop_config.Model.Event.{Event, EventMetadata, TimerFired}
use desktop_config.Model.Identity.{
  ActionId-discrete, ApplicationAttemptKey-discrete, BootId-discrete, ControllerInstanceId-discrete,
  EventGeneration-discrete, ObservationKey-discrete, OutputMapping-discrete, PhysicalToken-discrete,
  PlanHash-discrete, ProbeAttemptKey-discrete, TransitionId-discrete, TransitionKey-discrete,
  WorkerUnit-discrete, action_id_eq,
}
use desktop_config.Reducer.Outcome.{decision, request_observation}
use desktop_config.Reducer.Reduce.{admit_event, handle, reduce}
use desktop_config.Reducer.Targets.{candidate_for, planning_input_key}
use desktop_config.Reducer.Timing.{worker_deadline_ms}
use desktop_config.Reducer.Tombstones.{stopping_mutator}
use desktop_config.Reducer.Workers.{dispatched, dispatched_application}
use desktop_config.Scenarios.Checks.{application_waits-passes, idle-passes}
use desktop_config.Scenarios.Data.{
  action_of, application_waits, boot, desktop_prepared, exact_sample, idle, key, outputs, plan,
  prepared_desktop, transition, unit_of, waiting_application,
}
use desktop_config.Scenarios.Decisions.{
  after_failure, application_started, current, decided, failure,
}

-- The controller consumes the failure of an observation.
abbrev failed_machine : Machine
failed_machine = record (new_machine idle) {
  state = after_failure.state;
  stored = after_failure.state;
  deadline_ms = after_failure.state.next_timer_ms;
  tasks = map (λ (e : Effect). Task.perform e false) after_failure.effects;
}

Runs-Consistent_example : Consistent idle failed_machine
unfolding new_machine process_event enqueue next_generation stopping_mutator
Runs-Consistent_example = Runs-Consistent idle failed_machine idle-passes (
    Runs.next (Runs.next Runs.begin (Step.enqueued (Event.observation_failed failure) refl)) (
      Step.consumed (Event.observation_failed failure) [] refl refl (
        rw (observation_failed-schedules idle idle-passes failure (current idle 5000 refl refl))
          refl)))

-- The application's worker is submitted.
abbrev application_effect : DispatchEffect
application_effect = DispatchEffect.apply (record {
  action_id = waiting_application.action_id;
  key = waiting_application.key;
  profile = waiting_application.profile;
  mapping = waiting_application.mapping;
  admitted_event_generation = waiting_application.admitted_event_generation;
  observation_key = key;
})

abbrev submitting : Machine
submitting = record (new_machine application_waits) { tasks = Task.submit application_effect ∷ [] }

abbrev submitted : Machine
submitted = record (new_machine application_waits) {
  state = (decided application_started).state;
  stored = (decided application_started).state;
  event_generation =
      max submitting.event_generation (decided application_started).state.event_generation.value;
  deadline_ms = (decided application_started).state.next_timer_ms;
  tasks = map (λ (e : Effect). Task.perform e false) (decided application_started).effects ++ [];
  submitted = application_effect ∷ [];
}

abbrev accepting : Answer
accepting = record {
  now_ms = 1100;
  observed = Observed.raised "unused";
  write_failure = none;
  start = Start.accepted (unit_of waiting_application.action_id);
  stopped = Stopped.active;
}

worker_started :
    start_prepared
      (record submitting { tasks = [] })
      application_effect
      accepting.start
      accepting.now_ms
    ≡ ok submitted
unfolding check_candidate check_latest_observation check_observation_authority check_application
    check_probe check_preparation check_finalization check_action_authorization
    assert_controller_invariants check_slot check_phase_relationships check_planning_slot
    check_preparation_slot check_prepared_plan check_planning_relationships check_no_laptop_fallback
    check_probe_is_not_authorization check_continuous_proof check_durable_dispatch
    check_unplug_proof check_numbered_safety_rules check_attempt_history check_action_id
    check_transition_id check_tombstone check_recovery_unit check_action_identities
    check_acknowledged check_worker_acknowledgements reduce admit_event handle dispatched
    dispatched_application worker_deadline_ms decision new_machine process_event next_generation
    start_prepared acknowledge_dispatch dispatched_event is_submission final_dispatch_fence_passes
    BootId-discrete ControllerInstanceId-discrete EventGeneration-discrete ObservationKey-discrete
    PhysicalToken-discrete PlanHash-discrete TransitionKey-discrete ActionId-discrete
    TransitionId-discrete ProbeAttemptKey-discrete ApplicationAttemptKey-discrete
    WorkerUnit-discrete ControllerPhase-discrete PlanningState-discrete PreparationState-discrete
    ProfileScope-discrete ObservationValidity-discrete DisplayPower-discrete ActionKind-discrete
    ActionLifecycle-discrete String-discrete Option-discrete List-discrete ℕ_discrete
worker_started = refl

start_prepared-spends_example :
    (effect_is_current submitted.stored application_effect ≡ false)
    × (final_dispatch_fence_passes submitted application_effect ≡ false)
unfolding new_machine is_submission
start_prepared-spends_example =
    start_prepared-spends (record submitting { tasks = [] }) submitted application_effect
      accepting.start accepting.now_ms (λ e. absurd (cc)) refl worker_started

hints-close_fence_example :
    final_dispatch_fence_passes (hint_all submitting (1050 ∷ 1060 ∷ [])) application_effect ≡ false
unfolding new_machine is_submission
hints-close_fence_example =
    hints-close_fence submitting application_effect 1050 (1060 ∷ []) (omega arith)

arm-fire-wakes_example :
    (e : TimerFired) × ((fire (arm unarmed (some 1000) boot) 1007).1 ≡ some e)
    × (reduce application_waits (Event.timer_fired e)
        ≡ ok (record {
          state = at_timer application_waits 1007;
          effects =
              request_observation WakeReason.timer
              ∷ Effect.schedule (record { deadline_ms = 1007 })
              ∷ [];
        }))
arm-fire-wakes_example =
    arm-fire-wakes application_waits unarmed 1000 1007 application_waits-passes (inr refl)
      unarmed-IsArmed refl

-- The finalization of the prepared desktop.
abbrev finalize : FinalizeDesktop
finalize = record {
  action_id = action_of ActionKind.finalization 3;
  transition_id = transition;
  transition_key = prepared_desktop.transition_key;
  profile = "docked";
  plan_hash = prepared_desktop.plan_hash;
  admitted_event_generation = (exact_sample 9000 5).end_event_generation;
  observation_key = key;
}

abbrev finalize_context : WorkerRequestContext
finalize_context = record (plain_context desktop_prepared (exact_sample 9000 5) outputs) {
  layout = some plan.input_key.layout;
  planning_action_id = some plan.action_id;
  preparation_action_id = some prepared_desktop.action_id;
  proof_duration_ms = some 8000;
}

worker_request_context-Proven_example : Proven desktop_prepared finalize finalize_context
unfolding worker_request_context candidate_for planning_input_key OutputMapping-discrete
    BootId-discrete ControllerInstanceId-discrete EventGeneration-discrete ObservationKey-discrete
    PhysicalToken-discrete PlanHash-discrete TransitionKey-discrete ActionId-discrete
    TransitionId-discrete ProbeAttemptKey-discrete ApplicationAttemptKey-discrete
    WorkerUnit-discrete ControllerPhase-discrete PlanningState-discrete PreparationState-discrete
    ProfileScope-discrete ObservationValidity-discrete DisplayPower-discrete ActionKind-discrete
    ActionLifecycle-discrete String-discrete Option-discrete List-discrete ℕ_discrete
worker_request_context-Proven_example =
    worker_request_context-Proven desktop_prepared finalize finalize_context refl

-- A preparation that failed, whose result has lost its plan
abbrev unplanned : WorkerCompletion
unplanned = record {
  action_id = action_of ActionKind.preparation 3;
  terminal_lifecycle = ActionLifecycle.failed;
  exit_status = 2;
  plan_hash = none;
}

abbrev moment : EventMetadata
moment = record { processed_at_ms = 1000; boot_id = boot }

unplanned-passes : new_completion unplanned ≡ ok unplanned
unfolding new_completion ActionLifecycle-discrete ℕ_discrete
unplanned-passes = refl

completion_event-Reports_example :
    Reports unplanned ActionKind.preparation
      (outcome_of ActionLifecycle.failed)
      (completion_event unplanned moment 2000)
    × ((outcome_of ActionLifecycle.failed ≡ some WorkerOutcome.succeeded)
        ↔ (unplanned.exit_status ≡ 0))
completion_event-Reports_example = completion_event-Reports unplanned moment 2000 unplanned-passes
