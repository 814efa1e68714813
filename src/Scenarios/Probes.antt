-- ===== src/Scenarios/Probes.antt =====
-- A probe that is dispatched, ends, and is followed by another, through the decisions of `reduce` of
-- .local/lib/monitor-controller/monitor_controller/reducer.py.
use desktop_config.Prelude.{
  List-discrete, Option-discrete, String-discrete, arith, ok, refl, some, ℕ_discrete, ◌≡◌, ◌≢◌,
}
use desktop_config.Invariants.Authority.{
  check_action_authorization, check_application, check_candidate, check_finalization,
  check_latest_observation, check_observation_authority, check_preparation, check_probe,
}
use desktop_config.Invariants.Checks.{assert_controller_invariants}
use desktop_config.Invariants.Identities.{
  check_acknowledged, check_action_id, check_action_identities, check_recovery_unit,
  check_tombstone, check_transition_id, check_worker_acknowledgements,
}
use desktop_config.Invariants.Phases.{
  check_phase_relationships, check_planning_relationships, check_planning_slot,
  check_preparation_slot, check_prepared_plan, check_slot,
}
use desktop_config.Invariants.Safety.{
  check_attempt_history, check_continuous_proof, check_durable_dispatch, check_no_laptop_fallback,
  check_numbered_safety_rules, check_probe_is_not_authorization, check_unplug_proof,
}
use desktop_config.Model.Enums.{
  ActionKind-discrete, ActionLifecycle-discrete, ControllerPhase-discrete, DisplayPower-discrete,
  ObservationValidity-discrete, PlanningState-discrete, PreparationState-discrete,
  ProfileScope-discrete, WorkerOutcome-discrete,
}
use desktop_config.Model.Event.{Event}
use desktop_config.Model.Identity.{
  ActionId-discrete, ApplicationAttemptKey-discrete, BootId-discrete, ControllerInstanceId-discrete,
  EventGeneration-discrete, ObservationKey-discrete, PhysicalToken-discrete, PlanHash-discrete,
  ProbeAttemptKey-discrete, TransitionId-discrete, TransitionKey-discrete, WorkerUnit-discrete,
  probe_attempt_key_eq,
}
use desktop_config.Once.Dispatch.{running_probe}
use desktop_config.Once.Kept.{Later, probe_dispatched-spends}
use desktop_config.Reducer.Admission.{admit_new_probe, admit_probe}
use desktop_config.Reducer.Classify.{
  classify_evidence, classify_observation, classify_rounds, classify_target, classify_topology,
  clear_failed_application, clear_failed_finalization, clear_failed_probe, handle_unplug,
  note_external,
}
use desktop_config.Reducer.Epochs.{discard_planning}
use desktop_config.Reducer.Observe.{
  conclude_observe, observe, observe_running, observe_topology, observe_valid, record_observation,
  stop_stale_application, stop_stale_finalization, stop_stale_preparation, stop_stale_probe,
  stop_stale_work,
}
use desktop_config.Reducer.Outcome.{allocate_action, decision, schedule}
use desktop_config.Reducer.Pending.{observe_pending_action}
use desktop_config.Reducer.Reduce.{admit_event, handle, reduce}
use desktop_config.Reducer.Timing.{worker_deadline_ms}
use desktop_config.Reducer.Tombstones.{append_tombstone, bound_action_tombstones, stopping_mutator}
use desktop_config.Reducer.Workers.{
  close_probe, dispatched, dispatched_probe, finished, finished_probe,
}
use desktop_config.Scenarios.Checks.{probe_waits-passes}
use desktop_config.Scenarios.Data.{probe_waits, unit_of, waiting_probe}
use desktop_config.Scenarios.Decisions.{
  after_probe, current, decided, other_completed, other_probe, probe_ended, probe_ends,
  probe_started, probe_starts, second_probe,
}

probe_started_lem : probe_started ≡ ok (decided probe_started)
unfolding check_candidate check_latest_observation check_observation_authority check_application
    check_probe check_preparation check_finalization check_action_authorization
    assert_controller_invariants check_slot check_phase_relationships check_planning_slot
    check_preparation_slot check_prepared_plan check_planning_relationships check_no_laptop_fallback
    check_probe_is_not_authorization check_continuous_proof check_durable_dispatch
    check_unplug_proof check_numbered_safety_rules check_attempt_history check_action_id
    check_transition_id check_tombstone check_recovery_unit check_action_identities
    check_acknowledged check_worker_acknowledgements reduce admit_event handle dispatched
    dispatched_probe worker_deadline_ms decision BootId-discrete ControllerInstanceId-discrete
    EventGeneration-discrete ObservationKey-discrete PhysicalToken-discrete PlanHash-discrete
    TransitionKey-discrete ActionId-discrete TransitionId-discrete ProbeAttemptKey-discrete
    ApplicationAttemptKey-discrete WorkerUnit-discrete ControllerPhase-discrete
    PlanningState-discrete PreparationState-discrete ProfileScope-discrete
    ObservationValidity-discrete DisplayPower-discrete ActionKind-discrete ActionLifecycle-discrete
    String-discrete Option-discrete List-discrete ℕ_discrete
probe_started_lem = refl

probe_ended_lem :
    reduce (decided probe_started).state (Event.probe_finished probe_ends) ≡ ok probe_ended
unfolding check_candidate check_latest_observation check_observation_authority check_application
    check_probe check_preparation check_finalization check_action_authorization
    assert_controller_invariants check_slot check_phase_relationships check_planning_slot
    check_preparation_slot check_prepared_plan check_planning_relationships check_no_laptop_fallback
    check_probe_is_not_authorization check_continuous_proof check_durable_dispatch
    check_unplug_proof check_numbered_safety_rules check_attempt_history check_action_id
    check_transition_id check_tombstone check_recovery_unit check_action_identities
    check_acknowledged check_worker_acknowledgements reduce admit_event handle finished
    finished_probe close_probe dispatched dispatched_probe worker_deadline_ms append_tombstone
    bound_action_tombstones schedule decision BootId-discrete ControllerInstanceId-discrete
    EventGeneration-discrete ObservationKey-discrete PhysicalToken-discrete PlanHash-discrete
    TransitionKey-discrete ActionId-discrete TransitionId-discrete ProbeAttemptKey-discrete
    ApplicationAttemptKey-discrete WorkerUnit-discrete ControllerPhase-discrete
    PlanningState-discrete PreparationState-discrete ProfileScope-discrete
    ObservationValidity-discrete DisplayPower-discrete ActionKind-discrete ActionLifecycle-discrete
    String-discrete Option-discrete List-discrete ℕ_discrete WorkerOutcome-discrete
probe_ended_lem = refl

second_probe_lem :
    reduce after_probe (Event.observation_completed other_completed) ≡ ok second_probe
unfolding check_candidate check_latest_observation check_observation_authority check_application
    check_probe check_preparation check_finalization check_action_authorization
    assert_controller_invariants check_slot check_phase_relationships check_planning_slot
    check_preparation_slot check_prepared_plan check_planning_relationships check_no_laptop_fallback
    check_probe_is_not_authorization check_continuous_proof check_durable_dispatch
    check_unplug_proof check_numbered_safety_rules check_attempt_history check_action_id
    check_transition_id check_tombstone check_recovery_unit check_action_identities
    check_acknowledged check_worker_acknowledgements reduce admit_event handle observe observe_valid
    record_observation stopping_mutator observe_topology stop_stale_work stop_stale_probe
    stop_stale_application stop_stale_finalization stop_stale_preparation observe_running
    conclude_observe classify_observation classify_rounds observe_pending_action classify_topology
    note_external clear_failed_probe clear_failed_application clear_failed_finalization
    classify_evidence classify_target handle_unplug admit_probe admit_new_probe discard_planning
    allocate_action decision BootId-discrete ControllerInstanceId-discrete EventGeneration-discrete
    ObservationKey-discrete PhysicalToken-discrete PlanHash-discrete TransitionKey-discrete
    ActionId-discrete TransitionId-discrete ProbeAttemptKey-discrete ApplicationAttemptKey-discrete
    WorkerUnit-discrete ControllerPhase-discrete PlanningState-discrete PreparationState-discrete
    ProfileScope-discrete ObservationValidity-discrete DisplayPower-discrete ActionKind-discrete
    ActionLifecycle-discrete String-discrete Option-discrete List-discrete ℕ_discrete
second_probe_lem = refl

probe_dispatched-spends_example :
    ((decided probe_started).state.probe
      ≡ some (running_probe waiting_probe (unit_of waiting_probe.action_id) 1100))
    × (other_probe.key ≢ waiting_probe.key)
probe_dispatched-spends_example =
    probe_dispatched-spends probe_waits probe_starts waiting_probe (decided probe_started)
      second_probe.state other_probe probe_waits-passes (current probe_waits 1100 refl refl) refl
      refl refl refl (omega arith) refl probe_started_lem
      (Later.after after_probe (Event.observation_completed other_completed) second_probe
        (Later.after (decided probe_started).state (Event.probe_finished probe_ends) probe_ended
          Later.now refl probe_ended_lem)
        refl second_probe_lem)
      refl refl
