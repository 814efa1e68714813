-- ===== src/Scenarios/Admissions.antt =====
-- The theorems on the admission of actions, at the scenarios.
use desktop_config.Prelude.{
  List-discrete, Option-discrete, String-discrete, any, false, refl, ℕ_discrete, ◌≡◌,
}
use desktop_config.Finalize.{FinalizationAdmitted, advance-FinalizationAdmitted}
use desktop_config.Invariants.Authority.{
  check_action_authorization, check_application, check_candidate, check_finalization,
  check_latest_observation, check_observation_authority, check_preparation, check_probe,
}
use desktop_config.Invariants.Checks.{assert_controller_invariants}
use desktop_config.Invariants.Identities.{
  check_acknowledged, check_action_id, check_action_identities, check_recovery_unit,
  check_tombstone, check_transition_id, check_worker_acknowledgements,
}
use desktop_config.Invariants.Phases.{
  check_phase_relationships, check_planning_relationships, check_planning_slot,
  check_preparation_slot, check_prepared_plan, check_slot,
}
use desktop_config.Invariants.Safety.{
  check_attempt_history, check_continuous_proof, check_durable_dispatch, check_no_laptop_fallback,
  check_numbered_safety_rules, check_probe_is_not_authorization, check_unplug_proof,
}
use desktop_config.Model.Enums.{
  ActionKind-discrete, ActionLifecycle-discrete, ControllerPhase-discrete, DisplayPower,
  DisplayPower-discrete, ObservationValidity-discrete, PlanningState-discrete,
  PreparationState-discrete, ProfileScope-discrete,
}
use desktop_config.Model.Identity.{
  ActionId-discrete, ApplicationAttemptKey-discrete, BootId-discrete, ControllerInstanceId-discrete,
  EventGeneration-discrete, ObservationKey-discrete, PhysicalToken-discrete, PlanHash-discrete,
  ProbeAttemptKey-discrete, TransitionId-discrete, TransitionKey-discrete, WorkerUnit-discrete,
  action_id_eq, application_attempt_key_eq, probe_attempt_key_eq, transition_id_eq,
}
use desktop_config.Once.Admit.{ProbeAdmitted, admit_probe-once}
use desktop_config.Once.Apply.{ApplicationAdmitted, admit_application-once}
use desktop_config.Reducer.Admission.{
  admit_application, admit_new_application, admit_new_probe, admit_probe, slow_retry_due,
}
use desktop_config.Reducer.Classify.{
  classify_evidence, classify_observation, classify_rounds, classify_target, classify_topology,
  clear_failed_application, clear_failed_finalization, clear_failed_probe, note_external,
}
use desktop_config.Reducer.Epochs.{back_off, defer_while_asleep, discard_planning, enter_wait}
use desktop_config.Reducer.Outcome.{allocate_action, decision, schedule}
use desktop_config.Reducer.Pending.{observe_pending_action}
use desktop_config.Reducer.Targets.{candidate_for}
use desktop_config.Reducer.Verification.{
  admit_finalization, advance_verification, conclude_verification, prepare_when_ready,
}
use desktop_config.Scenarios.Data.{
  dark_sample, desktop_prepared, docked, docked_sample, exact_sample, idle, seeing,
}
use desktop_config.Scenarios.Decisions.{
  application_outcome, asleep_outcome, decided, finalization_outcome, probe_outcome, wait_outcome,
}
use desktop_config.Sleep.Classified.{classify_asleep}
use desktop_config.Sleep.Quiet.{lights}
use desktop_config.Waits.{IsWaiting, enter_wait-IsWaiting}

classify_asleep_example : any lights (decided asleep_outcome).effects ≡ false
unfolding check_candidate check_latest_observation check_observation_authority check_application
    check_probe check_preparation check_finalization check_action_authorization
    assert_controller_invariants check_slot check_phase_relationships check_planning_slot
    check_preparation_slot check_prepared_plan check_planning_relationships check_no_laptop_fallback
    check_probe_is_not_authorization check_continuous_proof check_durable_dispatch
    check_unplug_proof check_numbered_safety_rules check_attempt_history check_action_id
    check_transition_id check_tombstone check_recovery_unit check_action_identities
    check_acknowledged check_worker_acknowledgements classify_observation classify_rounds
    classify_topology classify_evidence classify_target note_external clear_failed_probe
    clear_failed_application clear_failed_finalization observe_pending_action defer_while_asleep
    schedule decision BootId-discrete ControllerInstanceId-discrete EventGeneration-discrete
    ObservationKey-discrete PhysicalToken-discrete PlanHash-discrete TransitionKey-discrete
    ActionId-discrete TransitionId-discrete ProbeAttemptKey-discrete ApplicationAttemptKey-discrete
    WorkerUnit-discrete ControllerPhase-discrete PlanningState-discrete PreparationState-discrete
    ProfileScope-discrete ObservationValidity-discrete DisplayPower-discrete ActionKind-discrete
    ActionLifecycle-discrete String-discrete Option-discrete List-discrete ℕ_discrete
classify_asleep_example =
    classify_asleep (seeing (dark_sample 1000 1 DisplayPower.asleep))
      (dark_sample 1000 1 DisplayPower.asleep) (decided asleep_outcome) refl refl refl

enter_wait-IsWaiting_example : IsWaiting (decided wait_outcome).state 1000
unfolding check_candidate check_latest_observation check_observation_authority check_application
    check_probe check_preparation check_finalization check_action_authorization
    assert_controller_invariants check_slot check_phase_relationships check_planning_slot
    check_preparation_slot check_prepared_plan check_planning_relationships check_no_laptop_fallback
    check_probe_is_not_authorization check_continuous_proof check_durable_dispatch
    check_unplug_proof check_numbered_safety_rules check_attempt_history check_action_id
    check_transition_id check_tombstone check_recovery_unit check_action_identities
    check_acknowledged check_worker_acknowledgements enter_wait back_off schedule decision
    BootId-discrete ControllerInstanceId-discrete EventGeneration-discrete ObservationKey-discrete
    PhysicalToken-discrete PlanHash-discrete TransitionKey-discrete ActionId-discrete
    TransitionId-discrete ProbeAttemptKey-discrete ApplicationAttemptKey-discrete
    WorkerUnit-discrete ControllerPhase-discrete PlanningState-discrete PreparationState-discrete
    ProfileScope-discrete ObservationValidity-discrete DisplayPower-discrete ActionKind-discrete
    ActionLifecycle-discrete String-discrete Option-discrete List-discrete ℕ_discrete
enter_wait-IsWaiting_example = enter_wait-IsWaiting idle 1000 (decided wait_outcome) refl

admit_probe-once_example :
    ProbeAdmitted
      (seeing (dark_sample 1000 1 DisplayPower.on))
      (dark_sample 1000 1 DisplayPower.on)
      (decided probe_outcome)
unfolding check_candidate check_latest_observation check_observation_authority check_application
    check_probe check_preparation check_finalization check_action_authorization
    assert_controller_invariants check_slot check_phase_relationships check_planning_slot
    check_preparation_slot check_prepared_plan check_planning_relationships check_no_laptop_fallback
    check_probe_is_not_authorization check_continuous_proof check_durable_dispatch
    check_unplug_proof check_numbered_safety_rules check_attempt_history check_action_id
    check_transition_id check_tombstone check_recovery_unit check_action_identities
    check_acknowledged check_worker_acknowledgements admit_probe admit_new_probe discard_planning
    allocate_action decision BootId-discrete ControllerInstanceId-discrete EventGeneration-discrete
    ObservationKey-discrete PhysicalToken-discrete PlanHash-discrete TransitionKey-discrete
    ActionId-discrete TransitionId-discrete ProbeAttemptKey-discrete ApplicationAttemptKey-discrete
    WorkerUnit-discrete ControllerPhase-discrete PlanningState-discrete PreparationState-discrete
    ProfileScope-discrete ObservationValidity-discrete DisplayPower-discrete ActionKind-discrete
    ActionLifecycle-discrete String-discrete Option-discrete List-discrete ℕ_discrete
admit_probe-once_example =
    admit_probe-once (seeing (dark_sample 1000 1 DisplayPower.on))
      (dark_sample 1000 1 DisplayPower.on) (decided probe_outcome) refl refl

admit_application-once_example :
    ApplicationAdmitted
      (seeing (docked_sample 1000 1))
      (docked_sample 1000 1)
      docked
      (decided application_outcome)
unfolding check_candidate check_latest_observation check_observation_authority check_application
    check_probe check_preparation check_finalization check_action_authorization
    assert_controller_invariants check_slot check_phase_relationships check_planning_slot
    check_preparation_slot check_prepared_plan check_planning_relationships check_no_laptop_fallback
    check_probe_is_not_authorization check_continuous_proof check_durable_dispatch
    check_unplug_proof check_numbered_safety_rules check_attempt_history check_action_id
    check_transition_id check_tombstone check_recovery_unit check_action_identities
    check_acknowledged check_worker_acknowledgements admit_application admit_new_application
    allocate_action candidate_for slow_retry_due decision BootId-discrete
    ControllerInstanceId-discrete EventGeneration-discrete ObservationKey-discrete
    PhysicalToken-discrete PlanHash-discrete TransitionKey-discrete ActionId-discrete
    TransitionId-discrete ProbeAttemptKey-discrete ApplicationAttemptKey-discrete
    WorkerUnit-discrete ControllerPhase-discrete PlanningState-discrete PreparationState-discrete
    ProfileScope-discrete ObservationValidity-discrete DisplayPower-discrete ActionKind-discrete
    ActionLifecycle-discrete String-discrete Option-discrete List-discrete ℕ_discrete
admit_application-once_example =
    admit_application-once (seeing (docked_sample 1000 1)) (docked_sample 1000 1) docked
      (decided application_outcome) refl refl

advance-FinalizationAdmitted_example :
    FinalizationAdmitted desktop_prepared (exact_sample 9000 5) (decided finalization_outcome)
unfolding check_candidate check_latest_observation check_observation_authority check_application
    check_probe check_preparation check_finalization check_action_authorization
    assert_controller_invariants check_slot check_phase_relationships check_planning_slot
    check_preparation_slot check_prepared_plan check_planning_relationships check_no_laptop_fallback
    check_probe_is_not_authorization check_continuous_proof check_durable_dispatch
    check_unplug_proof check_numbered_safety_rules check_attempt_history check_action_id
    check_transition_id check_tombstone check_recovery_unit check_action_identities
    check_acknowledged check_worker_acknowledgements advance_verification prepare_when_ready
    conclude_verification admit_finalization allocate_action candidate_for decision BootId-discrete
    ControllerInstanceId-discrete EventGeneration-discrete ObservationKey-discrete
    PhysicalToken-discrete PlanHash-discrete TransitionKey-discrete ActionId-discrete
    TransitionId-discrete ProbeAttemptKey-discrete ApplicationAttemptKey-discrete
    WorkerUnit-discrete ControllerPhase-discrete PlanningState-discrete PreparationState-discrete
    ProfileScope-discrete ObservationValidity-discrete DisplayPower-discrete ActionKind-discrete
    ActionLifecycle-discrete String-discrete Option-discrete List-discrete ℕ_discrete
advance-FinalizationAdmitted_example =
    advance-FinalizationAdmitted desktop_prepared (exact_sample 9000 5)
      (decided finalization_outcome) refl refl
