-- ===== src/Scenarios/Checks.antt =====
-- The states of the scenarios pass the invariants.
use desktop_config.Prelude.{
  List-discrete, Option-discrete, String-discrete, ok, refl, ℕ_discrete, ◌≡◌,
}
use desktop_config.Invariants.Authority.{
  check_action_authorization, check_application, check_candidate, check_finalization,
  check_latest_observation, check_observation_authority, check_preparation, check_probe,
}
use desktop_config.Invariants.Checks.{assert_controller_invariants}
use desktop_config.Invariants.Identities.{
  check_acknowledged, check_action_id, check_action_identities, check_recovery_unit,
  check_tombstone, check_transition_id, check_worker_acknowledgements,
}
use desktop_config.Invariants.Phases.{
  check_phase_relationships, check_planning_relationships, check_planning_slot,
  check_preparation_slot, check_prepared_plan, check_slot,
}
use desktop_config.Invariants.Safety.{
  check_attempt_history, check_continuous_proof, check_durable_dispatch, check_no_laptop_fallback,
  check_numbered_safety_rules, check_probe_is_not_authorization, check_unplug_proof,
}
use desktop_config.Model.Enums.{
  ActionKind-discrete, ActionLifecycle-discrete, ControllerPhase-discrete, DisplayPower,
  DisplayPower-discrete, ObservationValidity-discrete, PlanningState-discrete,
  PreparationState-discrete, ProfileScope-discrete,
}
use desktop_config.Model.Identity.{
  ActionId-discrete, ApplicationAttemptKey-discrete, BootId-discrete, ControllerInstanceId-discrete,
  EventGeneration-discrete, ObservationKey-discrete, PhysicalToken-discrete, PlanHash-discrete,
  ProbeAttemptKey-discrete, TransitionId-discrete, TransitionKey-discrete, WorkerUnit-discrete,
}
use desktop_config.Reducer.Targets.{candidate_for}
use desktop_config.Scenarios.Data.{
  application_stops, application_waits, dark_sample, desktop_prepared, idle, probe_waits, seeing,
}

pub idle-passes : assert_controller_invariants idle ≡ ok tt
unfolding check_candidate check_latest_observation check_observation_authority check_application
    check_probe check_preparation check_finalization check_action_authorization
    assert_controller_invariants check_slot check_phase_relationships check_planning_slot
    check_preparation_slot check_prepared_plan check_planning_relationships check_no_laptop_fallback
    check_probe_is_not_authorization check_continuous_proof check_durable_dispatch
    check_unplug_proof check_numbered_safety_rules check_attempt_history check_action_id
    check_transition_id check_tombstone check_recovery_unit check_action_identities
    check_acknowledged check_worker_acknowledgements BootId-discrete ControllerInstanceId-discrete
    EventGeneration-discrete ObservationKey-discrete PhysicalToken-discrete PlanHash-discrete
    TransitionKey-discrete ActionId-discrete TransitionId-discrete ProbeAttemptKey-discrete
    ApplicationAttemptKey-discrete WorkerUnit-discrete ControllerPhase-discrete
    PlanningState-discrete PreparationState-discrete ProfileScope-discrete
    ObservationValidity-discrete DisplayPower-discrete ActionKind-discrete ActionLifecycle-discrete
    String-discrete Option-discrete List-discrete ℕ_discrete
idle-passes = refl

pub seeing-passes :
    assert_controller_invariants (seeing (dark_sample 1000 1 DisplayPower.on)) ≡ ok tt
unfolding check_candidate check_latest_observation check_observation_authority check_application
    check_probe check_preparation check_finalization check_action_authorization
    assert_controller_invariants check_slot check_phase_relationships check_planning_slot
    check_preparation_slot check_prepared_plan check_planning_relationships check_no_laptop_fallback
    check_probe_is_not_authorization check_continuous_proof check_durable_dispatch
    check_unplug_proof check_numbered_safety_rules check_attempt_history check_action_id
    check_transition_id check_tombstone check_recovery_unit check_action_identities
    check_acknowledged check_worker_acknowledgements BootId-discrete ControllerInstanceId-discrete
    EventGeneration-discrete ObservationKey-discrete PhysicalToken-discrete PlanHash-discrete
    TransitionKey-discrete ActionId-discrete TransitionId-discrete ProbeAttemptKey-discrete
    ApplicationAttemptKey-discrete WorkerUnit-discrete ControllerPhase-discrete
    PlanningState-discrete PreparationState-discrete ProfileScope-discrete
    ObservationValidity-discrete DisplayPower-discrete ActionKind-discrete ActionLifecycle-discrete
    String-discrete Option-discrete List-discrete ℕ_discrete
seeing-passes = refl

pub probe_waits-passes : assert_controller_invariants probe_waits ≡ ok tt
unfolding check_candidate check_latest_observation check_observation_authority check_application
    check_probe check_preparation check_finalization check_action_authorization
    assert_controller_invariants check_slot check_phase_relationships check_planning_slot
    check_preparation_slot check_prepared_plan check_planning_relationships check_no_laptop_fallback
    check_probe_is_not_authorization check_continuous_proof check_durable_dispatch
    check_unplug_proof check_numbered_safety_rules check_attempt_history check_action_id
    check_transition_id check_tombstone check_recovery_unit check_action_identities
    check_acknowledged check_worker_acknowledgements BootId-discrete ControllerInstanceId-discrete
    EventGeneration-discrete ObservationKey-discrete PhysicalToken-discrete PlanHash-discrete
    TransitionKey-discrete ActionId-discrete TransitionId-discrete ProbeAttemptKey-discrete
    ApplicationAttemptKey-discrete WorkerUnit-discrete ControllerPhase-discrete
    PlanningState-discrete PreparationState-discrete ProfileScope-discrete
    ObservationValidity-discrete DisplayPower-discrete ActionKind-discrete ActionLifecycle-discrete
    String-discrete Option-discrete List-discrete ℕ_discrete
probe_waits-passes = refl

pub application_waits-passes : assert_controller_invariants application_waits ≡ ok tt
unfolding check_candidate check_latest_observation check_observation_authority check_application
    check_probe check_preparation check_finalization check_action_authorization
    assert_controller_invariants check_slot check_phase_relationships check_planning_slot
    check_preparation_slot check_prepared_plan check_planning_relationships check_no_laptop_fallback
    check_probe_is_not_authorization check_continuous_proof check_durable_dispatch
    check_unplug_proof check_numbered_safety_rules check_attempt_history check_action_id
    check_transition_id check_tombstone check_recovery_unit check_action_identities
    check_acknowledged check_worker_acknowledgements BootId-discrete ControllerInstanceId-discrete
    EventGeneration-discrete ObservationKey-discrete PhysicalToken-discrete PlanHash-discrete
    TransitionKey-discrete ActionId-discrete TransitionId-discrete ProbeAttemptKey-discrete
    ApplicationAttemptKey-discrete WorkerUnit-discrete ControllerPhase-discrete
    PlanningState-discrete PreparationState-discrete ProfileScope-discrete
    ObservationValidity-discrete DisplayPower-discrete ActionKind-discrete ActionLifecycle-discrete
    String-discrete Option-discrete List-discrete ℕ_discrete
application_waits-passes = refl

pub application_stops-passes : assert_controller_invariants application_stops ≡ ok tt
unfolding check_candidate check_latest_observation check_observation_authority check_application
    check_probe check_preparation check_finalization check_action_authorization
    assert_controller_invariants check_slot check_phase_relationships check_planning_slot
    check_preparation_slot check_prepared_plan check_planning_relationships check_no_laptop_fallback
    check_probe_is_not_authorization check_continuous_proof check_durable_dispatch
    check_unplug_proof check_numbered_safety_rules check_attempt_history check_action_id
    check_transition_id check_tombstone check_recovery_unit check_action_identities
    check_acknowledged check_worker_acknowledgements BootId-discrete ControllerInstanceId-discrete
    EventGeneration-discrete ObservationKey-discrete PhysicalToken-discrete PlanHash-discrete
    TransitionKey-discrete ActionId-discrete TransitionId-discrete ProbeAttemptKey-discrete
    ApplicationAttemptKey-discrete WorkerUnit-discrete ControllerPhase-discrete
    PlanningState-discrete PreparationState-discrete ProfileScope-discrete
    ObservationValidity-discrete DisplayPower-discrete ActionKind-discrete ActionLifecycle-discrete
    String-discrete Option-discrete List-discrete ℕ_discrete
application_stops-passes = refl

pub desktop_prepared-passes : assert_controller_invariants desktop_prepared ≡ ok tt
unfolding check_candidate check_latest_observation check_observation_authority check_application
    check_probe check_preparation check_finalization check_action_authorization
    assert_controller_invariants check_slot check_phase_relationships check_planning_slot
    check_preparation_slot check_prepared_plan check_planning_relationships check_no_laptop_fallback
    check_probe_is_not_authorization check_continuous_proof check_durable_dispatch
    check_unplug_proof check_numbered_safety_rules check_attempt_history check_action_id
    check_transition_id check_tombstone check_recovery_unit check_action_identities
    check_acknowledged check_worker_acknowledgements BootId-discrete ControllerInstanceId-discrete
    EventGeneration-discrete ObservationKey-discrete PhysicalToken-discrete PlanHash-discrete
    TransitionKey-discrete ActionId-discrete TransitionId-discrete ProbeAttemptKey-discrete
    ApplicationAttemptKey-discrete WorkerUnit-discrete ControllerPhase-discrete
    PlanningState-discrete PreparationState-discrete ProfileScope-discrete
    ObservationValidity-discrete DisplayPower-discrete ActionKind-discrete ActionLifecycle-discrete
    String-discrete Option-discrete List-discrete ℕ_discrete candidate_for
desktop_prepared-passes = refl
