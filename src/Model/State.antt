-- ===== src/Model/State.antt =====
-- The reducer's state, from .local/lib/monitor-controller/monitor_controller/model.py.
use desktop_config.Prelude.{ℕ, String, List, [], Option, none, Bool, false}
use desktop_config.Model.Enums.{ControllerPhase, PlanningState, PreparationState}
use desktop_config.Model.Identity.{
  BootId, ControllerInstanceId, DisplayIdentity, GraphicalSessionId, ObservationGeneration,
  EventGeneration, ObservationKey, PhysicalToken, CandidateSelection, ProbeAttemptKey,
  ApplicationAttemptKey, WorkerUnit,
}
use desktop_config.Model.Observation.{CanonicalObservation}
use desktop_config.Model.Action.{
  ProbeAction, ApplicationAction, PlanningAction, PreparationAction, FinalizationAction,
  UnplugProof, ActionTombstone,
}

-- Complete reducer state. `schema_version` is the constant 3, and is left out.
pub record State : Type 0 where
  pub boot_id : BootId
  pub controller_instance : ControllerInstanceId
  pub display_identity : DisplayIdentity
  pub graphical_session_id : Option GraphicalSessionId
  pub latest_observation : Option CanonicalObservation
  pub phase : ControllerPhase
  pub planning_state : PlanningState
  pub preparation_state : PreparationState
  pub physical_epoch : ℕ
  pub physical_token : Option PhysicalToken
  pub reconcile_epoch : ℕ
  pub candidate : Option CandidateSelection
  pub aggressive_deadline_ms : Option ℕ
  pub next_timer_ms : Option ℕ
  pub backoff_index : ℕ
  pub verify_since_ms : Option ℕ
  pub last_drm_at_ms : Option ℕ
  pub stable_x_profile : Option String
  pub desktop_finalized_profile : Option String
  pub desktop_finalization_required : Bool
  pub external_intent : Bool
  pub baseline_adoption : Bool
  pub attempted_probe_keys : List ProbeAttemptKey
  pub probe : Option ProbeAction
  pub attempted_application_keys : List ApplicationAttemptKey
  pub immediate_retry_used_profiles : List String
  pub application : Option ApplicationAction
  pub planning : Option PlanningAction
  pub preparation : Option PreparationAction
  pub finalization : Option FinalizationAction
  pub unknown_key : Option ObservationKey
  pub unknown_since_ms : Option ℕ
  pub unplug_proof : Option UnplugProof
  pub observation_generation : ObservationGeneration
  pub event_generation : EventGeneration
  pub action_sequence_high_water : ℕ
  pub transition_sequence_high_water : ℕ
  pub action_tombstones : List ActionTombstone
  pub recovery_units : List WorkerUnit

-- `State(boot_id, controller_instance, display_identity)`: every other field at its default.
abbrev pub initial : BootId → ControllerInstanceId → DisplayIdentity → State
initial boot instance_id display = record {
  boot_id = boot;
  controller_instance = instance_id;
  display_identity = display;
  graphical_session_id = none;
  latest_observation = none;
  phase = ControllerPhase.recovering;
  planning_state = PlanningState.plan_idle;
  preparation_state = PreparationState.prepare_idle;
  physical_epoch = 0;
  physical_token = none;
  reconcile_epoch = 0;
  candidate = none;
  aggressive_deadline_ms = none;
  next_timer_ms = none;
  backoff_index = 0;
  verify_since_ms = none;
  last_drm_at_ms = none;
  stable_x_profile = none;
  desktop_finalized_profile = none;
  desktop_finalization_required = false;
  external_intent = false;
  baseline_adoption = false;
  attempted_probe_keys = [];
  probe = none;
  attempted_application_keys = [];
  immediate_retry_used_profiles = [];
  application = none;
  planning = none;
  preparation = none;
  finalization = none;
  unknown_key = none;
  unknown_since_ms = none;
  unplug_proof = none;
  observation_generation = record { value = 0 };
  event_generation = record { value = 0 };
  action_sequence_high_water = 0;
  transition_sequence_high_water = 0;
  action_tombstones = [];
  recovery_units = [];
}
