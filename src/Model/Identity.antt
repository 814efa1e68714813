-- ===== src/Model/Identity.antt =====
-- The identities and keys of .local/lib/monitor-controller/monitor_controller/model.py.
use desktop_config.Prelude.{ℕ, String, List, Eq, ℕ_discrete, String-discrete}
use desktop_config.Model.Enums.{
  ActionKind, ProfileScope, ActionKind-discrete, ProfileScope-discrete,
}

-- `uuid.UUID`: a 128-bit number, of which only equality is used.
abbrev pub Uuid : Type 0
Uuid = ℕ

-- Kernel boot identity, which fences monotonic values.
pub record BootId : Type 0 where
  pub value : Uuid

unfoldable pub BootId-discrete : Discrete BootId
BootId-discrete = hlevel ℕ_discrete

instance abbrev pub boot_id_eq : Eq BootId
boot_id_eq = record { dec = BootId-discrete }

-- The controller that allocates action IDs.
pub record ControllerInstanceId : Type 0 where
  pub value : Uuid

unfoldable pub ControllerInstanceId-discrete : Discrete ControllerInstanceId
ControllerInstanceId-discrete = hlevel ℕ_discrete

instance abbrev pub controller_instance_id_eq : Eq ControllerInstanceId
controller_instance_id_eq = record { dec = ControllerInstanceId-discrete }

-- The X display that the state record controls.
pub record DisplayIdentity : Type 0 where
  pub value : String

unfoldable pub DisplayIdentity-discrete : Discrete DisplayIdentity
DisplayIdentity-discrete = hlevel String-discrete

instance abbrev pub display_identity_eq : Eq DisplayIdentity
display_identity_eq = record { dec = DisplayIdentity-discrete }

-- The logind session of the desktop.
pub record GraphicalSessionId : Type 0 where
  pub value : String

unfoldable pub GraphicalSessionId-discrete : Discrete GraphicalSessionId
GraphicalSessionId-discrete = hlevel String-discrete

instance abbrev pub graphical_session_id_eq : Eq GraphicalSessionId
graphical_session_id_eq = record { dec = GraphicalSessionId-discrete }

-- Sequence of completed observation samples.
pub record ObservationGeneration : Type 0 where
  pub value : ℕ

unfoldable pub ObservationGeneration-discrete : Discrete ObservationGeneration
ObservationGeneration-discrete = hlevel ℕ_discrete

instance abbrev pub observation_generation_eq : Eq ObservationGeneration
observation_generation_eq = record { dec = ObservationGeneration-discrete }

-- Sequence of generation-sensitive input.
pub record EventGeneration : Type 0 where
  pub value : ℕ

unfoldable pub EventGeneration-discrete : Discrete EventGeneration
EventGeneration-discrete = hlevel ℕ_discrete

instance abbrev pub event_generation_eq : Eq EventGeneration
event_generation_eq = record { dec = EventGeneration-discrete }

-- Content identity of an observation, its time left out.
pub record ObservationKey : Type 0 where
  pub value : String

unfoldable pub ObservationKey-discrete : Discrete ObservationKey
ObservationKey-discrete = hlevel String-discrete

instance abbrev pub observation_key_eq : Eq ObservationKey
observation_key_eq = record { dec = ObservationKey-discrete }

-- Identity of one physical connector topology.
pub record PhysicalToken : Type 0 where
  pub value : String

unfoldable pub PhysicalToken-discrete : Discrete PhysicalToken
PhysicalToken-discrete = hlevel String-discrete

instance abbrev pub physical_token_eq : Eq PhysicalToken
physical_token_eq = record { dec = PhysicalToken-discrete }

-- Content hash of staged desktop artifacts.
pub record PlanHash : Type 0 where
  pub value : String

unfoldable pub PlanHash-discrete : Discrete PlanHash
PlanHash-discrete = hlevel String-discrete

instance abbrev pub plan_hash_eq : Eq PlanHash
plan_hash_eq = record { dec = PlanHash-discrete }

-- Digest of one configuration input of a plan.
pub record ConfigurationContentHash : Type 0 where
  pub path : String
  pub sha256 : String

unfoldable pub ConfigurationContentHash-discrete : Discrete ConfigurationContentHash
ConfigurationContentHash-discrete = hlevel String-discrete

instance abbrev pub configuration_content_hash_eq : Eq ConfigurationContentHash
configuration_content_hash_eq = record { dec = ConfigurationContentHash-discrete }

-- One saved-output to live-output pair.
pub record OutputMapping : Type 0 where
  pub saved_output : String
  pub live_output : String

unfoldable pub OutputMapping-discrete : Discrete OutputMapping
OutputMapping-discrete = hlevel String-discrete

instance abbrev pub output_mapping_eq : Eq OutputMapping
output_mapping_eq = record { dec = OutputMapping-discrete }

-- Identity of a planning proof, with its configuration manifest.
pub record PlanningInputKey : Type 0 where
  pub physical_epoch : ℕ
  pub profile : String
  pub layout : String
  pub observation_key : ObservationKey
  pub mapping : List OutputMapping
  pub active_outputs : List String
  pub configuration_hashes : List ConfigurationContentHash

unfoldable pub PlanningInputKey-discrete : Discrete PlanningInputKey
PlanningInputKey-discrete = hlevel (
  ℕ_discrete, String-discrete, ObservationKey-discrete, OutputMapping-discrete,
  ConfigurationContentHash-discrete,
)

instance abbrev pub planning_input_key_eq : Eq PlanningInputKey
planning_input_key_eq = record { dec = PlanningInputKey-discrete }

-- Identity of one profile/topology desktop transition.
pub record TransitionKey : Type 0 where
  pub value : String

unfoldable pub TransitionKey-discrete : Discrete TransitionKey
TransitionKey-discrete = hlevel String-discrete

instance abbrev pub transition_key_eq : Eq TransitionKey
transition_key_eq = record { dec = TransitionKey-discrete }

-- Never-reused action identity.
pub record ActionId : Type 0 where
  pub controller_instance : ControllerInstanceId
  pub kind : ActionKind
  pub sequence : ℕ

unfoldable pub ActionId-discrete : Discrete ActionId
ActionId-discrete = hlevel (ℕ_discrete, ControllerInstanceId-discrete, ActionKind-discrete)

instance abbrev pub action_id_eq : Eq ActionId
action_id_eq = record { dec = ActionId-discrete }

-- Never-reused desktop transition identity.
pub record TransitionId : Type 0 where
  pub controller_instance : ControllerInstanceId
  pub sequence : ℕ

unfoldable pub TransitionId-discrete : Discrete TransitionId
TransitionId-discrete = hlevel (ℕ_discrete, ControllerInstanceId-discrete)

instance abbrev pub transition_id_eq : Eq TransitionId
transition_id_eq = record { dec = TransitionId-discrete }

-- A profile's output bijection, proven for one physical epoch.
pub record MappingProof : Type 0 where
  pub profile : String
  pub physical_epoch : ℕ
  pub observation_key : ObservationKey
  pub outputs : List OutputMapping

unfoldable pub MappingProof-discrete : Discrete MappingProof
MappingProof-discrete =
    hlevel (ℕ_discrete, String-discrete, ObservationKey-discrete, OutputMapping-discrete)

instance abbrev pub mapping_proof_eq : Eq MappingProof
mapping_proof_eq = record { dec = MappingProof-discrete }

-- The selected target and its proof.
pub record CandidateSelection : Type 0 where
  pub profile : String
  pub scope : ProfileScope
  pub mapping : MappingProof
  pub observation_key : ObservationKey

unfoldable pub CandidateSelection-discrete : Discrete CandidateSelection
CandidateSelection-discrete =
    hlevel (String-discrete, ProfileScope-discrete, MappingProof-discrete, ObservationKey-discrete)

instance abbrev pub candidate_selection_eq : Eq CandidateSelection
candidate_selection_eq = record { dec = CandidateSelection-discrete }

-- Deduplication identity of a probe.
pub record ProbeAttemptKey : Type 0 where
  pub physical_epoch : ℕ
  pub profile : String
  pub observation_key : ObservationKey

unfoldable pub ProbeAttemptKey-discrete : Discrete ProbeAttemptKey
ProbeAttemptKey-discrete = hlevel (ℕ_discrete, String-discrete, ObservationKey-discrete)

instance abbrev pub probe_attempt_key_eq : Eq ProbeAttemptKey
probe_attempt_key_eq = record { dec = ProbeAttemptKey-discrete }

-- Deduplication identity of an application.
pub record ApplicationAttemptKey : Type 0 where
  pub physical_epoch : ℕ
  pub profile : String
  pub observation_key : ObservationKey

unfoldable pub ApplicationAttemptKey-discrete : Discrete ApplicationAttemptKey
ApplicationAttemptKey-discrete = hlevel (ℕ_discrete, String-discrete, ObservationKey-discrete)

instance abbrev pub application_attempt_key_eq : Eq ApplicationAttemptKey
application_attempt_key_eq = record { dec = ApplicationAttemptKey-discrete }

-- A systemd worker unit.
pub record WorkerUnit : Type 0 where
  pub action_id : ActionId
  pub unit_name : String

unfoldable pub WorkerUnit-discrete : Discrete WorkerUnit
WorkerUnit-discrete = hlevel (String-discrete, ActionId-discrete)

instance abbrev pub worker_unit_eq : Eq WorkerUnit
worker_unit_eq = record { dec = WorkerUnit-discrete }
