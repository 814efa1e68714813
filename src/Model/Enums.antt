-- ===== src/Model/Enums.antt =====
-- The enumerations of .local/lib/monitor-controller/monitor_controller/model.py.
use desktop_config.Prelude.{List, [], ◌∷◌, ◌++◌, Eq}

-- The main display-convergence and finalization phases.
pub data ControllerPhase : Type 0 where
  recovering quiescent discover_fast probe_pending probing probe_failed apply_pending applying
        apply_failed verifying wait_slow unsupported finalize_pending finalizing finalize_stopping
        finalize_failed :
      ControllerPhase

unfoldable pub ControllerPhase-discrete : Discrete ControllerPhase
ControllerPhase-discrete = hlevel

instance abbrev pub controller_phase_eq : Eq ControllerPhase
controller_phase_eq = record { dec = ControllerPhase-discrete }

-- The planning lifecycle, beside the phase.
pub data PlanningState : Type 0 where
  plan_idle plan_pending planning plan_ready plan_failed : PlanningState

unfoldable pub PlanningState-discrete : Discrete PlanningState
PlanningState-discrete = hlevel

instance abbrev pub planning_state_eq : Eq PlanningState
planning_state_eq = record { dec = PlanningState-discrete }

-- The desktop-preparation lifecycle, beside the phase.
pub data PreparationState : Type 0 where
  prepare_idle prepare_pending preparing prepared prepare_stopping prepare_failed : PreparationState

unfoldable pub PreparationState-discrete : Discrete PreparationState
PreparationState-discrete = hlevel

instance abbrev pub preparation_state_eq : Eq PreparationState
preparation_state_eq = record { dec = PreparationState-discrete }

-- Hardware scope of an autorandr profile.
pub data ProfileScope : Type 0 where
  internal_only external_only mixed : ProfileScope

unfoldable pub ProfileScope-discrete : Discrete ProfileScope
ProfileScope-discrete = hlevel

instance abbrev pub profile_scope_eq : Eq ProfileScope
profile_scope_eq = record { dec = ProfileScope-discrete }

-- Completeness and checksum state of observed EDID bytes.
pub data EdidIntegrity : Type 0 where
  absent base_invalid base_valid_extensions_incomplete base_valid_extensions_invalid complete :
      EdidIntegrity

unfoldable pub EdidIntegrity-discrete : Discrete EdidIntegrity
EdidIntegrity-discrete = hlevel

instance abbrev pub edid_integrity_eq : Eq EdidIntegrity
edid_integrity_eq = record { dec = EdidIntegrity-discrete }

-- Whether a sample may be used for classification.
pub data ObservationValidity : Type 0 where
  valid invalid : ObservationValidity

unfoldable pub ObservationValidity-discrete : Discrete ObservationValidity
ObservationValidity-discrete = hlevel

instance abbrev pub observation_validity_eq : Eq ObservationValidity
observation_validity_eq = record { dec = ObservationValidity-discrete }

-- Why an observation cannot authorize work.
pub data ObservationInvalidityReason : Type 0 where
  event_generation_changed topology_changed command_timed_out parse_failed inconsistent_evidence :
      ObservationInvalidityReason

unfoldable pub ObservationInvalidityReason-discrete : Discrete ObservationInvalidityReason
ObservationInvalidityReason-discrete = hlevel

instance abbrev pub observation_invalidity_reason_eq : Eq ObservationInvalidityReason
observation_invalidity_reason_eq = record { dec = ObservationInvalidityReason-discrete }

-- Source kinds of raw evidence.
pub data RawEvidenceSource : Type 0 where
  drm_connectors drm_edid xrandr_query xrandr_properties autorandr_fingerprint autorandr_profiles
        dpms :
      RawEvidenceSource

unfoldable pub RawEvidenceSource-discrete : Discrete RawEvidenceSource
RawEvidenceSource-discrete = hlevel

instance abbrev pub raw_evidence_source_eq : Eq RawEvidenceSource
raw_evidence_source_eq = record { dec = RawEvidenceSource-discrete }

-- Whether the screens are awake.
pub data DisplayPower : Type 0 where
  on asleep : DisplayPower

unfoldable pub DisplayPower-discrete : Discrete DisplayPower
DisplayPower-discrete = hlevel

instance abbrev pub display_power_eq : Eq DisplayPower
display_power_eq = record { dec = DisplayPower-discrete }

-- Kinds of keyed work.
pub data ActionKind : Type 0 where
  plan probe application preparation finalization : ActionKind

unfoldable pub ActionKind-discrete : Discrete ActionKind
ActionKind-discrete = hlevel

instance abbrev pub action_kind_eq : Eq ActionKind
action_kind_eq = record { dec = ActionKind-discrete }

-- Durable action lifecycle.
pub data ActionLifecycle : Type 0 where
  admitted dispatched stopping result_pending completed failed cancelled unknown timed_out :
      ActionLifecycle

unfoldable pub ActionLifecycle-discrete : Discrete ActionLifecycle
ActionLifecycle-discrete = hlevel

instance abbrev pub action_lifecycle_eq : Eq ActionLifecycle
action_lifecycle_eq = record { dec = ActionLifecycle-discrete }

-- Terminal result reported by a worker.
pub data WorkerOutcome : Type 0 where
  succeeded failed cancelled : WorkerOutcome

unfoldable pub WorkerOutcome-discrete : Discrete WorkerOutcome
WorkerOutcome-discrete = hlevel

instance abbrev pub worker_outcome_eq : Eq WorkerOutcome
worker_outcome_eq = record { dec = WorkerOutcome-discrete }

-- Why an observation is requested.
pub data WakeReason : Type 0 where
  startup drm_hint timer worker_completed recovery dirty_admission : WakeReason

unfoldable pub WakeReason-discrete : Discrete WakeReason
WakeReason-discrete = hlevel

instance abbrev pub wake_reason_eq : Eq WakeReason
wake_reason_eq = record { dec = WakeReason-discrete }

-- `TERMINAL_ACTION_LIFECYCLES`
abbrev pub terminal_action_lifecycles : List ActionLifecycle
terminal_action_lifecycles =
    ActionLifecycle.completed ∷ ActionLifecycle.failed ∷ ActionLifecycle.cancelled
    ∷ ActionLifecycle.unknown ∷ ActionLifecycle.timed_out ∷ []

-- `BROKEN_EXTENSION_EDID_INTEGRITIES` and `PROBE_ADMISSIBLE_EDID_INTEGRITIES`
abbrev pub broken_extension_edid_integrities : List EdidIntegrity
broken_extension_edid_integrities =
    EdidIntegrity.base_valid_extensions_incomplete ∷ EdidIntegrity.base_valid_extensions_invalid
    ∷ []

abbrev pub probe_admissible_edid_integrities : List EdidIntegrity
probe_admissible_edid_integrities = broken_extension_edid_integrities ++ EdidIntegrity.complete ∷ []
