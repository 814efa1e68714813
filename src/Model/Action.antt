-- ===== src/Model/Action.antt =====
-- Admitted actions, from .local/lib/monitor-controller/monitor_controller/model.py.
use desktop_config.Prelude.{ℕ, String, Option, none, Bool, true, false}
use desktop_config.Model.Enums.{ActionLifecycle, ProfileScope}
use desktop_config.Model.Identity.{
  EventGeneration, ObservationKey, PlanHash, PlanningInputKey, TransitionKey, ActionId,
  TransitionId, MappingProof, ProbeAttemptKey, ApplicationAttemptKey, WorkerUnit,
}

-- Safe activation probe.
pub record ProbeAction : Type 0 where
  pub action_id : ActionId
  pub key : ProbeAttemptKey
  pub admitted_event_generation : EventGeneration
  pub output : String
  pub internal_output : String
  pub preferred_mode : String
  pub lifecycle : ActionLifecycle
  pub unit : Option WorkerUnit
  pub worker_deadline_ms : Option ℕ
  pub exit_status : Option ℕ
  pub terminal_after_stop : Option ActionLifecycle

-- Explicit autorandr application.
pub record ApplicationAction : Type 0 where
  pub action_id : ActionId
  pub key : ApplicationAttemptKey
  pub admitted_event_generation : EventGeneration
  pub profile : String
  pub scope : ProfileScope
  pub mapping : MappingProof
  pub lifecycle : ActionLifecycle
  pub unit : Option WorkerUnit
  pub worker_deadline_ms : Option ℕ
  pub exit_status : Option ℕ
  pub terminal_after_stop : Option ActionLifecycle

-- Planning action with its input manifest.
pub record PlanningAction : Type 0 where
  pub action_id : ActionId
  pub transition_id : TransitionId
  pub input_key : PlanningInputKey
  pub profile : String
  pub lifecycle : ActionLifecycle
  pub plan_hash : Option PlanHash
  pub exit_status : Option ℕ

-- Repeatable desktop preparation.
pub record PreparationAction : Type 0 where
  pub action_id : ActionId
  pub transition_id : TransitionId
  pub transition_key : TransitionKey
  pub plan_hash : PlanHash
  pub admitted_event_generation : EventGeneration
  pub observation_key : ObservationKey
  pub profile : String
  pub lifecycle : ActionLifecycle
  pub unit : Option WorkerUnit
  pub worker_deadline_ms : Option ℕ
  pub exit_status : Option ℕ
  pub terminal_after_stop : Option ActionLifecycle

-- Disruptive desktop finalization.
pub record FinalizationAction : Type 0 where
  pub action_id : ActionId
  pub transition_id : TransitionId
  pub transition_key : TransitionKey
  pub plan_hash : PlanHash
  pub admitted_event_generation : EventGeneration
  pub observation_key : ObservationKey
  pub profile : String
  pub lifecycle : ActionLifecycle
  pub unit : Option WorkerUnit
  pub worker_deadline_ms : Option ℕ
  pub exit_status : Option ℕ
  pub terminal_after_stop : Option ActionLifecycle

-- The union `ActionRecord`. A class's `__post_init__` ties `action_id.kind` to the class, so a test
-- of the kind of a record's ID and a match on the record's class are one.
pub data ActionRecord : Type 0 where
  probe : ProbeAction → ActionRecord
  application : ApplicationAction → ActionRecord
  planning : PlanningAction → ActionRecord
  preparation : PreparationAction → ActionRecord
  finalization : FinalizationAction → ActionRecord

-- The fields that every class of the union has.
abbrev pub record_id : ActionRecord → ActionId
record_id (ActionRecord.probe a) = a.action_id
record_id (ActionRecord.application a) = a.action_id
record_id (ActionRecord.planning a) = a.action_id
record_id (ActionRecord.preparation a) = a.action_id
record_id (ActionRecord.finalization a) = a.action_id

abbrev pub record_lifecycle : ActionRecord → ActionLifecycle
record_lifecycle (ActionRecord.probe a) = a.lifecycle
record_lifecycle (ActionRecord.application a) = a.lifecycle
record_lifecycle (ActionRecord.planning a) = a.lifecycle
record_lifecycle (ActionRecord.preparation a) = a.lifecycle
record_lifecycle (ActionRecord.finalization a) = a.lifecycle

-- The worker fields, which a planning action does not have.
abbrev pub record_unit : ActionRecord → Option WorkerUnit
record_unit (ActionRecord.probe a) = a.unit
record_unit (ActionRecord.application a) = a.unit
record_unit (ActionRecord.planning a) = none
record_unit (ActionRecord.preparation a) = a.unit
record_unit (ActionRecord.finalization a) = a.unit

abbrev pub record_deadline : ActionRecord → Option ℕ
record_deadline (ActionRecord.probe a) = a.worker_deadline_ms
record_deadline (ActionRecord.application a) = a.worker_deadline_ms
record_deadline (ActionRecord.planning a) = none
record_deadline (ActionRecord.preparation a) = a.worker_deadline_ms
record_deadline (ActionRecord.finalization a) = a.worker_deadline_ms

-- `isinstance(action, PlanningAction)`
abbrev pub is_planning : ActionRecord → Bool
is_planning (ActionRecord.planning a) = true
is_planning _ = false

-- `replace(action, lifecycle=lifecycle)`
abbrev pub with_lifecycle : ActionRecord → ActionLifecycle → ActionRecord
with_lifecycle (ActionRecord.probe a) l = ActionRecord.probe (record a { lifecycle = l })
with_lifecycle (ActionRecord.application a) l =
    ActionRecord.application (record a { lifecycle = l })
with_lifecycle (ActionRecord.planning a) l = ActionRecord.planning (record a { lifecycle = l })
with_lifecycle (ActionRecord.preparation a) l =
    ActionRecord.preparation (record a { lifecycle = l })
with_lifecycle (ActionRecord.finalization a) l =
    ActionRecord.finalization (record a { lifecycle = l })

-- No-external-output proof accumulated over time.
pub record UnplugProof : Type 0 where
  pub first_observation_key : ObservationKey
  pub first_observed_at_ms : ℕ
  pub latest_observation_key : ObservationKey
  pub latest_observed_at_ms : ℕ
  pub observation_count : ℕ

-- Terminal action identity kept for recovery.
pub record ActionTombstone : Type 0 where
  pub action_id : ActionId
  pub lifecycle : ActionLifecycle
