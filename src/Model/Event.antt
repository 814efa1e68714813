-- ===== src/Model/Event.antt =====
-- Reducer inputs, from .local/lib/monitor-controller/monitor_controller/model.py.
use desktop_config.Prelude.{ℕ, String, Option, Bool}
use desktop_config.Model.Enums.{ActionLifecycle, WorkerOutcome}
use desktop_config.Model.Identity.{
  BootId, ControllerInstanceId, EventGeneration, PlanHash, PlanningInputKey, ActionId, WorkerUnit,
}
use desktop_config.Model.Observation.{CanonicalObservation}

-- Processing context of an event.
pub record EventMetadata : Type 0 where
  pub processed_at_ms : ℕ
  pub boot_id : BootId

-- A canonical observation completed.
pub record ObservationCompleted : Type 0 where
  pub metadata : EventMetadata
  pub observation : CanonicalObservation

-- `ObservationFailed`, with its envelope's metadata.
pub record ObservationFailed : Type 0 where
  pub metadata : EventMetadata
  pub reason : String

-- `PlanRequested`, with its envelope's metadata.
pub record PlanRequested : Type 0 where
  pub metadata : EventMetadata
  pub action_id : ActionId
  pub input_key : PlanningInputKey

-- `PlanCompleted`, with its envelope's metadata.
pub record PlanCompleted : Type 0 where
  pub metadata : EventMetadata
  pub action_id : ActionId
  pub input_key : PlanningInputKey
  pub plan_hash : PlanHash

-- `PlanFailed`, with its envelope's metadata.
pub record PlanFailed : Type 0 where
  pub metadata : EventMetadata
  pub action_id : ActionId
  pub input_key : PlanningInputKey
  pub reason : String
  pub exit_status : Option ℕ
  pub retryable : Bool

-- `TimerFired`, with its envelope's metadata.
pub record TimerFired : Type 0 where
  pub metadata : EventMetadata
  pub deadline_ms : ℕ

-- `DrmHintReceived`, with its envelope's metadata.
pub record DrmHintReceived : Type 0 where
  pub metadata : EventMetadata
  pub event_generation : EventGeneration

-- `AdmissionDirtied`, with its envelope's metadata.
pub record AdmissionDirtied : Type 0 where
  pub metadata : EventMetadata
  pub action_id : ActionId
  pub event_generation : EventGeneration

-- `ProbeDispatched`, with its envelope's metadata.
pub record ProbeDispatched : Type 0 where
  pub metadata : EventMetadata
  pub action_id : ActionId
  pub unit : WorkerUnit

-- `ProbeFinished`, with its envelope's metadata.
pub record ProbeFinished : Type 0 where
  pub metadata : EventMetadata
  pub action_id : ActionId
  pub outcome : WorkerOutcome
  pub exit_status : Option ℕ

-- `ApplicationDispatched`, with its envelope's metadata.
pub record ApplicationDispatched : Type 0 where
  pub metadata : EventMetadata
  pub action_id : ActionId
  pub unit : WorkerUnit

-- `ApplicationFinished`, with its envelope's metadata.
pub record ApplicationFinished : Type 0 where
  pub metadata : EventMetadata
  pub action_id : ActionId
  pub outcome : WorkerOutcome
  pub exit_status : Option ℕ

-- `PreparationDispatched`, with its envelope's metadata.
pub record PreparationDispatched : Type 0 where
  pub metadata : EventMetadata
  pub action_id : ActionId
  pub unit : WorkerUnit

-- `PreparationFinished`, with its envelope's metadata.
pub record PreparationFinished : Type 0 where
  pub metadata : EventMetadata
  pub action_id : ActionId
  pub outcome : WorkerOutcome
  pub exit_status : Option ℕ
  pub plan_hash : PlanHash

-- `FinalizationDispatched`, with its envelope's metadata.
pub record FinalizationDispatched : Type 0 where
  pub metadata : EventMetadata
  pub action_id : ActionId
  pub unit : WorkerUnit

-- `FinalizationFinished`, with its envelope's metadata.
pub record FinalizationFinished : Type 0 where
  pub metadata : EventMetadata
  pub action_id : ActionId
  pub outcome : WorkerOutcome
  pub exit_status : Option ℕ

-- `DispatchRejected`, with its envelope's metadata.
pub record DispatchRejected : Type 0 where
  pub metadata : EventMetadata
  pub action_id : ActionId
  pub reason : String

-- `WorkerStatusUnknown`, with its envelope's metadata.
pub record WorkerStatusUnknown : Type 0 where
  pub metadata : EventMetadata
  pub action_id : ActionId
  pub reason : String

-- `WorkerTimedOut`, with its envelope's metadata.
pub record WorkerTimedOut : Type 0 where
  pub metadata : EventMetadata
  pub action_id : ActionId
  pub deadline_ms : ℕ
  pub manager_confirmed : Bool

-- `WorkerCancellationAcknowledged`, with its envelope's metadata.
pub record WorkerCancellationAcknowledged : Type 0 where
  pub metadata : EventMetadata
  pub action_id : ActionId
  pub terminal_lifecycle : ActionLifecycle
  pub exit_status : ℕ

-- `ControllerStarted`, with its envelope's metadata.
pub record ControllerStarted : Type 0 where
  pub metadata : EventMetadata
  pub controller_instance : ControllerInstanceId

-- `BootChanged`, with its envelope's metadata.
pub record BootChanged : Type 0 where
  pub metadata : EventMetadata
  pub previous_boot_id : BootId

-- The closed union `Event`.
pub data Event : Type 0 where
  observation_completed : ObservationCompleted → Event
  observation_failed : ObservationFailed → Event
  plan_requested : PlanRequested → Event
  plan_completed : PlanCompleted → Event
  plan_failed : PlanFailed → Event
  timer_fired : TimerFired → Event
  drm_hint_received : DrmHintReceived → Event
  admission_dirtied : AdmissionDirtied → Event
  probe_dispatched : ProbeDispatched → Event
  probe_finished : ProbeFinished → Event
  application_dispatched : ApplicationDispatched → Event
  application_finished : ApplicationFinished → Event
  preparation_dispatched : PreparationDispatched → Event
  preparation_finished : PreparationFinished → Event
  finalization_dispatched : FinalizationDispatched → Event
  finalization_finished : FinalizationFinished → Event
  dispatch_rejected : DispatchRejected → Event
  worker_status_unknown : WorkerStatusUnknown → Event
  worker_timed_out : WorkerTimedOut → Event
  worker_cancellation_acknowledged : WorkerCancellationAcknowledged → Event
  controller_started : ControllerStarted → Event
  boot_changed : BootChanged → Event

-- `event.metadata`, which every class inherits from `EventEnvelope`
abbrev pub event_metadata : Event → EventMetadata
event_metadata (Event.observation_completed e) = e.metadata
event_metadata (Event.observation_failed e) = e.metadata
event_metadata (Event.plan_requested e) = e.metadata
event_metadata (Event.plan_completed e) = e.metadata
event_metadata (Event.plan_failed e) = e.metadata
event_metadata (Event.timer_fired e) = e.metadata
event_metadata (Event.drm_hint_received e) = e.metadata
event_metadata (Event.admission_dirtied e) = e.metadata
event_metadata (Event.probe_dispatched e) = e.metadata
event_metadata (Event.probe_finished e) = e.metadata
event_metadata (Event.application_dispatched e) = e.metadata
event_metadata (Event.application_finished e) = e.metadata
event_metadata (Event.preparation_dispatched e) = e.metadata
event_metadata (Event.preparation_finished e) = e.metadata
event_metadata (Event.finalization_dispatched e) = e.metadata
event_metadata (Event.finalization_finished e) = e.metadata
event_metadata (Event.dispatch_rejected e) = e.metadata
event_metadata (Event.worker_status_unknown e) = e.metadata
event_metadata (Event.worker_timed_out e) = e.metadata
event_metadata (Event.worker_cancellation_acknowledged e) = e.metadata
event_metadata (Event.controller_started e) = e.metadata
event_metadata (Event.boot_changed e) = e.metadata
