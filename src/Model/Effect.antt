-- ===== src/Model/Effect.antt =====
-- Reducer outputs, from .local/lib/monitor-controller/monitor_controller/model.py.
use desktop_config.Prelude.{ℕ, String, List, Option}
use desktop_config.Model.Enums.{WakeReason}
use desktop_config.Model.Identity.{
  EventGeneration, ObservationKey, PlanHash, PlanningInputKey, TransitionKey, ActionId,
  TransitionId, MappingProof, ProbeAttemptKey, ApplicationAttemptKey,
}
use desktop_config.Model.State.{State}

-- `RequestObservation`
pub record RequestObservation : Type 0 where
  pub reason : WakeReason

-- `Schedule`
pub record Schedule : Type 0 where
  pub deadline_ms : ℕ

-- `RequestPlan`
pub record RequestPlan : Type 0 where
  pub action_id : ActionId
  pub transition_id : TransitionId
  pub input_key : PlanningInputKey
  pub profile : String

-- `ActivateProbe`
pub record ActivateProbe : Type 0 where
  pub action_id : ActionId
  pub key : ProbeAttemptKey
  pub output : String
  pub internal_output : String
  pub preferred_mode : String
  pub admitted_event_generation : EventGeneration
  pub observation_key : ObservationKey

-- `ApplyProfile`
pub record ApplyProfile : Type 0 where
  pub action_id : ActionId
  pub key : ApplicationAttemptKey
  pub profile : String
  pub mapping : MappingProof
  pub admitted_event_generation : EventGeneration
  pub observation_key : ObservationKey

-- `PrepareDesktop`
pub record PrepareDesktop : Type 0 where
  pub action_id : ActionId
  pub transition_id : TransitionId
  pub transition_key : TransitionKey
  pub profile : String
  pub plan_hash : PlanHash
  pub admitted_event_generation : EventGeneration
  pub observation_key : ObservationKey

-- `FinalizeDesktop`
pub record FinalizeDesktop : Type 0 where
  pub action_id : ActionId
  pub transition_id : TransitionId
  pub transition_key : TransitionKey
  pub profile : String
  pub plan_hash : PlanHash
  pub admitted_event_generation : EventGeneration
  pub observation_key : ObservationKey

-- `StopAction`
pub record StopAction : Type 0 where
  pub action_id : ActionId

-- `DiscardPlan`
pub record DiscardPlan : Type 0 where
  pub action_id : ActionId
  pub plan_hash : Option PlanHash

-- The union `Effect`.
pub data Effect : Type 0 where
  request_observation : RequestObservation → Effect
  schedule : Schedule → Effect
  request_plan : RequestPlan → Effect
  activate_probe : ActivateProbe → Effect
  apply_profile : ApplyProfile → Effect
  prepare_desktop : PrepareDesktop → Effect
  finalize_desktop : FinalizeDesktop → Effect
  stop_action : StopAction → Effect
  discard_plan : DiscardPlan → Effect

-- The reducer's result.
pub record Decision : Type 0 where
  pub state : State
  pub effects : List Effect
