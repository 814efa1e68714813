-- ===== src/Controller/Dispatch.antt =====
-- What the controller and its dispatcher exchange:
-- .local/lib/monitor-controller/monitor_controller/runtime/dispatcher.py, `ExpectedTopology` of
-- transactions.py beside it, and the translation to events at the end of controller.py beside it.
use desktop_config.Prelude.{
  List, Option, Result, String, elem, err, if◌then◌else◌, ltb, maybe, nat_eq, none, not, ok, some,
  true, value_error, ℕ, ◌!=◌, ◌&&◌, ◌==◌, ◌>>◌,
}
use desktop_config.Codec.Validation.{refuse}
use desktop_config.Model.Effect.{ActivateProbe, ApplyProfile, FinalizeDesktop, PrepareDesktop}
use desktop_config.Model.Enums.{
  ActionKind, ActionLifecycle, EdidIntegrity, WorkerOutcome, action_lifecycle_eq,
  terminal_action_lifecycles,
}
use desktop_config.Model.Event.{Event, EventMetadata}
use desktop_config.Model.Identity.{
  ActionId, ConfigurationContentHash, EventGeneration, ObservationKey, OutputMapping, PhysicalToken,
  PlanHash, WorkerUnit,
}

-- The union `DispatchEffect`
pub data DispatchEffect : Type 0 where
  probe : ActivateProbe → DispatchEffect
  apply : ApplyProfile → DispatchEffect
  prepare : PrepareDesktop → DispatchEffect
  finalize : FinalizeDesktop → DispatchEffect

-- `effect.action_id`, `effect.admitted_event_generation` and `effect.observation_key`
abbrev pub effect_id : DispatchEffect → ActionId
effect_id (DispatchEffect.probe e) = e.action_id
effect_id (DispatchEffect.apply e) = e.action_id
effect_id (DispatchEffect.prepare e) = e.action_id
effect_id (DispatchEffect.finalize e) = e.action_id

abbrev pub effect_generation : DispatchEffect → EventGeneration
effect_generation (DispatchEffect.probe e) = e.admitted_event_generation
effect_generation (DispatchEffect.apply e) = e.admitted_event_generation
effect_generation (DispatchEffect.prepare e) = e.admitted_event_generation
effect_generation (DispatchEffect.finalize e) = e.admitted_event_generation

abbrev pub effect_observation_key : DispatchEffect → ObservationKey
effect_observation_key (DispatchEffect.probe e) = e.observation_key
effect_observation_key (DispatchEffect.apply e) = e.observation_key
effect_observation_key (DispatchEffect.prepare e) = e.observation_key
effect_observation_key (DispatchEffect.finalize e) = e.observation_key

-- `ExpectedTopology`
pub record ExpectedTopology : Type 0 where
  pub kernel_connected_outputs : List String
  pub kernel_external_outputs : List String
  pub x_connected_outputs : List String
  pub x_active_outputs : List String

-- `WorkerRequestContext`
pub record WorkerRequestContext : Type 0 where
  pub physical_epoch : ℕ
  pub physical_token : PhysicalToken
  pub output_mapping : List OutputMapping
  pub expected_topology : ExpectedTopology
  pub layout : Option String
  pub planning_action_id : Option ActionId
  pub preparation_action_id : Option ActionId
  pub proof_duration_ms : Option ℕ
  pub probe_base_hash : Option String
  pub probe_edid_integrity : Option EdidIntegrity
  pub profile_configuration_hashes : List ConfigurationContentHash

-- `WorkerCompletion`
pub record WorkerCompletion : Type 0 where
  pub action_id : ActionId
  pub terminal_lifecycle : ActionLifecycle
  pub exit_status : ℕ
  pub plan_hash : Option PlanHash

-- `MAX_EXIT_STATUS`
abbrev pub max_exit_status : ℕ
max_exit_status = 255

-- `WorkerCompletion.__post_init__`
unfoldable pub new_completion : WorkerCompletion → Result WorkerCompletion
new_completion c = do
  refuse (ltb max_exit_status c.exit_status)
      "worker completion exit status must be between zero and 255"
  refuse (not (elem c.terminal_lifecycle terminal_action_lifecycles))
      "worker completion requires an exact terminal lifecycle"
  refuse (c.terminal_lifecycle == ActionLifecycle.completed && c.exit_status != 0)
      "completed worker completion requires exit status zero"
  refuse (c.terminal_lifecycle != ActionLifecycle.completed && c.exit_status == 0)
      "non-completed worker completion requires a non-zero exit status"
  ok c

-- `outcome` of `_finished_event`
unfoldable pub outcome_of : ActionLifecycle → Option WorkerOutcome
outcome_of ActionLifecycle.completed = some WorkerOutcome.succeeded
outcome_of ActionLifecycle.failed = some WorkerOutcome.failed
outcome_of ActionLifecycle.cancelled = some WorkerOutcome.cancelled
outcome_of _ = none

-- The branches of `_finished_event` by the kind of the action
unfoldable pub finished_kind :
    ActionKind → WorkerCompletion → EventMetadata → WorkerOutcome → Result Event
finished_kind ActionKind.probe c metadata outcome = ok (
    Event.probe_finished (record {
      metadata = metadata;
      action_id = c.action_id;
      outcome = outcome;
      exit_status = some c.exit_status;
    }))
finished_kind ActionKind.application c metadata outcome = ok (
    Event.application_finished (record {
      metadata = metadata;
      action_id = c.action_id;
      outcome = outcome;
      exit_status = some c.exit_status;
    }))
finished_kind ActionKind.preparation c metadata outcome =
    maybe c.plan_hash (err (value_error "preparation result lacks its bound plan hash"))
      λ plan_hash. ok (
        Event.preparation_finished (record {
          metadata = metadata;
          action_id = c.action_id;
          outcome = outcome;
          exit_status = some c.exit_status;
          plan_hash = plan_hash;
        }))
finished_kind ActionKind.finalization c metadata outcome = ok (
    Event.finalization_finished (record {
      metadata = metadata;
      action_id = c.action_id;
      outcome = outcome;
      exit_status = some c.exit_status;
    }))
finished_kind ActionKind.plan c metadata outcome =
    err (value_error "planning actions cannot produce systemd worker completion")

-- `_finished_event`
unfoldable pub finished_event : WorkerCompletion → EventMetadata → Result Event
unfolding finished_kind outcome_of
finished_event c metadata =
    maybe (outcome_of c.terminal_lifecycle)
      (err (value_error "unknown/timed-out completion requires its dedicated reducer event"))
      (finished_kind c.action_id.kind c metadata)

-- `_completion_event`
unfoldable pub completion_event : WorkerCompletion → EventMetadata → ℕ → Result Event
unfolding finished_event
completion_event c metadata deadline_ms =
    if c.terminal_lifecycle == ActionLifecycle.unknown
    then ok (
        Event.worker_status_unknown (record {
          metadata = metadata;
          action_id = c.action_id;
          reason = "supervisor: exact terminal transaction outcome is unknown";
        }))
    else if c.terminal_lifecycle == ActionLifecycle.timed_out
    then ok (
        Event.worker_timed_out (record {
          metadata = metadata;
          action_id = c.action_id;
          deadline_ms = deadline_ms;
          manager_confirmed = true;
        }))
    else finished_event c metadata

-- `_dispatched_event`
unfoldable pub dispatched_event : DispatchEffect → WorkerUnit → EventMetadata → Event
dispatched_event (DispatchEffect.probe e) unit metadata =
    Event.probe_dispatched (record { metadata = metadata; action_id = e.action_id; unit = unit })
dispatched_event (DispatchEffect.apply e) unit metadata =
    Event.application_dispatched
      (record { metadata = metadata; action_id = e.action_id; unit = unit })
dispatched_event (DispatchEffect.prepare e) unit metadata =
    Event.preparation_dispatched
      (record { metadata = metadata; action_id = e.action_id; unit = unit })
dispatched_event (DispatchEffect.finalize e) unit metadata =
    Event.finalization_dispatched
      (record { metadata = metadata; action_id = e.action_id; unit = unit })
