-- ===== src/Reducer/Plans.antt =====
-- `_plan_requested`, `_plan_completed` and `_plan_failed` of
-- .local/lib/monitor-controller/monitor_controller/reducer.py.
use desktop_config.Prelude.{
  List, Option, Result, [], elem, if◌then◌else◌, maybe, none, not, some, ◌!=◌, ◌+◌, ◌>>=◌, ◌||◌,
  ◌∷◌,
}
use desktop_config.Model.Action.{ActionRecord, PlanningAction}
use desktop_config.Model.Effect.{Decision}
use desktop_config.Model.Enums.{
  ActionLifecycle, ControllerPhase, PlanningState, WakeReason, planning_state_eq,
}
use desktop_config.Model.Event.{PlanCompleted, PlanFailed, PlanRequested}
use desktop_config.Model.Identity.{ActionId, PlanningInputKey, action_id_eq, planning_input_key_eq}
use desktop_config.Model.State.{State}
use desktop_config.Reducer.Epochs.{discard_planning}
use desktop_config.Reducer.Outcome.{decision, no_op, request_observation, schedule}
use desktop_config.Reducer.Timing.{health_poll_ms, observation_failure_retry_ms}
use desktop_config.Reducer.Tombstones.{append_tombstone}

-- The planning action that an event names, while planning is in one of `states`.
abbrev pub planning_named :
    State → List PlanningState → ActionId → PlanningInputKey → Option PlanningAction
planning_named s states action_id input_key = maybe s.planning none λ (action : PlanningAction).
    if not (elem s.planning_state states)
      || action.action_id != action_id
      || action.input_key != input_key
    then none
    else some action

-- `_plan_requested`
unfoldable pub plan_requested : State → PlanRequested → Result Decision
plan_requested s event =
    maybe (planning_named s (PlanningState.plan_pending ∷ []) event.action_id event.input_key)
      (no_op s)
      λ action.
        decision
          (record s {
            planning_state = PlanningState.planning;
            planning = some (record action { lifecycle = ActionLifecycle.dispatched });
          })
          []

-- `_plan_completed`
unfoldable pub plan_completed : State → PlanCompleted → Result Decision
plan_completed s event =
    maybe (planning_named s (PlanningState.planning ∷ []) event.action_id event.input_key) (no_op s)
      λ action. do
        let completed = record action {
          lifecycle = ActionLifecycle.completed;
          plan_hash = some event.plan_hash;
          input_key = event.input_key;
        }
        s1 ← append_tombstone s (ActionRecord.planning completed) ActionLifecycle.completed
        schedule
            (record s1 { planning_state = PlanningState.plan_ready; planning = some completed })
            event.metadata.processed_at_ms (request_observation WakeReason.worker_completed ∷ [])

-- `_plan_failed`
unfoldable pub plan_failed : State → PlanFailed → Result Decision
plan_failed s event =
    maybe
      (planning_named s (PlanningState.plan_pending ∷ PlanningState.planning ∷ []) event.action_id
        event.input_key)
      (no_op s)
      λ action.
        if event.retryable
        then (do
          (s1, discard_effects) ← discard_planning s
          schedule (record s1 { phase = ControllerPhase.discover_fast; verify_since_ms = none })
              (event.metadata.processed_at_ms + observation_failure_retry_ms) discard_effects)
        else do
          let failed = record action {
            lifecycle = ActionLifecycle.failed;
            exit_status = event.exit_status;
          }
          s1 ← append_tombstone s (ActionRecord.planning failed) ActionLifecycle.failed
          schedule
              (record s1 { planning_state = PlanningState.plan_failed; planning = some failed })
              (event.metadata.processed_at_ms + health_poll_ms) []
