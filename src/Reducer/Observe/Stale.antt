-- ===== src/Reducer/Observe/Stale.antt =====
-- The stops of `_observe` of
-- .local/lib/monitor-controller/monitor_controller/reducer.py for work whose topology is gone.
use desktop_config.Prelude.{
  List, Option, Result, [], if◌then◌else◌, maybe, none, ok, option_eq, some, string_eq, ℕ, ◌++◌,
  ◌+◌, ◌==◌, ◌>>=◌, ◌∷◌,
}
use desktop_config.Model.Action.{
  ActionRecord, ApplicationAction, FinalizationAction, PreparationAction, ProbeAction,
}
use desktop_config.Model.Effect.{Decision, Effect}
use desktop_config.Model.Enums.{
  ActionLifecycle, ControllerPhase, PreparationState, action_lifecycle_eq, controller_phase_eq,
  observation_invalidity_reason_eq, preparation_state_eq, profile_scope_eq,
}
use desktop_config.Model.Identity.{observation_key_eq, physical_token_eq}
use desktop_config.Model.State.{State}
use desktop_config.Reducer.Outcome.{schedule, stop_action, ◌<|>◌}
use desktop_config.Reducer.Timing.{health_poll_ms}
use desktop_config.Reducer.Tombstones.{append_tombstone}

-- The stop of a dispatched worker whose topology is gone, for each kind of action.
unfoldable pub stop_stale_probe : State → ℕ → Option (Result Decision)
stop_stale_probe s now_ms =
    if s.phase == ControllerPhase.probing
    then maybe s.probe none (λ (action : ProbeAction).
      if action.lifecycle == ActionLifecycle.dispatched
      then some (
          schedule
            (record s { probe = some (record action { lifecycle = ActionLifecycle.stopping }) })
            (now_ms + 1000) (stop_action action.action_id ∷ []))
      else none)
    else none

unfoldable pub stop_stale_application : State → ℕ → Option (Result Decision)
stop_stale_application s now_ms =
    if s.phase == ControllerPhase.applying
    then maybe s.application none (λ (action : ApplicationAction).
      if action.lifecycle == ActionLifecycle.dispatched
      then some (
          schedule
            (record s {
              application = some (record action { lifecycle = ActionLifecycle.stopping });
            })
            (now_ms + 1000) (stop_action action.action_id ∷ []))
      else none)
    else none

-- `FINALIZE_FAILED` for a result that new evidence contradicts.
unfoldable pub fail_finalization_result : State → FinalizationAction → Result State
fail_finalization_result s action = do
  let failed = record action { lifecycle = ActionLifecycle.failed }
  s1 ← append_tombstone s (ActionRecord.finalization failed) ActionLifecycle.failed
  ok (record s1 { phase = ControllerPhase.finalize_failed; finalization = some failed })

-- `FINALIZE_STOPPING`, with its stop.
unfoldable pub stop_finalization : State → FinalizationAction → ℕ → List Effect → Result Decision
stop_finalization s action now_ms effects =
    schedule
      (record s {
        phase = ControllerPhase.finalize_stopping;
        finalization = some (record action { lifecycle = ActionLifecycle.stopping });
        verify_since_ms = none;
      })
      (now_ms + 1000) (effects ++ stop_action action.action_id ∷ [])

unfoldable pub stop_stale_finalization : State → ℕ → Option (Result Decision)
stop_stale_finalization s now_ms =
    if s.phase == ControllerPhase.finalizing
    then maybe s.finalization none (λ (action : FinalizationAction). some (
        if action.lifecycle == ActionLifecycle.result_pending
        then (do
          s1 ← fail_finalization_result s action
          schedule (record s1 { verify_since_ms = none }) (now_ms + health_poll_ms) [])
        else stop_finalization s action now_ms []))
    else none

-- `PREPARE_STOPPING`, with its stop.
unfoldable pub stop_preparation : State → PreparationAction → ℕ → List Effect → Result Decision
stop_preparation s action now_ms effects =
    schedule
      (record s {
        phase = ControllerPhase.discover_fast;
        preparation_state = PreparationState.prepare_stopping;
        preparation = some (record action { lifecycle = ActionLifecycle.stopping });
        verify_since_ms = none;
      })
      (now_ms + 1000) (effects ++ stop_action action.action_id ∷ [])

unfoldable pub stop_stale_preparation : State → ℕ → Option (Result Decision)
stop_stale_preparation s now_ms =
    if s.preparation_state == PreparationState.preparing
    then maybe s.preparation none (λ action. some (stop_preparation s action now_ms []))
    else none

unfoldable pub stop_stale_work : State → ℕ → Option (Result Decision)
unfolding stop_stale_probe stop_stale_application stop_stale_finalization stop_stale_preparation
stop_stale_work s now_ms =
    stop_stale_probe s now_ms
    <|> stop_stale_application s now_ms
    <|> stop_stale_finalization s now_ms
    <|> stop_stale_preparation s now_ms
