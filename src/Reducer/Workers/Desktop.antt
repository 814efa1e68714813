-- ===== src/Reducer/Workers/Desktop.antt =====
-- `_finished` of .local/lib/monitor-controller/monitor_controller/reducer.py
-- for preparations and finalizations, and as a whole.
use desktop_config.Prelude.{
  Option, Result, [], elem, if◌then◌else◌, maybe, none, not, option_eq, some, ℕ, ◌!=◌, ◌&&◌, ◌+◌,
  ◌==◌, ◌>>=◌, ◌||◌, ◌∷◌,
}
use desktop_config.Model.Action.{ActionRecord, FinalizationAction, PreparationAction}
use desktop_config.Model.Effect.{Decision}
use desktop_config.Model.Enums.{
  ActionLifecycle, ControllerPhase, PreparationState, WorkerOutcome, action_lifecycle_eq,
  controller_phase_eq, preparation_state_eq, worker_outcome_eq,
}
use desktop_config.Model.Identity.{
  ActionId, PlanHash, action_id_eq, application_attempt_key_eq, plan_hash_eq, probe_attempt_key_eq,
}
use desktop_config.Model.State.{State}
use desktop_config.Reducer.Outcome.{no_op, schedule}
use desktop_config.Reducer.Timing.{health_poll_ms}
use desktop_config.Reducer.Tombstones.{append_tombstone, clear_recovery_unit}
use desktop_config.Reducer.Workers.Kinds.{by_kind}
use desktop_config.Reducer.Workers.Display.{
  unsuccessful, observe_again, stop_again, finished_probe, finished_application,
}

-- The terminal record of a preparation worker's result.
abbrev pub ended_preparation : PreparationAction → ActionLifecycle → Option ℕ → PreparationAction
ended_preparation action lifecycle exit_status = record action {
  lifecycle = lifecycle;
  exit_status = exit_status;
  terminal_after_stop = none;
}

-- A success is only a pending result: the next observation has to confirm it.
unfoldable pub close_preparation :
    State → PreparationAction → WorkerOutcome → Option ℕ → ℕ → Option PlanHash → Result Decision
close_preparation s action outcome exit_status now_ms plan_hash =
    if outcome == WorkerOutcome.succeeded && plan_hash == some action.plan_hash
    then observe_again
        (record (clear_recovery_unit s action.action_id) {
          preparation = some (ended_preparation action ActionLifecycle.result_pending exit_status);
        })
        now_ms
    else (let lifecycle = unsuccessful outcome in
        let ended = ended_preparation action lifecycle exit_status in
        do
          s1 ← append_tombstone s (ActionRecord.preparation ended) lifecycle
          (if lifecycle == ActionLifecycle.cancelled
              then observe_again
                  (record s1 {
                    preparation_state = PreparationState.prepare_idle;
                    preparation = none;
                    phase = ControllerPhase.discover_fast;
                  })
                  now_ms
              else schedule
                  (record s1 {
                    preparation_state = PreparationState.prepare_failed;
                    preparation = some ended;
                  })
                  (now_ms + health_poll_ms) []))

unfoldable pub finished_preparation :
    State → ActionId → WorkerOutcome → Option ℕ → ℕ → Option PlanHash → Result Decision
unfolding close_preparation
finished_preparation s action_id outcome exit_status now_ms plan_hash =
    maybe s.preparation (no_op s) λ (action : PreparationAction).
      if action.action_id != action_id
        || not (elem action.lifecycle (ActionLifecycle.dispatched ∷ ActionLifecycle.stopping ∷ []))
        || not (
            elem s.preparation_state
              (PreparationState.preparing ∷ PreparationState.prepare_stopping ∷ []))
      then no_op s
      else if action.lifecycle == ActionLifecycle.stopping
      then stop_again s action.action_id now_ms
      else close_preparation s action outcome exit_status now_ms plan_hash

-- The terminal record of a finalization worker's result.
abbrev pub ended_finalization : FinalizationAction → ActionLifecycle → Option ℕ → FinalizationAction
ended_finalization action lifecycle exit_status = record action {
  lifecycle = lifecycle;
  exit_status = exit_status;
  terminal_after_stop = none;
}

-- A success is only a pending result: the next observation has to confirm it.
unfoldable pub close_finalization :
    State → FinalizationAction → WorkerOutcome → Option ℕ → ℕ → Result Decision
close_finalization s action outcome exit_status now_ms =
    if outcome == WorkerOutcome.succeeded
    then observe_again
        (record (clear_recovery_unit s action.action_id) {
          phase = ControllerPhase.finalizing;
          finalization =
              some (ended_finalization action ActionLifecycle.result_pending exit_status);
        })
        now_ms
    else (let lifecycle = unsuccessful outcome in
        let ended = ended_finalization action lifecycle exit_status in
        do
          s1 ← append_tombstone s (ActionRecord.finalization ended) lifecycle
          (if lifecycle == ActionLifecycle.cancelled
              then observe_again
                  (record s1 {
                    phase = ControllerPhase.discover_fast;
                    finalization = none;
                    verify_since_ms = none;
                  })
                  now_ms
              else schedule
                  (record s1 { phase = ControllerPhase.finalize_failed; finalization = some ended })
                  (now_ms + health_poll_ms) []))

unfoldable pub finished_finalization :
    State → ActionId → WorkerOutcome → Option ℕ → ℕ → Result Decision
unfolding close_finalization
finished_finalization s action_id outcome exit_status now_ms =
    maybe s.finalization (no_op s) λ (action : FinalizationAction).
      if action.action_id != action_id
        || not (elem action.lifecycle (ActionLifecycle.dispatched ∷ ActionLifecycle.stopping ∷ []))
        || not (elem s.phase (ControllerPhase.finalizing ∷ ControllerPhase.finalize_stopping ∷ []))
      then no_op s
      else if action.lifecycle == ActionLifecycle.stopping
      then stop_again s action.action_id now_ms
      else close_finalization s action outcome exit_status now_ms

-- `_finished`
unfoldable pub finished :
    State → ActionId → WorkerOutcome → Option ℕ → ℕ → Option PlanHash → Result Decision
unfolding finished_probe finished_application finished_preparation finished_finalization
finished s action_id outcome exit_status now_ms plan_hash =
    by_kind action_id.kind (no_op s) (finished_probe s action_id outcome exit_status now_ms)
      (finished_application s action_id outcome exit_status now_ms)
      (finished_preparation s action_id outcome exit_status now_ms plan_hash)
      (finished_finalization s action_id outcome exit_status now_ms)
