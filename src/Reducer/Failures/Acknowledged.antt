-- ===== src/Reducer/Failures/Acknowledged.antt =====
-- `_cancellation_acknowledged` of
-- .local/lib/monitor-controller/monitor_controller/reducer.py
use desktop_config.Prelude.{
  Bool, List, Option, Result, [], elem, false, if◌then◌else◌, is_some, maybe, none, some, true, ℕ,
  ◌!=◌, ◌++◌, ◌+◌, ◌==◌, ◌>>=◌, ◌||◌, ◌∷◌,
}
use desktop_config.Invariants.Rules.{failed_lifecycles}
use desktop_config.Model.Action.{ActionRecord, is_planning, record_lifecycle}
use desktop_config.Model.Effect.{Decision, Effect}
use desktop_config.Model.Enums.{
  ActionLifecycle, ControllerPhase, PreparationState, WakeReason, WorkerOutcome,
  action_lifecycle_eq,
}
use desktop_config.Model.Event.{WorkerCancellationAcknowledged}
use desktop_config.Model.State.{State}
use desktop_config.Reducer.Epochs.{discard_plan}
use desktop_config.Reducer.Outcome.{no_op, request_observation, schedule}
use desktop_config.Reducer.Timing.{health_poll_ms}
use desktop_config.Reducer.Tombstones.{action_for_id, append_tombstone}
use desktop_config.Reducer.Workers.{
  ended_application, ended_finalization, ended_preparation, ended_probe, finished,
}
use desktop_config.Reducer.Failures.Failed.{place_failed}

-- The completed case of `_cancellation_acknowledged`: the stop is taken back, and the result is that
-- of an ordinary worker. `getattr(action, "plan_hash", None)` is the last argument.
unfoldable pub resume_completed : State → ActionRecord → Option ℕ → ℕ → Result Decision
resume_completed s (ActionRecord.planning action) exit_status now_ms = no_op s
resume_completed s (ActionRecord.probe action) exit_status now_ms =
    finished
      (record s {
        phase = ControllerPhase.probing;
        probe =
            some (record action {
              lifecycle = ActionLifecycle.dispatched;
              terminal_after_stop = none;
            });
      })
      action.action_id WorkerOutcome.succeeded exit_status now_ms none
resume_completed s (ActionRecord.application action) exit_status now_ms =
    finished
      (record s {
        phase = ControllerPhase.applying;
        application =
            some (record action {
              lifecycle = ActionLifecycle.dispatched;
              terminal_after_stop = none;
            });
      })
      action.action_id WorkerOutcome.succeeded exit_status now_ms none
resume_completed s (ActionRecord.preparation action) exit_status now_ms =
    finished
      (record s {
        preparation_state = PreparationState.preparing;
        preparation =
            some (record action {
              lifecycle = ActionLifecycle.dispatched;
              terminal_after_stop = none;
            });
      })
      action.action_id WorkerOutcome.succeeded exit_status now_ms (some action.plan_hash)
resume_completed s (ActionRecord.finalization action) exit_status now_ms =
    finished
      (record s {
        phase = ControllerPhase.finalizing;
        finalization =
            some (record action {
              lifecycle = ActionLifecycle.dispatched;
              terminal_after_stop = none;
            });
      })
      action.action_id WorkerOutcome.succeeded exit_status now_ms (some action.plan_hash)

-- `terminal`: the record that the acknowledged cancellation leaves.
abbrev pub with_result : ActionRecord → ActionLifecycle → Option ℕ → ActionRecord
with_result (ActionRecord.probe a) l e = ActionRecord.probe (ended_probe a l e)
with_result (ActionRecord.application a) l e = ActionRecord.application (ended_application a l e)
with_result (ActionRecord.planning a) l e =
    ActionRecord.planning (record a { lifecycle = l; exit_status = e })
with_result (ActionRecord.preparation a) l e = ActionRecord.preparation (ended_preparation a l e)
with_result (ActionRecord.finalization a) l e = ActionRecord.finalization (ended_finalization a l e)

abbrev pub after_stop : ActionRecord → Option ActionLifecycle
after_stop (ActionRecord.probe a) = a.terminal_after_stop
after_stop (ActionRecord.application a) = a.terminal_after_stop
after_stop (ActionRecord.planning a) = none
after_stop (ActionRecord.preparation a) = a.terminal_after_stop
after_stop (ActionRecord.finalization a) = a.terminal_after_stop

abbrev pub is_preparation : ActionRecord → Bool
is_preparation (ActionRecord.preparation a) = true
is_preparation _ = false

-- The failed case: a preparation also leaves its phase for discovery.
unfoldable pub place_unfinished : State → ActionRecord → State
unfolding place_failed
place_unfinished s (ActionRecord.preparation a) =
    record (place_failed s (ActionRecord.preparation a)) { phase = ControllerPhase.discover_fast }
place_unfinished s terminal = place_failed s terminal

-- The cancelled case: the action is gone, and a preparation's plan is discarded.
unfoldable pub place_cancelled : State → ActionRecord → State × List Effect
place_cancelled s (ActionRecord.probe a) =
    (record s { phase = ControllerPhase.discover_fast; probe = none }, [])
place_cancelled s (ActionRecord.application a) =
    (record s { phase = ControllerPhase.discover_fast; application = none }, [])
place_cancelled s (ActionRecord.planning a) = (s, [])
place_cancelled s (ActionRecord.preparation a) = (
  record s {
    phase = ControllerPhase.discover_fast;
    preparation_state = PreparationState.prepare_idle;
    preparation = none;
  },
  maybe s.planning [] (λ planning. discard_plan planning ∷ []),
)
place_cancelled s (ActionRecord.finalization a) = (
  record s { phase = ControllerPhase.discover_fast; finalization = none; verify_since_ms = none },
  [],
)

-- `_cancellation_acknowledged` for a stopping action and a terminal lifecycle.
unfoldable pub end_stopping :
    State → ActionRecord → WorkerCancellationAcknowledged → Result Decision
unfolding resume_completed place_unfinished place_cancelled
end_stopping s action event =
    let lifecycle = event.terminal_lifecycle in
    let now_ms = event.metadata.processed_at_ms in
    if lifecycle == ActionLifecycle.completed
    then resume_completed s action (some event.exit_status) now_ms
    else (let terminal = with_result action lifecycle (some event.exit_status) in
        do
          s1 ← append_tombstone s terminal lifecycle
          (if elem lifecycle failed_lifecycles
              then (if is_some (after_stop action) || is_preparation action
                  then schedule (place_unfinished s1 terminal) (now_ms + health_poll_ms) []
                  else schedule (place_unfinished s1 terminal) now_ms
                      (request_observation WakeReason.worker_completed ∷ []))
              else (let (s2, effects) = place_cancelled s1 action in
                  schedule s2 now_ms
                    (effects ++ request_observation WakeReason.worker_completed ∷ []))))

-- `_cancellation_acknowledged`
unfoldable pub cancellation_acknowledged : State → WorkerCancellationAcknowledged → Result Decision
unfolding end_stopping
cancellation_acknowledged s event = maybe (action_for_id s event.action_id) (no_op s) λ action.
    if is_planning action || record_lifecycle action != ActionLifecycle.stopping
    then no_op s
    else end_stopping s action event
