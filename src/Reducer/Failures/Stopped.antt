-- ===== src/Reducer/Failures/Stopped.antt =====
-- `_stop_uncertain_mutator` of .local/lib/monitor-controller/monitor_controller/reducer.py
use desktop_config.Prelude.{Option, Result, [], if◌then◌else◌, maybe, none, some, ℕ, ◌+◌, ◌==◌, ◌∷◌}
use desktop_config.Model.Action.{ActionRecord, record_id, record_lifecycle}
use desktop_config.Model.Effect.{Decision}
use desktop_config.Model.Enums.{
  ActionLifecycle, ControllerPhase, PreparationState, action_lifecycle_eq,
}
use desktop_config.Model.State.{State}
use desktop_config.Reducer.Outcome.{schedule, stop_action}
use desktop_config.Reducer.Failures.Failed.{fail_action}

-- `terminal_after_stop` of the stopping record: the first reason to stop is kept.
abbrev pub stop_reason :
    ActionLifecycle → Option ActionLifecycle → ActionLifecycle → Option ActionLifecycle
stop_reason lifecycle prior terminal =
    if lifecycle == ActionLifecycle.stopping then prior else some terminal

-- The stopping states of `_stop_uncertain_mutator`, by the class of the action; `none` for a plan.
unfoldable pub place_stopping : State → ActionRecord → ActionLifecycle → Option State
place_stopping s (ActionRecord.planning action) terminal = none
place_stopping s (ActionRecord.probe action) terminal = some (record s {
  phase = ControllerPhase.probing;
  probe = some (record action {
    lifecycle = ActionLifecycle.stopping;
    terminal_after_stop = stop_reason action.lifecycle action.terminal_after_stop terminal;
  });
})
place_stopping s (ActionRecord.application action) terminal = some (record s {
  phase = ControllerPhase.applying;
  application = some (record action {
    lifecycle = ActionLifecycle.stopping;
    terminal_after_stop = stop_reason action.lifecycle action.terminal_after_stop terminal;
  });
})
place_stopping s (ActionRecord.preparation action) terminal = some (record s {
  phase = ControllerPhase.discover_fast;
  preparation_state = PreparationState.prepare_stopping;
  preparation = some (record action {
    lifecycle = ActionLifecycle.stopping;
    terminal_after_stop = stop_reason action.lifecycle action.terminal_after_stop terminal;
  });
  verify_since_ms = none;
})
place_stopping s (ActionRecord.finalization action) terminal = some (record s {
  phase = ControllerPhase.finalize_stopping;
  finalization = some (record action {
    lifecycle = ActionLifecycle.stopping;
    terminal_after_stop = stop_reason action.lifecycle action.terminal_after_stop terminal;
  });
  verify_since_ms = none;
})

-- `_stop_uncertain_mutator`
unfoldable pub stop_uncertain_mutator : State → ActionRecord → ActionLifecycle → ℕ → Result Decision
unfolding place_stopping
stop_uncertain_mutator s action terminal now_ms =
    maybe (place_stopping s action terminal) (fail_action s (record_id action) terminal now_ms)
      λ stopping. schedule stopping (now_ms + 1000) (
        if record_lifecycle action == ActionLifecycle.stopping
        then []
        else stop_action (record_id action) ∷ [])
