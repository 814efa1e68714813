-- ===== src/Reducer/Failures/Failed.antt =====
-- `_fail_action` and `_admission_dirtied` of
-- .local/lib/monitor-controller/monitor_controller/reducer.py
use desktop_config.Prelude.{
  List, Result, [], elem, if◌then◌else◌, leb, maybe, none, not, ok, some, ℕ, ◌!=◌, ◌++◌, ◌+◌, ◌>>=◌,
  ◌||◌, ◌∷◌,
}
use desktop_config.Model.Action.{ActionRecord, record_lifecycle, with_lifecycle}
use desktop_config.Model.Effect.{Decision, Effect}
use desktop_config.Model.Enums.{
  ActionLifecycle, ControllerPhase, PlanningState, PreparationState, WakeReason,
  action_lifecycle_eq,
}
use desktop_config.Model.Event.{AdmissionDirtied}
use desktop_config.Model.Identity.{ActionId}
use desktop_config.Model.State.{State}
use desktop_config.Reducer.Epochs.{discard_planning}
use desktop_config.Reducer.Outcome.{no_op, request_observation, schedule}
use desktop_config.Reducer.Timing.{health_poll_ms}
use desktop_config.Reducer.Tombstones.{action_for_id, append_tombstone}

-- The failure states of `_fail_action`, by the class of the failed action.
unfoldable pub place_failed : State → ActionRecord → State
place_failed s (ActionRecord.planning failed) = record s {
  planning_state = PlanningState.plan_failed;
  planning = some failed;
}
place_failed s (ActionRecord.probe failed) = record s {
  phase = ControllerPhase.probe_failed;
  probe = some failed;
}
place_failed s (ActionRecord.application failed) = record s {
  phase = ControllerPhase.apply_failed;
  application = some failed;
}
place_failed s (ActionRecord.preparation failed) = record s {
  preparation_state = PreparationState.prepare_failed;
  preparation = some failed;
}
place_failed s (ActionRecord.finalization failed) = record s {
  phase = ControllerPhase.finalize_failed;
  finalization = some failed;
}

-- `_fail_action`
unfoldable pub fail_action : State → ActionId → ActionLifecycle → ℕ → Result Decision
unfolding place_failed
fail_action s action_id lifecycle now_ms = maybe (action_for_id s action_id) (no_op s) λ action.
    if not (
      elem (record_lifecycle action)
        (ActionLifecycle.admitted ∷ ActionLifecycle.dispatched ∷ ActionLifecycle.stopping ∷ []))
    then no_op s
    else do
      let failed = with_lifecycle action lifecycle
      s1 ← append_tombstone s failed lifecycle
      schedule (place_failed s1 failed) (now_ms + health_poll_ms) []

-- What `_admission_dirtied` does to the admission, by its class.
unfoldable pub withdraw_admission : State → ActionRecord → Result (State × List Effect)
withdraw_admission s (ActionRecord.preparation action) = do
  s1 ← append_tombstone s (ActionRecord.preparation action) ActionLifecycle.cancelled
  discard_planning (record s1 {
    phase = ControllerPhase.discover_fast;
    preparation_state = PreparationState.prepare_idle;
    preparation = none;
  })
withdraw_admission s (ActionRecord.finalization action) = do
  s1 ← append_tombstone s (ActionRecord.finalization action) ActionLifecycle.cancelled
  ok (record s1 { phase = ControllerPhase.discover_fast; finalization = none }, [])
withdraw_admission s _ = ok (s, [])

-- `_admission_dirtied`
unfoldable pub admission_dirtied : State → AdmissionDirtied → Result Decision
unfolding withdraw_admission
admission_dirtied s event = maybe (action_for_id s event.action_id) (no_op s) λ action.
    if record_lifecycle action != ActionLifecycle.admitted
      || leb event.event_generation.value s.event_generation.value
    then no_op s
    else do
      (s1, effects) ←
          withdraw_admission
            (record s {
              event_generation = event.event_generation;
              last_drm_at_ms = some event.metadata.processed_at_ms;
              verify_since_ms = none;
              unplug_proof = none;
            })
            action
      schedule s1 event.metadata.processed_at_ms
          (effects ++ request_observation WakeReason.dirty_admission ∷ [])
