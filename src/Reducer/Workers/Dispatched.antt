-- ===== src/Reducer/Workers/Dispatched.antt =====
-- `_dispatched` of .local/lib/monitor-controller/monitor_controller/reducer.py
use desktop_config.Prelude.{
  Result, [], add, if◌then◌else◌, maybe, none, option_eq, some, ℕ, ◌!=◌, ◌>>=◌, ◌||◌,
}
use desktop_config.Model.Action.{
  ApplicationAction, FinalizationAction, PreparationAction, ProbeAction,
}
use desktop_config.Model.Effect.{Decision}
use desktop_config.Model.Enums.{
  ActionLifecycle, ControllerPhase, PreparationState, action_lifecycle_eq, controller_phase_eq,
  preparation_state_eq, worker_outcome_eq,
}
use desktop_config.Model.Identity.{
  ActionId, WorkerUnit, action_id_eq, application_attempt_key_eq, plan_hash_eq,
  probe_attempt_key_eq,
}
use desktop_config.Model.State.{State}
use desktop_config.Reducer.Outcome.{decision, no_op}
use desktop_config.Reducer.Timing.{worker_deadline_ms}
use desktop_config.Reducer.Workers.Kinds.{by_kind}

unfoldable pub dispatched_probe : State → ActionId → WorkerUnit → ℕ → Result Decision
dispatched_probe s action_id unit dispatched_at_ms =
    maybe s.probe (no_op s) λ (action : ProbeAction).
      if s.phase != ControllerPhase.probe_pending
        || action.action_id != action_id
        || action.lifecycle != ActionLifecycle.admitted
      then no_op s
      else do
        deadline_ms ← worker_deadline_ms action_id dispatched_at_ms
        decision
            (record s {
              phase = ControllerPhase.probing;
              probe = some (record action {
                lifecycle = ActionLifecycle.dispatched;
                unit = some unit;
                worker_deadline_ms = some deadline_ms;
              });
              attempted_probe_keys = add s.attempted_probe_keys action.key;
              next_timer_ms = none;
            })
            []

unfoldable pub dispatched_application : State → ActionId → WorkerUnit → ℕ → Result Decision
dispatched_application s action_id unit dispatched_at_ms =
    maybe s.application (no_op s) λ (action : ApplicationAction).
      if s.phase != ControllerPhase.apply_pending
        || action.action_id != action_id
        || action.lifecycle != ActionLifecycle.admitted
      then no_op s
      else do
        deadline_ms ← worker_deadline_ms action_id dispatched_at_ms
        decision
            (record s {
              phase = ControllerPhase.applying;
              application = some (record action {
                lifecycle = ActionLifecycle.dispatched;
                unit = some unit;
                worker_deadline_ms = some deadline_ms;
              });
              attempted_application_keys = add s.attempted_application_keys action.key;
              next_timer_ms = none;
            })
            []

unfoldable pub dispatched_preparation : State → ActionId → WorkerUnit → ℕ → Result Decision
dispatched_preparation s action_id unit dispatched_at_ms =
    maybe s.preparation (no_op s) λ (action : PreparationAction).
      if s.preparation_state != PreparationState.prepare_pending
        || action.action_id != action_id
        || action.lifecycle != ActionLifecycle.admitted
      then no_op s
      else do
        deadline_ms ← worker_deadline_ms action_id dispatched_at_ms
        decision
            (record s {
              preparation_state = PreparationState.preparing;
              preparation = some (record action {
                lifecycle = ActionLifecycle.dispatched;
                unit = some unit;
                worker_deadline_ms = some deadline_ms;
              });
            })
            []

unfoldable pub dispatched_finalization : State → ActionId → WorkerUnit → ℕ → Result Decision
dispatched_finalization s action_id unit dispatched_at_ms =
    maybe s.finalization (no_op s) λ (action : FinalizationAction).
      if s.phase != ControllerPhase.finalize_pending
        || action.action_id != action_id
        || action.lifecycle != ActionLifecycle.admitted
      then no_op s
      else do
        deadline_ms ← worker_deadline_ms action_id dispatched_at_ms
        decision
            (record s {
              phase = ControllerPhase.finalizing;
              finalization = some (record action {
                lifecycle = ActionLifecycle.dispatched;
                unit = some unit;
                worker_deadline_ms = some deadline_ms;
              });
            })
            []

-- `_dispatched`
unfoldable pub dispatched : State → ActionId → WorkerUnit → ℕ → Result Decision
unfolding dispatched_probe dispatched_application dispatched_preparation dispatched_finalization
dispatched s action_id unit dispatched_at_ms =
    by_kind action_id.kind (no_op s) (dispatched_probe s action_id unit dispatched_at_ms)
      (dispatched_application s action_id unit dispatched_at_ms)
      (dispatched_preparation s action_id unit dispatched_at_ms)
      (dispatched_finalization s action_id unit dispatched_at_ms)
