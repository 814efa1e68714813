-- ===== src/Reducer/Workers/Display.antt =====
-- `_finished` of .local/lib/monitor-controller/monitor_controller/reducer.py
-- for probes and applications.
use desktop_config.Prelude.{
  Option, Result, [], if◌then◌else◌, maybe, none, option_eq, some, ℕ, ◌!=◌, ◌+◌, ◌==◌, ◌>>=◌, ◌||◌,
  ◌∷◌,
}
use desktop_config.Model.Action.{ActionRecord, ApplicationAction, ProbeAction}
use desktop_config.Model.Effect.{Decision}
use desktop_config.Model.Enums.{
  ActionLifecycle, ControllerPhase, WakeReason, WorkerOutcome, action_lifecycle_eq,
  controller_phase_eq, preparation_state_eq, worker_outcome_eq,
}
use desktop_config.Model.Identity.{
  ActionId, action_id_eq, application_attempt_key_eq, plan_hash_eq, probe_attempt_key_eq,
}
use desktop_config.Model.State.{State}
use desktop_config.Reducer.Outcome.{no_op, request_observation, schedule, stop_action}
use desktop_config.Reducer.Timing.{health_poll_ms}
use desktop_config.Reducer.Tombstones.{append_tombstone}

-- The lifecycle of a result that is no success.
abbrev pub unsuccessful : WorkerOutcome → ActionLifecycle
unsuccessful outcome =
    if outcome == WorkerOutcome.cancelled then ActionLifecycle.cancelled else ActionLifecycle.failed

-- `_schedule(state, now_ms, RequestObservation(WakeReason.WORKER_COMPLETED))`
abbrev pub observe_again : State → ℕ → Result Decision
observe_again s now_ms = schedule s now_ms (request_observation WakeReason.worker_completed ∷ [])

-- A result while the worker is being stopped proves no inactivity: it is asked to stop again.
abbrev pub stop_again : State → ActionId → ℕ → Result Decision
stop_again s action_id now_ms = schedule s (now_ms + 1000) (stop_action action_id ∷ [])

-- The terminal record of a probe worker's result.
abbrev pub ended_probe : ProbeAction → ActionLifecycle → Option ℕ → ProbeAction
ended_probe action lifecycle exit_status = record action {
  lifecycle = lifecycle;
  exit_status = exit_status;
  terminal_after_stop = none;
}

unfoldable pub close_probe : State → ProbeAction → WorkerOutcome → Option ℕ → ℕ → Result Decision
close_probe s action outcome exit_status now_ms =
    if outcome == WorkerOutcome.succeeded
    then (do
      s1 ←
          append_tombstone s
            (ActionRecord.probe (ended_probe action ActionLifecycle.completed exit_status))
            ActionLifecycle.completed
      observe_again (record s1 { phase = ControllerPhase.discover_fast; probe = none }) now_ms)
    else (let lifecycle = unsuccessful outcome in
        let ended = ended_probe action lifecycle exit_status in
        do
          s1 ← append_tombstone s (ActionRecord.probe ended) lifecycle
          (if lifecycle == ActionLifecycle.cancelled
              then observe_again (record s1 { phase = ControllerPhase.discover_fast; probe = none })
                  now_ms
              else schedule (record s1 { phase = ControllerPhase.probe_failed; probe = some ended })
                  (now_ms + health_poll_ms) []))

unfoldable pub finished_probe : State → ActionId → WorkerOutcome → Option ℕ → ℕ → Result Decision
unfolding close_probe
finished_probe s action_id outcome exit_status now_ms =
    maybe s.probe (no_op s) λ (action : ProbeAction).
      if action.action_id != action_id || s.phase != ControllerPhase.probing
      then no_op s
      else if action.lifecycle == ActionLifecycle.stopping
      then stop_again s action.action_id now_ms
      else close_probe s action outcome exit_status now_ms

-- The terminal record of a application worker's result.
abbrev pub ended_application : ApplicationAction → ActionLifecycle → Option ℕ → ApplicationAction
ended_application action lifecycle exit_status = record action {
  lifecycle = lifecycle;
  exit_status = exit_status;
  terminal_after_stop = none;
}

unfoldable pub close_application :
    State → ApplicationAction → WorkerOutcome → Option ℕ → ℕ → Result Decision
close_application s action outcome exit_status now_ms =
    if outcome == WorkerOutcome.succeeded
    then (do
      s1 ←
          append_tombstone s
            (ActionRecord.application
              (ended_application action ActionLifecycle.completed exit_status))
            ActionLifecycle.completed
      observe_again
          (record s1 {
            phase = ControllerPhase.discover_fast;
            application = none;
            verify_since_ms = none;
          })
          now_ms)
    else (let lifecycle = unsuccessful outcome in
        let ended = ended_application action lifecycle exit_status in
        do
          s1 ← append_tombstone s (ActionRecord.application ended) lifecycle
          (if lifecycle == ActionLifecycle.cancelled
              then observe_again
                  (record s1 { phase = ControllerPhase.discover_fast; application = none }) now_ms
              else schedule
                  (record s1 { phase = ControllerPhase.apply_failed; application = some ended })
                  (now_ms + health_poll_ms) []))

unfoldable pub finished_application :
    State → ActionId → WorkerOutcome → Option ℕ → ℕ → Result Decision
unfolding close_application
finished_application s action_id outcome exit_status now_ms =
    maybe s.application (no_op s) λ (action : ApplicationAction).
      if action.action_id != action_id || s.phase != ControllerPhase.applying
      then no_op s
      else if action.lifecycle == ActionLifecycle.stopping
      then stop_again s action.action_id now_ms
      else close_application s action outcome exit_status now_ms
