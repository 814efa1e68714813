-- ===== src/Reducer/Epochs.antt =====
-- Discarding work, opening a new physical epoch and waiting, from
-- .local/lib/monitor-controller/monitor_controller/reducer.py.
use mathlib.Core.Option
use desktop_config.Prelude.{
  List, Option, Result, [], elem, if◌then◌else◌, is_none, ltb, maybe, min, none, not, ok, some, suc,
  zero, ℕ, ◌&&◌, ◌+◌, ◌-◌, ◌==◌, ◌>>=◌, ◌∷◌,
}
use desktop_config.Model.Action.{ActionRecord, PlanningAction, record_lifecycle}
use desktop_config.Model.Effect.{Decision, Effect}
use desktop_config.Model.Enums.{
  ActionLifecycle, ControllerPhase, PlanningState, PreparationState, action_lifecycle_eq,
  controller_phase_eq, terminal_action_lifecycles,
}
use desktop_config.Model.Observation.{CanonicalObservation}
use desktop_config.Model.State.{State}
use desktop_config.Reducer.Outcome.{schedule}
use desktop_config.Reducer.Timing.{
  aggressive_budget_ms, display_asleep_poll_ms, fast_delays_ms, slow_delays_ms,
}
use desktop_config.Reducer.Tombstones.{append_tombstone}

-- `_clear_proof`
abbrev pub clear_proof : State → State
clear_proof s = record s { verify_since_ms = none }

-- The tombstone that `_discard_planning` leaves of a planning action that has not ended.
unfoldable pub bury_planning : State → PlanningAction → Result State
bury_planning s planning =
    if elem planning.lifecycle terminal_action_lifecycles
    then ok s
    else append_tombstone s (ActionRecord.planning planning) ActionLifecycle.cancelled

abbrev pub discard_plan : PlanningAction → Effect
discard_plan planning =
    Effect.discard_plan (record { action_id = planning.action_id; plan_hash = planning.plan_hash })

abbrev pub without_planning : State → State
without_planning s = record s {
  planning_state = PlanningState.plan_idle;
  preparation_state = PreparationState.prepare_idle;
  planning = none;
  preparation = none;
}

-- `_discard_planning`
unfoldable pub discard_planning : State → Result (State × List Effect)
unfolding bury_planning
discard_planning s = maybe s.planning (ok (without_planning s, [])) λ planning. do
  s' ← bury_planning s planning
  ok (without_planning s', discard_plan planning ∷ [])

-- One round of the loop of `_reset_for_epoch` over the admitted actions.
unfoldable pub cancel_admitted : State → Option ActionRecord → Result State
cancel_admitted s action = maybe action (ok s) λ a.
    if record_lifecycle a == ActionLifecycle.admitted
    then append_tombstone s a ActionLifecycle.cancelled
    else ok s

-- The `replace` of `_reset_for_epoch`.
unfoldable pub open_epoch : State → CanonicalObservation → ℕ → State
open_epoch s observation now_ms = record s {
  phase = ControllerPhase.discover_fast;
  physical_epoch = s.physical_epoch + 1;
  physical_token = some observation.physical_token;
  reconcile_epoch = s.reconcile_epoch + 1;
  candidate = none;
  aggressive_deadline_ms = some (now_ms + aggressive_budget_ms);
  backoff_index = 0;
  verify_since_ms = none;
  stable_x_profile = none;
  attempted_probe_keys = [];
  probe = none;
  attempted_application_keys = [];
  immediate_retry_used_profiles = [];
  application = none;
  finalization = none;
  unknown_key = none;
  unknown_since_ms = none;
  unplug_proof = none;
  baseline_adoption =
      s.phase == ControllerPhase.recovering
      && is_none s.desktop_finalized_profile
      && not s.desktop_finalization_required;
}

-- `_reset_for_epoch`
unfoldable pub reset_for_epoch : State → CanonicalObservation → ℕ → Result (State × List Effect)
reset_for_epoch s observation now_ms = do
  (s1, discard_effects) ← discard_planning s
  s2 ← cancel_admitted s1 (Option.map ActionRecord.probe s1.probe)
  s3 ← cancel_admitted s2 (Option.map ActionRecord.application s1.application)
  s4 ← cancel_admitted s3 (Option.map ActionRecord.finalization s1.finalization)
  ok (open_epoch s4 observation now_ms, discard_effects)

-- `delays[index]`; the index is always within the tuple.
abbrev pub delay_at : List ℕ → ℕ → ℕ
delay_at [] i = 0
delay_at (d ∷ ds) zero = d
delay_at (d ∷ ds) (suc i) = delay_at ds i

-- The state and the delay of `_enter_wait`, once the deadline is known.
unfoldable pub back_off : State → ℕ → ℕ → State × ℕ
back_off s deadline now_ms =
    if ltb now_ms deadline
    then (let index =
          min (if s.phase == ControllerPhase.discover_fast then s.backoff_index else 0) 4 in
        (
          record s { phase = ControllerPhase.discover_fast; backoff_index = min (index + 1) 4 },
          min (delay_at fast_delays_ms index) (deadline - now_ms),
        ))
    else (let index = min (if s.phase == ControllerPhase.wait_slow then s.backoff_index else 0) 3 in
        (
          record s { phase = ControllerPhase.wait_slow; backoff_index = min (index + 1) 3 },
          delay_at slow_delays_ms index,
        ))

-- `_enter_wait`
unfoldable pub enter_wait : State → ℕ → Result Decision
enter_wait s now_ms =
    maybe s.aggressive_deadline_ms
      (let deadline = now_ms + aggressive_budget_ms in
        let (waiting, delay) =
          back_off
            (record (clear_proof s) { aggressive_deadline_ms = some deadline; backoff_index = 0 })
            deadline now_ms in
        schedule waiting (now_ms + delay) [])
      λ deadline.
        let (waiting, delay) = back_off (clear_proof s) deadline now_ms in
        schedule waiting (now_ms + delay) []

-- `_defer_while_asleep`
unfoldable pub defer_while_asleep : State → ℕ → Result Decision
defer_while_asleep s now_ms =
    schedule (record (clear_proof s) { phase = ControllerPhase.wait_slow })
      (now_ms + display_asleep_poll_ms) []
