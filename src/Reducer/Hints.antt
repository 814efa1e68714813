-- ===== src/Reducer/Hints.antt =====
-- `_drm_hint`, `_controller_started` and `_boot_changed` of
-- .local/lib/monitor-controller/monitor_controller/reducer.py.
use desktop_config.Prelude.{
  Bool, List, Result, [], elem, false, if◌then◌else◌, is_some, leb, maybe, none, ok, some, true, ℕ,
  ◌!=◌, ◌&&◌, ◌++◌, ◌+◌, ◌==◌, ◌>>=◌, ◌||◌, ◌∷◌,
}
use desktop_config.Model.Action.{ActionRecord, PreparationAction}
use desktop_config.Model.Effect.{Decision, Effect}
use desktop_config.Model.Enums.{
  ActionLifecycle, ControllerPhase, PlanningState, PreparationState, WakeReason,
  controller_phase_eq, preparation_state_eq,
}
use desktop_config.Model.Event.{BootChanged, ControllerStarted, DrmHintReceived}
use desktop_config.Model.Identity.{BootId, boot_id_eq}
use desktop_config.Model.State.{State}
use desktop_config.Reducer.Epochs.{discard_planning}
use desktop_config.Reducer.Outcome.{decision, no_op, request_observation, schedule}
use desktop_config.Reducer.Tombstones.{append_tombstone}

-- The two admissions that a DRM hint cancels.
unfoldable pub drop_pending_preparation : State → Result (State × List Effect)
drop_pending_preparation s =
    if s.preparation_state == PreparationState.prepare_pending
    then maybe s.preparation (ok (s, [])) (λ action. do
      s1 ← append_tombstone s (ActionRecord.preparation action) ActionLifecycle.cancelled
      discard_planning
          (record s1 { preparation_state = PreparationState.prepare_idle; preparation = none }))
    else ok (s, [])

unfoldable pub drop_pending_finalization : State → Result State
drop_pending_finalization s =
    if s.phase == ControllerPhase.finalize_pending
    then maybe s.finalization (ok s) (λ action. do
      s1 ← append_tombstone s (ActionRecord.finalization action) ActionLifecycle.cancelled
      ok (record s1 { finalization = none }))
    else ok s

-- The phases that a hint ends.
unfoldable pub rediscover : State → State
rediscover s =
    if elem s.phase (
      ControllerPhase.quiescent ∷ ControllerPhase.verifying ∷ ControllerPhase.unsupported
      ∷ ControllerPhase.finalize_pending ∷ [])
    then record s { phase = ControllerPhase.discover_fast }
    else s

-- `_drm_hint`
unfoldable pub drm_hint : State → DrmHintReceived → Result Decision
unfolding drop_pending_preparation drop_pending_finalization rediscover
drm_hint s event = if leb event.event_generation.value s.event_generation.value then no_op s else do
  (s1, effects) ← drop_pending_preparation (record s {
    event_generation = event.event_generation;
    last_drm_at_ms = some event.metadata.processed_at_ms;
    verify_since_ms = none;
    unplug_proof = none;
  })
  s2 ← drop_pending_finalization s1
  schedule (rediscover s2) event.metadata.processed_at_ms
      (effects ++ request_observation WakeReason.drm_hint ∷ [])

-- A worker that outlived the controller is waited for.
abbrev pub worker_survives : State → Bool
worker_survives s =
    s.phase == ControllerPhase.probing && is_some s.probe
    || s.phase == ControllerPhase.applying && is_some s.application
    || elem s.preparation_state
        (PreparationState.preparing ∷ PreparationState.prepare_stopping ∷ [])
      && is_some s.preparation
    || elem s.phase (ControllerPhase.finalizing ∷ ControllerPhase.finalize_stopping ∷ [])
      && is_some s.finalization

-- `_controller_started` past the cancelled preparation.
unfoldable pub resume_controller : State → ℕ → Result Decision
resume_controller s now_ms =
    if s.phase == ControllerPhase.finalize_failed && is_some s.finalization
    then schedule
        (record s {
          phase = ControllerPhase.discover_fast;
          finalization = none;
          verify_since_ms = none;
        })
        now_ms (request_observation WakeReason.startup ∷ [])
    else (let s1 =
          if s.phase == ControllerPhase.verifying then record s { verify_since_ms = none } else s in
        if worker_survives s1
        then schedule s1 (now_ms + 1000) []
        else schedule s1 now_ms (request_observation WakeReason.startup ∷ []))

-- `_controller_started` with an admitted preparation.
unfoldable pub restart_preparation : State → PreparationAction → ℕ → Result Decision
restart_preparation s action now_ms = do
  s1 ← append_tombstone s (ActionRecord.preparation action) ActionLifecycle.cancelled
  (s2, discard_effects) ← discard_planning (record s1 {
    phase = ControllerPhase.discover_fast;
    preparation_state = PreparationState.prepare_idle;
    preparation = none;
    verify_since_ms = none;
  })
  schedule s2 now_ms (discard_effects ++ request_observation WakeReason.startup ∷ [])

-- `_controller_started`
unfoldable pub controller_started : State → ControllerStarted → Result Decision
unfolding restart_preparation resume_controller
controller_started s event =
    let s1 = record s { controller_instance = event.controller_instance } in
    let now_ms = event.metadata.processed_at_ms in
    if s1.preparation_state == PreparationState.prepare_pending
    then maybe s1.preparation (resume_controller s1 now_ms)
        (λ action. restart_preparation s1 action now_ms)
    else resume_controller s1 now_ms

-- The `replace` of `_boot_changed`.
unfoldable pub forget_boot : State → BootId → ℕ → State
forget_boot s boot_id now_ms = record s {
  boot_id = boot_id;
  phase = ControllerPhase.recovering;
  planning_state = PlanningState.plan_idle;
  preparation_state = PreparationState.prepare_idle;
  latest_observation = none;
  physical_token = none;
  candidate = none;
  aggressive_deadline_ms = none;
  next_timer_ms = some now_ms;
  backoff_index = 0;
  verify_since_ms = none;
  last_drm_at_ms = none;
  stable_x_profile = none;
  desktop_finalized_profile = none;
  desktop_finalization_required = true;
  external_intent = false;
  baseline_adoption = false;
  attempted_probe_keys = [];
  probe = none;
  attempted_application_keys = [];
  immediate_retry_used_profiles = [];
  application = none;
  planning = none;
  preparation = none;
  finalization = none;
  unknown_key = none;
  unknown_since_ms = none;
  unplug_proof = none;
  observation_generation = record { value = 0 };
  event_generation = record { value = 0 };
  recovery_units = [];
}

-- `_boot_changed`
unfoldable pub boot_changed : State → BootChanged → Result Decision
unfolding forget_boot
boot_changed s event =
    if event.previous_boot_id != s.boot_id
    then no_op s
    else decision (forget_boot s event.metadata.boot_id event.metadata.processed_at_ms) (
        request_observation WakeReason.recovery
        ∷ Effect.schedule (record { deadline_ms = event.metadata.processed_at_ms })
        ∷ [])
