-- ===== src/Reducer/Observe/Invalid.antt =====
-- `_observe` of .local/lib/monitor-controller/monitor_controller/reducer.py
-- for an invalid sample.
use desktop_config.Prelude.{
  List, Option, Result, [], elem, if◌then◌else◌, maybe, none, ok, option_eq, some, string_eq, ◌&&◌,
  ◌++◌, ◌+◌, ◌==◌, ◌>>=◌, ◌||◌, ◌∷◌,
}
use desktop_config.Model.Action.{
  ActionRecord, ApplicationAction, FinalizationAction, PreparationAction, ProbeAction, record_id,
}
use desktop_config.Model.Effect.{Decision, Effect}
use desktop_config.Model.Enums.{
  ActionLifecycle, ControllerPhase, PreparationState, ProfileScope, action_lifecycle_eq,
  controller_phase_eq, observation_invalidity_reason_eq, preparation_state_eq, profile_scope_eq,
}
use desktop_config.Model.Identity.{observation_key_eq, physical_token_eq}
use desktop_config.Model.Observation.{CanonicalObservation, has_external_hardware}
use desktop_config.Model.State.{State}
use desktop_config.Reducer.Classify.{internal_candidate}
use desktop_config.Reducer.Epochs.{discard_planning}
use desktop_config.Reducer.Outcome.{or_else, schedule, stop_action}
use desktop_config.Reducer.Tombstones.{append_tombstone, stopping_mutator}

-- The four blocks that cancel an admission on an invalid sample.
unfoldable pub cancel_probe : State → Result State
cancel_probe s = maybe s.probe (ok s) λ (action : ProbeAction).
    if action.lifecycle == ActionLifecycle.admitted
    then (do
      s1 ← append_tombstone s (ActionRecord.probe action) ActionLifecycle.cancelled
      ok (record s1 { phase = ControllerPhase.discover_fast; probe = none }))
    else ok s

unfoldable pub cancel_application : State → Result State
cancel_application s = maybe s.application (ok s) λ (action : ApplicationAction).
    if action.lifecycle == ActionLifecycle.admitted
    then (do
      s1 ← append_tombstone s (ActionRecord.application action) ActionLifecycle.cancelled
      ok (record s1 { phase = ControllerPhase.discover_fast; application = none }))
    else ok s

unfoldable pub cancel_preparation : State → Result (State × List Effect)
cancel_preparation s = maybe s.preparation (ok (s, [])) λ (action : PreparationAction).
    if action.lifecycle == ActionLifecycle.admitted
    then (do
      s1 ← append_tombstone s (ActionRecord.preparation action) ActionLifecycle.cancelled
      discard_planning (record s1 {
        phase = ControllerPhase.discover_fast;
        preparation_state = PreparationState.prepare_idle;
        preparation = none;
      }))
    else ok (s, [])

unfoldable pub cancel_finalization : State → Result State
cancel_finalization s = maybe s.finalization (ok s) λ (action : FinalizationAction).
    if action.lifecycle == ActionLifecycle.admitted
    then (do
      s1 ← append_tombstone s (ActionRecord.finalization action) ActionLifecycle.cancelled
      ok (record s1 { phase = ControllerPhase.discover_fast; finalization = none }))
    else ok s

abbrev pub stop_effects : State → List Effect
stop_effects s = maybe (stopping_mutator s) [] (λ a. stop_action (record_id a) ∷ [])

-- The application, if it loads an internal-only profile and `lifecycles` has its lifecycle.
abbrev pub internal_application : State → List ActionLifecycle → Option ApplicationAction
internal_application s lifecycles = maybe s.application none λ (action : ApplicationAction).
    if action.scope == ProfileScope.internal_only && elem action.lifecycle lifecycles
    then some action
    else none

-- The end of the block for an invalid sample.
unfoldable pub conclude_invalid : State → CanonicalObservation → List Effect → Result Decision
conclude_invalid s observation effects =
    let now_ms = observation.observed_at_ms in
    or_else
      (if has_external_hardware observation
        then maybe
            (internal_application s (ActionLifecycle.dispatched ∷ ActionLifecycle.stopping ∷ []))
            none
            (λ action. some (
              schedule
                (record s {
                  application = some (record action { lifecycle = ActionLifecycle.stopping });
                })
                (now_ms + 1000) (effects ++ stop_action action.action_id ∷ [])))
        else none)
      (let s1 =
          if elem s.phase (
            ControllerPhase.probing ∷ ControllerPhase.probe_failed ∷ ControllerPhase.applying
            ∷ ControllerPhase.apply_failed ∷ ControllerPhase.finalizing
            ∷ ControllerPhase.finalize_stopping ∷ ControllerPhase.finalize_failed ∷ [])
          then s
          else record s { phase = ControllerPhase.discover_fast } in
        schedule s1 (now_ms + 1000) (effects ++ stop_effects s1))

-- The block for an invalid sample.
unfoldable pub observe_invalid : State → CanonicalObservation → Result Decision
unfolding conclude_invalid
observe_invalid s observation =
    let s0 = record s {
      external_intent = s.external_intent || has_external_hardware observation;
      candidate =
          if has_external_hardware observation && internal_candidate s then none else s.candidate;
      unplug_proof = none;
      verify_since_ms = none;
    } in
    do
      s1 ← cancel_probe s0
      s2 ← cancel_application s1
      (s3, effects) ← cancel_preparation s2
      s4 ← cancel_finalization s3
      conclude_invalid s4 observation effects
