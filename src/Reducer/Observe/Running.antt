-- ===== src/Reducer/Observe/Running.antt =====
-- `_observe` of .local/lib/monitor-controller/monitor_controller/reducer.py
-- from the running workers on, and as a whole.
use desktop_config.Prelude.{
  Bool, List, Option, Result, [], false, if◌then◌else◌, is_some, maybe, none, not, option_eq, some,
  string_eq, true, ℕ, ◌!=◌, ◌&&◌, ◌++◌, ◌+◌, ◌==◌, ◌>>=◌, ◌||◌, ◌∷◌,
}
use desktop_config.Model.Action.{ActionRecord, FinalizationAction, PreparationAction, record_id}
use desktop_config.Model.Effect.{Decision, Effect}
use desktop_config.Model.Enums.{
  ActionLifecycle, ControllerPhase, PreparationState, action_lifecycle_eq, controller_phase_eq,
  observation_invalidity_reason_eq, preparation_state_eq, profile_scope_eq,
}
use desktop_config.Model.Identity.{observation_key_eq, physical_token_eq}
use desktop_config.Model.Observation.{CanonicalObservation, has_external_hardware, nonempty, valid}
use desktop_config.Model.State.{State}
use desktop_config.Reducer.Classify.{classify_observation}
use desktop_config.Reducer.Epochs.{discard_planning, reset_for_epoch}
use desktop_config.Reducer.Outcome.{decision, no_op, or_else, quiesce, schedule, stop_action, ◌<|>◌}
use desktop_config.Reducer.Pending.{same_exact_finalization}
use desktop_config.Reducer.Targets.{
  ObservationStatus, preparation_observation_status, reset_application_recovery,
}
use desktop_config.Reducer.Timing.{aggressive_budget_ms, health_poll_ms}
use desktop_config.Reducer.Tombstones.{append_tombstone, stopping_mutator}
use desktop_config.Reducer.Observe.Recorded.{outdated, record_observation}
use desktop_config.Reducer.Observe.Invalid.{internal_application, observe_invalid}
use desktop_config.Reducer.Observe.Stale.{
  fail_finalization_result, stop_finalization, stop_preparation, stop_stale_work,
}

-- A running probe or application is left to end.
unfoldable pub await_display_worker : State → ℕ → List Effect → Option (Result Decision)
await_display_worker s now_ms effects =
    if s.phase == ControllerPhase.probing && is_some s.probe
      || s.phase == ControllerPhase.applying && is_some s.application
    then some (schedule s (now_ms + 1000) effects)
    else none

-- A finalization that the same exact evidence completes.
unfoldable pub complete_finalization : State → FinalizationAction → List Effect → Result Decision
complete_finalization s action effects = do
  s1 ← append_tombstone s (ActionRecord.finalization action) ActionLifecycle.completed
  (s2, discard_effects) ← discard_planning s1
  quiesce
      (record (reset_application_recovery s2 action.profile) {
        stable_x_profile = some action.profile;
        desktop_finalized_profile = some action.profile;
        desktop_finalization_required = false;
        finalization = none;
      })
      (effects ++ discard_effects)

-- The block for a running finalization.
unfoldable pub observe_finalizing :
    State → CanonicalObservation → List Effect → FinalizationAction → Result Decision
observe_finalizing s observation effects action =
    let now_ms = observation.observed_at_ms in
    if action.lifecycle == ActionLifecycle.result_pending
    then (if same_exact_finalization s observation
        then complete_finalization s action effects
        else do
          s1 ← fail_finalization_result s action
          schedule s1 (now_ms + health_poll_ms) effects)
    else if same_exact_finalization s observation
    then schedule s (now_ms + 1000) effects
    else stop_finalization s action now_ms effects

abbrev pub verifying_since : State → ℕ → State
verifying_since s now_ms = record s {
  phase = ControllerPhase.verifying;
  verify_since_ms = maybe s.verify_since_ms (some now_ms) (λ since. some since);
}

-- The end of `_observe`: classification, after the effects of a new epoch.
unfoldable pub conclude_observe : State → CanonicalObservation → List Effect → Result Decision
conclude_observe s observation effects =
    if not (nonempty effects) then classify_observation s observation else do
      result ← classify_observation s observation
      decision result.state (effects ++ result.effects)

abbrev pub is_exact : Option ObservationStatus → Bool
is_exact (some ObservationStatus.exact) = true
is_exact _ = false

abbrev pub is_uncertain : Option ObservationStatus → Bool
is_uncertain (some ObservationStatus.identity_uncertain) = true
is_uncertain _ = false

-- A preparation's result, with its evidence exact or contradicted.
unfoldable pub observe_preparation_result :
    State → CanonicalObservation → List Effect → PreparationAction → Bool → Result Decision
unfolding conclude_observe
observe_preparation_result s observation effects action matched =
    let now_ms = observation.observed_at_ms in
    if matched
    then (do
      let completed = record action { lifecycle = ActionLifecycle.completed }
      s1 ← append_tombstone s (ActionRecord.preparation completed) ActionLifecycle.completed
      conclude_observe
          (record (verifying_since s1 now_ms) {
            preparation_state = PreparationState.prepared;
            preparation = some completed;
          })
          observation effects)
    else do
      let failed = record action { lifecycle = ActionLifecycle.failed }
      s1 ← append_tombstone s (ActionRecord.preparation failed) ActionLifecycle.failed
      schedule
          (record s1 {
            preparation_state = PreparationState.prepare_failed;
            preparation = some failed;
            verify_since_ms = none;
          })
          (now_ms + health_poll_ms) effects

-- The block for a running preparation.
unfoldable pub observe_preparing :
    State → CanonicalObservation → List Effect → PreparationAction → Result Decision
unfolding observe_preparation_result
observe_preparing s observation effects action =
    let now_ms = observation.observed_at_ms in
    let status = preparation_observation_status s observation action in
    if is_uncertain status
    then schedule (record s { phase = ControllerPhase.discover_fast; verify_since_ms = none })
        (now_ms + 1000) effects
    else if action.lifecycle == ActionLifecycle.result_pending
    then observe_preparation_result s observation effects action (is_exact status)
    else if not (is_exact status)
    then stop_preparation s action now_ms effects
    else schedule (verifying_since s now_ms) (now_ms + 1000) effects

-- `_observe` from the running workers on.
unfoldable pub observe_running : State → CanonicalObservation → List Effect → Result Decision
unfolding await_display_worker observe_finalizing observe_preparing conclude_observe
observe_running s observation effects =
    or_else
      (await_display_worker s observation.observed_at_ms effects
        <|> (if s.phase == ControllerPhase.finalizing
            then maybe s.finalization none (λ a. some (observe_finalizing s observation effects a))
            else none)
        <|> (if s.preparation_state == PreparationState.preparing
            then maybe s.preparation none (λ a. some (observe_preparing s observation effects a))
            else none))
      (conclude_observe s observation effects)

-- `WAIT_SLOW` goes back to fast discovery on new evidence.
abbrev pub hasten : State → Option CanonicalObservation → CanonicalObservation → State
hasten s prior observation =
    if s.phase == ControllerPhase.wait_slow
      && maybe prior false
          (λ (p : CanonicalObservation). p.observation_key != observation.observation_key)
    then record s {
      phase = ControllerPhase.discover_fast;
      aggressive_deadline_ms = some (observation.observed_at_ms + aggressive_budget_ms);
      backoff_index = 0;
    }
    else s

-- `_observe` from the change of the physical token on.
unfoldable pub observe_topology :
    State → Option CanonicalObservation → CanonicalObservation → Result Decision
unfolding stop_stale_work observe_running
observe_topology s prior observation =
    let now_ms = observation.observed_at_ms in
    if s.physical_token != some observation.physical_token
    then or_else (stop_stale_work s now_ms) (do
      (s1, effects) ← reset_for_epoch s observation now_ms
      observe_running s1 observation effects)
    else observe_running (hasten s prior observation) observation []

-- The block for a valid sample.
unfoldable pub observe_valid :
    State → Option CanonicalObservation → CanonicalObservation → Result Decision
unfolding observe_topology
observe_valid s prior observation =
    let now_ms = observation.observed_at_ms in
    or_else
      ((if has_external_hardware observation
          then maybe (internal_application s (ActionLifecycle.dispatched ∷ [])) none (λ action.
            some (
              schedule
                (record s {
                  phase = ControllerPhase.applying;
                  application = some (record action { lifecycle = ActionLifecycle.stopping });
                  candidate = none;
                  verify_since_ms = none;
                })
                (now_ms + 1000) (stop_action action.action_id ∷ [])))
          else none)
        <|> maybe (stopping_mutator s) none
            (λ stopping. some (schedule s (now_ms + 1000) (stop_action (record_id stopping) ∷ []))))
      (observe_topology s prior observation)

-- `_observe`
unfoldable pub observe : State → CanonicalObservation → Result Decision
unfolding observe_invalid observe_valid
observe s observation =
    if outdated s observation
    then no_op s
    else (let s1 = record_observation s observation in
        if not (valid observation)
        then observe_invalid s1 observation
        else observe_valid s1 s.latest_observation observation)
