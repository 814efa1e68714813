-- ===== src/Reducer/Verification.antt =====
-- Verification of a target, and its preparation and finalization, from
-- .local/lib/monitor-controller/monitor_controller/reducer.py.
use desktop_config.Prelude.{
  Bool, List, Result, String, [], false, if◌then◌else◌, is_none, is_some, leb, maybe, none, not, ok,
  option_eq, some, string_eq, true, ℕ, ◌!=◌, ◌&&◌, ◌++◌, ◌+◌, ◌==◌, ◌>>=◌, ◌||◌, ◌∷◌,
}
use desktop_config.Invariants.Rules.{preparation_stability_ms, profile_stability_ms}
use desktop_config.Model.Action.{FinalizationAction, PlanningAction, PreparationAction}
use desktop_config.Model.Effect.{Decision, Effect}
use desktop_config.Model.Enums.{
  ActionKind, ActionLifecycle, ControllerPhase, PlanningState, PreparationState,
  controller_phase_eq, planning_state_eq, preparation_state_eq,
}
use desktop_config.Model.Identity.{
  CandidateSelection, ObservationKey, PlanHash, observation_key_eq, planning_input_key_eq,
}
use desktop_config.Model.Observation.{CanonicalObservation, ProfileMatch, event_generation}
use desktop_config.Model.State.{State}
use desktop_config.Reducer.Admission.{admit_plan}
use desktop_config.Reducer.Epochs.{discard_planning, enter_wait}
use desktop_config.Reducer.Outcome.{allocate_action, decision, quiesce, schedule}
use desktop_config.Reducer.Targets.{
  candidate_for, planning_input_key, reset_application_recovery, transition_key,
}
use desktop_config.Reducer.Timing.{event_quiet_ms, health_poll_ms}

-- `PrepareDesktop` of an action, under the key of the observation that it is asked for.
abbrev pub prepare_desktop : PreparationAction → ObservationKey → Effect
prepare_desktop action key = Effect.prepare_desktop (record {
  action_id = action.action_id;
  transition_id = action.transition_id;
  transition_key = action.transition_key;
  profile = action.profile;
  plan_hash = action.plan_hash;
  admitted_event_generation = action.admitted_event_generation;
  observation_key = key;
})

-- `FinalizeDesktop` of an action, under the key of the observation that it is asked for.
abbrev pub finalize_desktop : FinalizationAction → ObservationKey → Effect
finalize_desktop action key = Effect.finalize_desktop (record {
  action_id = action.action_id;
  transition_id = action.transition_id;
  transition_key = action.transition_key;
  profile = action.profile;
  plan_hash = action.plan_hash;
  admitted_event_generation = action.admitted_event_generation;
  observation_key = key;
})

-- The preparation that `_advance_verification` admits.
unfoldable pub admit_preparation :
    State → CanonicalObservation → CandidateSelection → PlanningAction → PlanHash → State × Effect
unfolding allocate_action
admit_preparation s observation candidate planning plan_hash =
    let (s1, action_id) = allocate_action s ActionKind.preparation in
    let preparation : PreparationAction = record {
      action_id = action_id;
      transition_id = planning.transition_id;
      transition_key = transition_key s1 candidate.profile candidate.observation_key;
      plan_hash = plan_hash;
      admitted_event_generation = event_generation observation;
      observation_key = observation.observation_key;
      profile = candidate.profile;
      lifecycle = ActionLifecycle.admitted;
      unit = none;
      worker_deadline_ms = none;
      exit_status = none;
      terminal_after_stop = none;
    } in
    (
      record s1 {
        preparation_state = PreparationState.prepare_pending;
        preparation = some preparation;
      },
      prepare_desktop preparation observation.observation_key,
    )

-- The first `if` of `_advance_verification`: the preparation that a ready plan admits, if any.
unfoldable pub prepare_when_ready :
    State → CanonicalObservation → ℕ → CandidateSelection → State × List Effect
unfolding admit_preparation
prepare_when_ready s observation since candidate =
    if leb (since + preparation_stability_ms) observation.observed_at_ms
      && s.desktop_finalized_profile != some candidate.profile
      && not s.baseline_adoption
      && s.planning_state == PlanningState.plan_ready
      && s.preparation_state == PreparationState.prepare_idle
    then maybe s.planning (s, [])
        (λ planning.
          maybe planning.plan_hash (s, [])
            (λ plan_hash.
              let (s', effect) = admit_preparation s observation candidate planning plan_hash in
              (s', effect ∷ [])))
    else (s, [])

-- The finalization that a complete proof admits for a prepared desktop.
unfoldable pub admit_finalization :
    State → CanonicalObservation → PreparationAction → String → List Effect → Result Decision
admit_finalization s observation preparation profile effects =
    let (s1, action_id) = allocate_action s ActionKind.finalization in
    let finalization : FinalizationAction = record {
      action_id = action_id;
      transition_id = preparation.transition_id;
      transition_key = preparation.transition_key;
      plan_hash = preparation.plan_hash;
      admitted_event_generation = event_generation observation;
      observation_key = observation.observation_key;
      profile = profile;
      lifecycle = ActionLifecycle.admitted;
      unit = none;
      worker_deadline_ms = none;
      exit_status = none;
      terminal_after_stop = none;
    } in
    decision
      (record s1 {
        phase = ControllerPhase.finalize_pending;
        finalization = some finalization;
        next_timer_ms = some observation.observed_at_ms;
      })
      (effects ++ finalize_desktop finalization observation.observation_key ∷ [])

-- A complete proof of the profile that the desktop is finalized for.
unfoldable pub settle_finalized : State → String → List Effect → Result Decision
settle_finalized s profile effects = do
  (s1, discard_effects) ← discard_planning s
  quiesce
      (record (reset_application_recovery s1 profile) {
        stable_x_profile = some profile;
        baseline_adoption = false;
      })
      (effects ++ discard_effects)

-- A complete proof of the profile that a fresh controller adopts as it stands.
unfoldable pub adopt_baseline : State → String → List Effect → Result Decision
adopt_baseline s profile effects =
    quiesce
      (record (reset_application_recovery s profile) {
        stable_x_profile = some profile;
        desktop_finalized_profile = some profile;
        baseline_adoption = false;
      })
      effects

-- `proof_complete`, by the two ages; with no DRM hint the quiet age is enough.
abbrev pub proof_complete : State → ℕ → ℕ → Bool
proof_complete s since now_ms =
    leb (since + profile_stability_ms) now_ms
    && maybe s.last_drm_at_ms true (λ drm. leb (drm + event_quiet_ms) now_ms)

abbrev pub desktop_blocked : State → Bool
desktop_blocked s =
    s.planning_state == PlanningState.plan_failed
    || s.preparation_state == PreparationState.prepare_failed

-- The end of `_advance_verification`, after the health tick's case was told from the proof tick's.
unfoldable pub await_proof : State → Bool → ℕ → List Effect → Result Decision
await_proof s complete now_ms effects =
    if complete && desktop_blocked s
    then schedule s (now_ms + health_poll_ms) effects
    else schedule s (now_ms + 1000) effects

-- `_advance_verification` from `proof_complete` on.
unfoldable pub conclude_verification :
    State → CanonicalObservation → ℕ → String → List Effect → Result Decision
unfolding await_proof admit_finalization settle_finalized adopt_baseline
conclude_verification s observation since profile effects =
    let now_ms = observation.observed_at_ms in
    let complete = proof_complete s since now_ms in
    if complete && s.desktop_finalized_profile == some profile
    then settle_finalized s profile effects
    else if complete && s.baseline_adoption
    then adopt_baseline s profile effects
    else if complete && s.preparation_state == PreparationState.prepared && is_none s.finalization
    then maybe s.preparation (await_proof s complete now_ms effects)
        (λ preparation. admit_finalization s observation preparation profile effects)
    else await_proof s complete now_ms effects

-- `_advance_verification`
unfoldable pub advance_verification : State → CanonicalObservation → List Effect → Result Decision
unfolding prepare_when_ready conclude_verification
advance_verification s observation leading_effects =
    maybe s.verify_since_ms (enter_wait s observation.observed_at_ms) λ since.
      maybe s.candidate (enter_wait s observation.observed_at_ms) λ candidate.
        let (s1, effects) = prepare_when_ready s observation since candidate in
        conclude_verification s1 observation since candidate.profile (leading_effects ++ effects)

-- `same_proof`
abbrev pub same_proof : State → CanonicalObservation → ProfileMatch → Bool
same_proof s observation target =
    s.phase == ControllerPhase.verifying
    && maybe s.candidate false (λ (c : CandidateSelection).
      c.profile == target.profile && c.observation_key == observation.observation_key)
    && is_some s.verify_since_ms

-- `planning_inputs_changed`
abbrev pub planning_inputs_changed : State → CanonicalObservation → ProfileMatch → Bool
planning_inputs_changed s observation target =
    maybe s.planning false (λ (p : PlanningAction).
      p.input_key != planning_input_key s target observation.observation_key)

-- The first half of `_start_verification`: keep the proof that runs, or begin one.
unfoldable pub renew_proof :
    State → CanonicalObservation → ProfileMatch → Result (State × List Effect)
renew_proof s observation target =
    if not (same_proof s observation target) || planning_inputs_changed s observation target
    then (do
      (s1, discard_effects) ← discard_planning s
      ok (
        if not (same_proof s observation target)
            then record s1 {
              verify_since_ms = some observation.observed_at_ms;
              candidate = some (candidate_for s1 observation target);
            }
            else s1,
        discard_effects,
      ))
    else ok (s, [])

-- The second half: ask for a plan if the desktop has to change.
unfoldable pub plan_when_changed :
    State → CanonicalObservation → ProfileMatch → List Effect → State × List Effect
plan_when_changed s observation target effects =
    if s.desktop_finalized_profile != some target.profile
      && not s.baseline_adoption
      && s.planning_state == PlanningState.plan_idle
    then (let (s1, plan_effect) = admit_plan s observation target in
        (s1, effects ++ plan_effect ∷ []))
    else (s, effects)

-- `_start_verification`
unfoldable pub start_verification : State → CanonicalObservation → ProfileMatch → Result Decision
unfolding renew_proof plan_when_changed
start_verification s observation target = do
  (s1, discard_effects) ← renew_proof s observation target
  let (s2, effects) =
      plan_when_changed (record s1 { phase = ControllerPhase.verifying }) observation target
        discard_effects
  advance_verification s2 observation effects
