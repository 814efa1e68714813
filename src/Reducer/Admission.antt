-- ===== src/Reducer/Admission.antt =====
-- Admission of probes, applications and plans, from
-- .local/lib/monitor-controller/monitor_controller/reducer.py.
use desktop_config.Prelude.{
  Bool, Result, [], discard, elem, false, if◌then◌else◌, leb, maybe, none, not, some, ◌&&◌, ◌++◌,
  ◌==◌, ◌>>=◌, ◌∷◌,
}
use desktop_config.Model.Action.{ApplicationAction, ProbeAction}
use desktop_config.Model.Effect.{Decision, Effect}
use desktop_config.Model.Enums.{
  ActionKind, ActionLifecycle, ControllerPhase, PlanningState, controller_phase_eq,
}
use desktop_config.Model.Identity.{
  ActionId, ApplicationAttemptKey, MappingProof, ObservationKey, ProbeAttemptKey,
  application_attempt_key_eq, probe_attempt_key_eq,
}
use desktop_config.Model.Observation.{
  CanonicalObservation, ProbeCandidate, ProfileMatch, event_generation,
}
use desktop_config.Model.State.{State}
use desktop_config.Reducer.Epochs.{discard_planning, enter_wait}
use desktop_config.Reducer.Outcome.{allocate_action, allocate_transition, decision}
use desktop_config.Reducer.Targets.{candidate_for, planning_input_key}

-- The probe that `_admit_probe` admits.
abbrev pub new_probe :
    ActionId → ProbeAttemptKey → CanonicalObservation → ProbeCandidate → ProbeAction
new_probe action_id key observation candidate = record {
  action_id = action_id;
  key = key;
  admitted_event_generation = event_generation observation;
  output = candidate.output;
  internal_output = candidate.internal_output;
  preferred_mode = candidate.preferred_mode;
  lifecycle = ActionLifecycle.admitted;
  unit = none;
  worker_deadline_ms = none;
  exit_status = none;
  terminal_after_stop = none;
}

-- `ActivateProbe` of an action, under the key of the observation that it is asked for.
abbrev pub activate_probe : ProbeAction → ObservationKey → Effect
activate_probe action key = Effect.activate_probe (record {
  action_id = action.action_id;
  key = action.key;
  output = action.output;
  internal_output = action.internal_output;
  preferred_mode = action.preferred_mode;
  admitted_event_generation = action.admitted_event_generation;
  observation_key = key;
})

abbrev pub probe_key : State → CanonicalObservation → ProbeCandidate → ProbeAttemptKey
probe_key s observation candidate = record {
  physical_epoch = s.physical_epoch;
  profile = candidate.profile;
  observation_key = observation.observation_key;
}

-- `_admit_probe` past its early returns.
unfoldable pub admit_new_probe : State → CanonicalObservation → ProbeCandidate → Result Decision
admit_new_probe s observation candidate = do
  (s1, discard_effects) ← discard_planning s
  let (s2, action_id) = allocate_action s1 ActionKind.probe
  let action = new_probe action_id (probe_key s observation candidate) observation candidate
  decision
      (record s2 {
        phase = ControllerPhase.probe_pending;
        candidate = none;
        probe = some action;
        baseline_adoption = false;
        verify_since_ms = none;
        next_timer_ms = some observation.observed_at_ms;
      })
      (discard_effects ++ activate_probe action observation.observation_key ∷ [])

-- `_admit_probe`
unfoldable pub admit_probe : State → CanonicalObservation → Result Decision
unfolding admit_new_probe
admit_probe s observation =
    maybe observation.probe_candidate (enter_wait s observation.observed_at_ms) λ candidate.
      if elem (probe_key s observation candidate) s.attempted_probe_keys
      then enter_wait s observation.observed_at_ms
      else admit_new_probe s observation candidate

-- `_slow_retry_due`; `len(SLOW_DELAYS_MS) - 1` is 3.
unfoldable pub slow_retry_due : State → Bool
slow_retry_due s = s.phase == ControllerPhase.wait_slow && leb 3 s.backoff_index

abbrev pub application_key : State → CanonicalObservation → ProfileMatch → ApplicationAttemptKey
application_key s observation target = record {
  physical_epoch = s.physical_epoch;
  profile = target.profile;
  observation_key = observation.observation_key;
}

-- The application that `_admit_application` admits.
abbrev pub new_application :
    ActionId
    → ApplicationAttemptKey
    → CanonicalObservation
    → ProfileMatch
    → MappingProof
    → ApplicationAction
new_application action_id key observation target mapping = record {
  action_id = action_id;
  key = key;
  admitted_event_generation = event_generation observation;
  profile = target.profile;
  scope = target.scope;
  mapping = mapping;
  lifecycle = ActionLifecycle.admitted;
  unit = none;
  worker_deadline_ms = none;
  exit_status = none;
  terminal_after_stop = none;
}

-- `ApplyProfile` of an action, under the key of the observation that it is asked for.
abbrev pub apply_profile : ApplicationAction → ObservationKey → Effect
apply_profile action key = Effect.apply_profile (record {
  action_id = action.action_id;
  key = action.key;
  profile = action.profile;
  mapping = action.mapping;
  admitted_event_generation = action.admitted_event_generation;
  observation_key = key;
})

-- `_admit_application` past its early return.
unfoldable pub admit_new_application :
    State
    → CanonicalObservation
    → ProfileMatch
    → ApplicationAttemptKey
    → MappingProof
    → Result Decision
admit_new_application s observation target key mapping =
    let (s1, action_id) = allocate_action s ActionKind.application in
    let action = new_application action_id key observation target mapping in
    decision
      (record s1 {
        phase = ControllerPhase.apply_pending;
        application = some action;
        next_timer_ms = some observation.observed_at_ms;
      })
      (apply_profile action observation.observation_key ∷ [])

-- `_admit_application`: a spent key is withdrawn when a capped slow retry is due.
unfoldable pub admit_application : State → CanonicalObservation → ProfileMatch → Result Decision
unfolding admit_new_application slow_retry_due
admit_application s observation target =
    let key = application_key s observation target in
    let candidate = candidate_for s observation target in
    let s1 = record s { candidate = some candidate; baseline_adoption = false } in
    if elem key s1.attempted_application_keys
    then (if not (slow_retry_due s1)
        then enter_wait s1 observation.observed_at_ms
        else admit_new_application
            (record s1 { attempted_application_keys = discard s1.attempted_application_keys key })
            observation target key candidate.mapping)
    else admit_new_application s1 observation target key candidate.mapping

-- `_admit_plan`
unfoldable pub admit_plan : State → CanonicalObservation → ProfileMatch → State × Effect
unfolding allocate_transition allocate_action
admit_plan s observation target =
    let (s1, transition_id) = allocate_transition s in
    let (s2, action_id) = allocate_action s1 ActionKind.plan in
    let input_key = planning_input_key s2 target observation.observation_key in
    (
      record s2 {
        planning_state = PlanningState.plan_pending;
        planning = some (record {
          action_id = action_id;
          transition_id = transition_id;
          input_key = input_key;
          profile = target.profile;
          lifecycle = ActionLifecycle.admitted;
          plan_hash = none;
          exit_status = none;
        });
      },
      Effect.request_plan (record {
        action_id = action_id;
        transition_id = transition_id;
        input_key = input_key;
        profile = target.profile;
      }),
    )
