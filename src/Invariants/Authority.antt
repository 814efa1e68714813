-- ===== src/Invariants/Authority.antt =====
-- `_check_observation_authority` and `_check_action_authorization` of
-- .local/lib/monitor-controller/monitor_controller/invariants.py. A difference of two times is
-- compared as a sum, since an integer of the source may be negative.
use desktop_config.Prelude.{
  Bool, Result, String, [], elem, false, is_none, is_some, leb, maybe, nat_eq, not, option_eq, some,
  string_eq, ℕ, ◌&&◌, ◌+◌, ◌==◌, ◌>>◌, ◌||◌, ◌∷◌,
}
use desktop_config.Invariants.Rules.{
  given, preparation_stability_ms, profile_stability_ms, require, when,
}
use desktop_config.Model.Action.{
  ApplicationAction, FinalizationAction, PreparationAction, ProbeAction,
}
use desktop_config.Model.Enums.{
  ActionLifecycle, ControllerPhase, PreparationState, ProfileScope, action_lifecycle_eq,
  controller_phase_eq, preparation_state_eq, profile_scope_eq,
}
use desktop_config.Model.Identity.{
  CandidateSelection, EventGeneration, ObservationKey, boot_id_eq, event_generation_eq,
  observation_key_eq, plan_hash_eq, transition_id_eq, transition_key_eq,
}
use desktop_config.Model.Observation.{
  CanonicalObservation, ProbeCandidate, has_external_hardware, valid,
}
use desktop_config.Model.State.{State}

abbrev pub unresolved_external : State → CanonicalObservation → Bool
unresolved_external s observation =
    valid observation
    && has_external_hardware observation
    && is_none observation.exact_profile
    && elem s.phase (
        ControllerPhase.discover_fast ∷ ControllerPhase.wait_slow ∷ ControllerPhase.probe_failed
        ∷ ControllerPhase.apply_failed ∷ [])

unfoldable pub check_candidate :
    State → CanonicalObservation → CandidateSelection → Result (Unit {0})
check_candidate s observation candidate = do
  require (candidate.mapping.physical_epoch == s.physical_epoch)
      "candidate mapping proof belongs to another physical epoch"
  require (not (has_external_hardware observation && candidate.scope == ProfileScope.internal_only))
      "internal-only candidate is forbidden by external hardware evidence"

unfoldable pub check_latest_observation : State → CanonicalObservation → Result (Unit {0})
unfolding check_candidate
check_latest_observation s observation = do
  require (observation.boot_id == s.boot_id) "latest observation belongs to another boot"
  require (leb observation.observation_generation.value s.observation_generation.value)
      "state observation generation precedes its latest observation"
  require (leb observation.end_event_generation.value s.event_generation.value)
      "observation event generation exceeds the controller event generation"
  given s.candidate (check_candidate s observation)
  require (not (unresolved_external s observation) || is_some s.next_timer_ms)
      "unresolved external topology requires a future observation timer"

unfoldable pub check_observation_authority : State → Result (Unit {0})
check_observation_authority s = given s.latest_observation (check_latest_observation s)

-- The latest observation is there and satisfies `test`.
abbrev pub observed : State → (CanonicalObservation → Bool) → Bool
observed s test = maybe s.latest_observation false test

unfoldable pub check_application : State → ApplicationAction → Result (Unit {0})
check_application s application = do
  require (leb application.admitted_event_generation.value s.event_generation.value)
      "application admission comes from a future event generation"
  given s.latest_observation (λ observation.
      require
        (not (has_external_hardware observation && application.scope == ProfileScope.internal_only))
        "internal-only application is forbidden by external hardware evidence")
  when
      (s.phase == ControllerPhase.apply_pending
        && application.admitted_event_generation == s.event_generation)
      (do
        require
            (observed s (λ o.
              valid o
              && o.observation_key == application.key.observation_key
              && o.end_event_generation == application.admitted_event_generation))
            "fresh application admission requires matching valid evidence"
        require
            (application.mapping.physical_epoch == s.physical_epoch
              && application.key.physical_epoch == s.physical_epoch)
            "application admission belongs to another physical epoch")

-- The probe's parameters are those of the observed candidate.
abbrev pub matches_candidate : ProbeAction → ProbeCandidate → Bool
matches_candidate probe candidate =
    candidate.profile == probe.key.profile
    && candidate.output == probe.output
    && candidate.internal_output == probe.internal_output
    && candidate.preferred_mode == probe.preferred_mode

unfoldable pub check_probe : State → ProbeAction → Result (Unit {0})
check_probe s probe = do
  require (leb probe.admitted_event_generation.value s.event_generation.value)
      "probe admission comes from a future event generation"
  when
      (s.phase == ControllerPhase.probe_pending
        && probe.admitted_event_generation == s.event_generation)
      (do
        require
            (observed s (λ o.
              valid o
              && o.observation_key == probe.key.observation_key
              && o.end_event_generation == probe.admitted_event_generation))
            "fresh probe admission requires matching valid evidence"
        require (probe.key.physical_epoch == s.physical_epoch)
            "probe admission belongs to another physical epoch"
        require (observed s (λ o. maybe o.probe_candidate false (matches_candidate probe)))
            "probe admission must match the exact canonical candidate")

-- The sample is valid, has the action's key and generation, and shows its profile as exact and
-- current.
abbrev pub shows_exact : ObservationKey → EventGeneration → String → CanonicalObservation → Bool
shows_exact key generation profile o =
    valid o
    && o.observation_key == key
    && o.end_event_generation == generation
    && o.exact_profile == some profile
    && elem profile o.current_profiles

-- The latest sample is at least `age` after the start of the verification.
abbrev pub proven_for : State → ℕ → Bool
proven_for s age =
    maybe s.verify_since_ms false (λ since. observed s (λ o. leb (since + age) o.observed_at_ms))

unfoldable pub check_preparation : State → PreparationAction → Result (Unit {0})
check_preparation s preparation = do
  require (leb preparation.admitted_event_generation.value s.event_generation.value)
      "preparation admission comes from a future event generation"
  when
      (s.preparation_state == PreparationState.prepare_pending
        && preparation.admitted_event_generation == s.event_generation)
      (do
        require
            (observed s (
              shows_exact preparation.observation_key preparation.admitted_event_generation
                preparation.profile))
            "fresh preparation admission requires exact current evidence"
        require (proven_for s preparation_stability_ms)
            "preparation requires two seconds of continuous proof")

unfoldable pub check_finalization : State → FinalizationAction → Result (Unit {0})
check_finalization s finalization = do
  require
      (maybe s.preparation false (λ (p : PreparationAction).
        s.preparation_state == PreparationState.prepared
        && p.lifecycle == ActionLifecycle.completed))
      "finalization requires matching prepared desktop artifacts"
  require
      (maybe s.preparation false (λ (p : PreparationAction).
        p.transition_id == finalization.transition_id
        && p.transition_key == finalization.transition_key
        && p.plan_hash == finalization.plan_hash
        && p.profile == finalization.profile))
      "finalization and preparation identities must match"
  require (leb finalization.admitted_event_generation.value s.event_generation.value)
      "finalization admission comes from a future event generation"
  when
      (s.phase == ControllerPhase.finalize_pending
        && finalization.admitted_event_generation == s.event_generation)
      (do
        require
            (observed s (
              shows_exact finalization.observation_key finalization.admitted_event_generation
                finalization.profile))
            "fresh finalization admission requires exact current evidence"
        require (proven_for s profile_stability_ms)
            "finalization requires full continuous stability proof"
        require (not s.baseline_adoption) "startup baseline adoption cannot authorize finalization")

unfoldable pub check_action_authorization : State → Result (Unit {0})
check_action_authorization s = do
  given s.application (check_application s)
  given s.probe (check_probe s)
  given s.preparation (check_preparation s)
  given s.finalization (check_finalization s)
