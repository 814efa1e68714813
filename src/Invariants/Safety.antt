-- ===== src/Invariants/Safety.antt =====
-- `_check_numbered_safety_rules` and `_check_attempt_history` of
-- .local/lib/monitor-controller/monitor_controller/invariants.py.
use desktop_config.Prelude.{
  Result, elem, false, is_none, is_some, leb, maybe, option_eq, some, string_eq, unique, ◌!=◌, ◌&&◌,
  ◌==◌, ◌>>◌,
}
use desktop_config.Invariants.Authority.{observed}
use desktop_config.Invariants.Rules.{each, given, in_flight, mutators, require, when}
use desktop_config.Model.Action.{
  ActionRecord, ApplicationAction, FinalizationAction, ProbeAction, UnplugProof, record_deadline,
  record_unit,
}
use desktop_config.Model.Enums.{
  ActionLifecycle, ControllerPhase, ProfileScope, action_lifecycle_eq, controller_phase_eq,
  profile_scope_eq,
}
use desktop_config.Model.Identity.{
  CandidateSelection, application_attempt_key_eq, observation_key_eq, probe_attempt_key_eq,
}
use desktop_config.Model.Observation.{has_external_hardware, valid}
use desktop_config.Model.State.{State}

-- Rules 1 and 5: external evidence never authorizes an internal-only target.
unfoldable pub check_no_laptop_fallback : State → Result (Unit {0})
check_no_laptop_fallback s = when (observed s has_external_hardware) (do
  given s.candidate (λ (candidate : CandidateSelection).
      require (candidate.scope != ProfileScope.internal_only)
        "external hardware forbids an internal-only candidate")
  given s.application (λ (application : ApplicationAction).
      require (application.scope != ProfileScope.internal_only)
        "external hardware forbids an internal-only application"))

-- Rule 2: a probe coexists with no candidate and no desktop lifecycle.
unfoldable pub check_probe_is_not_authorization : State → Result (Unit {0})
check_probe_is_not_authorization s =
    when (is_some s.probe && s.phase != ControllerPhase.recovering) (do
      require (is_none s.candidate) "probe cannot select a profile candidate"
      require (is_none s.planning) "probe cannot authorize desktop planning"
      require (is_none s.preparation && is_none s.finalization)
          "probe cannot authorize desktop mutation")

-- Rule 6: verification is bound to the latest exact and current proof.
unfoldable pub check_continuous_proof : State → Result (Unit {0})
check_continuous_proof s =
    when (s.phase == ControllerPhase.verifying && is_some s.verify_since_ms) (
      require
        (observed s (λ o. maybe s.candidate false (λ (candidate : CandidateSelection).
          valid o
          && o.exact_profile == some candidate.profile
          && elem candidate.profile o.current_profiles
          && o.observation_key == candidate.observation_key)))
        "verification requires continuous exact/current matching evidence")

-- Rule 7, one round of the loop over the four mutating actions.
unfoldable pub check_durable_dispatch : ActionRecord → Result (Unit {0})
check_durable_dispatch action = when (in_flight action) (do
  require (is_some (record_unit action)) "mutating worker must retain its unit"
  require (is_some (record_deadline action)) "mutating worker must retain its absolute deadline")

unfoldable pub check_unplug_proof : State → UnplugProof → Result (Unit {0})
check_unplug_proof s proof = do
  require s.external_intent "unplug proof requires retained external intent"
  require (leb 1 proof.observation_count) "unplug proof requires at least one observation"

unfoldable pub check_numbered_safety_rules : State → Result (Unit {0})
check_numbered_safety_rules s = do
  check_no_laptop_fallback s
  check_probe_is_not_authorization s
  given s.application (λ (application : ApplicationAction).
      require
        (application.profile == application.mapping.profile
          && application.key.profile == application.profile)
        "application must explicitly load its selected mapped profile")
  require (unique s.attempted_probe_keys) "probe attempt keys must be unique"
  require (unique s.attempted_application_keys) "application attempt keys must be unique"
  check_continuous_proof s
  each check_durable_dispatch (mutators s)
  given s.finalization (λ (finalization : FinalizationAction).
      require (some finalization.profile != s.desktop_finalized_profile)
        "already-finalized profile cannot be finalized again")
  given s.unplug_proof (check_unplug_proof s)

unfoldable pub check_attempt_history : State → Result (Unit {0})
check_attempt_history s = do
  given s.probe (λ (probe : ProbeAction).
      when (probe.lifecycle != ActionLifecycle.admitted && is_some probe.unit) (
        require (elem probe.key s.attempted_probe_keys)
          "acknowledged probe must retain its attempted key"))
  given s.application (λ (application : ApplicationAction).
      when (application.lifecycle != ActionLifecycle.admitted && is_some application.unit) (
        require (elem application.key s.attempted_application_keys)
          "acknowledged application must retain its attempted key"))
