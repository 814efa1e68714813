-- ===== src/Reducer/Classify.antt =====
-- `_handle_unplug` and `_classify_observation` of
-- .local/lib/monitor-controller/monitor_controller/reducer.py.
use desktop_config.Prelude.{
  Bool, Option, Result, [], all, elem, err, false, if◌then◌else◌, is_some, keep, leb, map, max,
  maybe, none, not, option_eq, out_of_rounds, some, string_eq, suc, true, zero, ℕ, ◌!=◌, ◌&&◌, ◌++◌,
  ◌+◌, ◌==◌,
}
use desktop_config.Model.Action.{ApplicationAction, ProbeAction, UnplugProof}
use desktop_config.Model.Effect.{Decision}
use desktop_config.Model.Enums.{
  ControllerPhase, DisplayPower, EdidIntegrity, ProfileScope, controller_phase_eq, display_power_eq,
  edid_integrity_eq, profile_scope_eq,
}
use desktop_config.Model.Identity.{
  CandidateSelection, candidate_selection_eq, event_generation_eq, observation_key_eq,
}
use desktop_config.Model.Observation.{
  CanonicalObservation, ConnectorIdentityEvidence, EdidEvidence, ProbeCandidate, ProfileMatch,
  event_generation, has_external_hardware, nonempty,
}
use desktop_config.Model.State.{State}
use desktop_config.Reducer.Admission.{admit_application, admit_probe}
use desktop_config.Reducer.Epochs.{defer_while_asleep, enter_wait}
use desktop_config.Reducer.Outcome.{or_else, quiesce, schedule}
use desktop_config.Reducer.Pending.{observe_pending_action, same_exact_finalization}
use desktop_config.Reducer.Targets.{candidate_for, rearm_achieved_application, unique_target}
use desktop_config.Reducer.Timing.{
  health_poll_ms, unknown_stability_ms, unplug_required_samples, unplug_stability_ms,
}
use desktop_config.Reducer.Verification.{start_verification}

-- The proof of `_handle_unplug` with this sample added.
abbrev pub extend_unplug_proof : Option UnplugProof → CanonicalObservation → UnplugProof
extend_unplug_proof none observation = record {
  first_observation_key = observation.observation_key;
  first_observed_at_ms = observation.observed_at_ms;
  latest_observation_key = observation.observation_key;
  latest_observed_at_ms = observation.observed_at_ms;
  observation_count = 1;
}
extend_unplug_proof (some proof) observation = record proof {
  latest_observation_key = observation.observation_key;
  latest_observed_at_ms = observation.observed_at_ms;
  observation_count = proof.observation_count + 1;
}

-- `complete` of `_handle_unplug`
abbrev pub unplug_complete : State → CanonicalObservation → UnplugProof → Bool
unplug_complete s observation proof =
    leb unplug_required_samples proof.observation_count
    && leb (proof.first_observed_at_ms + unplug_stability_ms) proof.latest_observed_at_ms
    && event_generation observation == s.event_generation

-- `_handle_unplug`
unfoldable pub handle_unplug : State → CanonicalObservation → State × Bool
handle_unplug s observation =
    if not s.external_intent
    then (record s { unplug_proof = none }, true)
    else (let proof = extend_unplug_proof s.unplug_proof observation in
        if unplug_complete s observation proof
        then (record s { external_intent = false; unplug_proof = none }, true)
        else (record s { unplug_proof = some proof; verify_since_ms = none }, false))

abbrev pub internal_candidate : State → Bool
internal_candidate s =
    maybe s.candidate false (λ (c : CandidateSelection). c.scope == ProfileScope.internal_only)

-- External hardware was seen: the intent stands, and an internal-only candidate does not.
unfoldable pub note_external : State → State
note_external s = record s {
  external_intent = true;
  unplug_proof = none;
  candidate = if internal_candidate s then none else s.candidate;
  verify_since_ms = if internal_candidate s then none else s.verify_since_ms;
}

-- The wait for the rest of an unplug proof, which clears what failed on the old topology.
unfoldable pub await_unplug : State → ℕ → Result Decision
await_unplug s now_ms =
    schedule
      (record s {
        phase = ControllerPhase.discover_fast;
        probe = if s.phase == ControllerPhase.probe_failed then none else s.probe;
        application = if s.phase == ControllerPhase.apply_failed then none else s.application;
        finalization = if s.phase == ControllerPhase.finalize_failed then none else s.finalization;
      })
      (maybe s.unplug_proof (now_ms + 1)
        (λ (p : UnplugProof). max (now_ms + 1) (p.first_observed_at_ms + unplug_stability_ms)))
      []

-- The three blocks for a failed action: `same` evidence waits for the health tick, other evidence
-- clears the action and goes on.
unfoldable pub clear_failed_probe : State → CanonicalObservation → Option State
clear_failed_probe s observation =
    if s.phase == ControllerPhase.probe_failed
    then maybe s.probe (some s) (λ (action : ProbeAction).
      if maybe observation.probe_candidate false (λ (c : ProbeCandidate).
        c.profile == action.key.profile
        && observation.observation_key == action.key.observation_key)
      then none
      else some (record s { phase = ControllerPhase.discover_fast; probe = none }))
    else some s

unfoldable pub clear_failed_application : State → CanonicalObservation → Option State
clear_failed_application s observation =
    if s.phase == ControllerPhase.apply_failed
    then maybe s.application (some s) (λ (action : ApplicationAction).
      if maybe (unique_target observation) false (λ (target : ProfileMatch).
        target.profile == action.profile
        && observation.observation_key == action.key.observation_key)
      then none
      else some (record s { phase = ControllerPhase.discover_fast; application = none }))
    else some s

unfoldable pub clear_failed_finalization : State → CanonicalObservation → Option State
clear_failed_finalization s observation =
    if s.phase == ControllerPhase.finalize_failed && is_some s.finalization
    then (if same_exact_finalization s observation
        then none
        else some (record s { phase = ControllerPhase.discover_fast; finalization = none }))
    else some s

-- `target`, without an internal-only profile while external hardware is seen.
unfoldable pub admissible_target : CanonicalObservation → Option ProfileMatch
admissible_target observation = maybe (unique_target observation) none λ (target : ProfileMatch).
    if has_external_hardware observation && target.scope == ProfileScope.internal_only
    then none
    else some target

abbrev pub without_unknown : State → State
without_unknown s = record s { unknown_key = none; unknown_since_ms = none }

-- `same_stable_profile`
abbrev pub same_stable_profile : State → CanonicalObservation → ProfileMatch → Bool
same_stable_profile s observation target =
    s.phase == ControllerPhase.quiescent
    && s.stable_x_profile == some target.profile
    && s.desktop_finalized_profile == some target.profile
    && s.candidate == some (candidate_for s observation target)

-- The target is exact and current: settle, or verify it.
unfoldable pub classify_exact : State → CanonicalObservation → ProfileMatch → Result Decision
classify_exact s observation target =
    let s1 = rearm_achieved_application (without_unknown s) target.profile in
    if same_stable_profile s1 observation target
    then quiesce s1 []
    else start_verification s1 observation target

-- `complete_unknown`
abbrev pub complete_unknown : CanonicalObservation → Bool
complete_unknown observation =
    let external_outputs = observation.kernel_external_outputs ++ observation.x_external_outputs in
    let complete_outputs =
      map (λ (e : EdidEvidence). e.output)
        (keep (λ (e : EdidEvidence). e.integrity == EdidIntegrity.complete)
          observation.edid_integrity) in
    let identified_outputs =
      map (λ (c : ConnectorIdentityEvidence). c.output)
        (keep (λ (c : ConnectorIdentityEvidence). is_some c.x_connector_id)
          observation.connector_identities) in
    nonempty external_outputs
    && all (λ o. elem o complete_outputs && elem o identified_outputs) external_outputs

-- `since`
abbrev pub unknown_since : State → CanonicalObservation → ℕ
unknown_since s observation =
    if s.unknown_key != some observation.observation_key
    then observation.observed_at_ms
    else maybe s.unknown_since_ms observation.observed_at_ms (λ since. since)

-- A fully identified external monitor that no profile knows.
unfoldable pub classify_unknown : State → CanonicalObservation → Result Decision
classify_unknown s observation =
    let now_ms = observation.observed_at_ms in
    let since = unknown_since s observation in
    let s1 = record s {
      unknown_key = some observation.observation_key;
      unknown_since_ms = some since;
      verify_since_ms = none;
    } in
    if leb (since + unknown_stability_ms) now_ms
    then schedule (record s1 { phase = ControllerPhase.unsupported }) (now_ms + health_poll_ms) []
    else schedule (record s1 { phase = ControllerPhase.discover_fast }) (now_ms + 1000) []

abbrev pub asleep : CanonicalObservation → Bool
asleep observation = observation.display_power == DisplayPower.asleep

-- `_classify_observation` from the probe candidate on.
unfoldable pub classify_target : State → CanonicalObservation → Result Decision
unfolding classify_exact classify_unknown
classify_target s observation =
    let now_ms = observation.observed_at_ms in
    if is_some observation.probe_candidate
    then (if asleep observation
        then defer_while_asleep (without_unknown s) now_ms
        else admit_probe (without_unknown s) observation)
    else maybe (admissible_target observation)
        (if complete_unknown observation
          then classify_unknown s observation
          else enter_wait s now_ms)
        (λ target.
          if observation.exact_profile == some target.profile
            && elem target.profile observation.current_profiles
          then classify_exact s observation target
          else if asleep observation
          then defer_while_asleep (without_unknown s) now_ms
          else admit_application (without_unknown s) observation target)

-- `_classify_observation` from the failed actions on.
unfoldable pub classify_evidence : State → CanonicalObservation → Result Decision
unfolding classify_target
classify_evidence s observation =
    let health_tick =
      λ (waiting : State). schedule waiting (observation.observed_at_ms + health_poll_ms) [] in
    maybe (clear_failed_probe s observation) (health_tick s) λ s1.
      maybe (clear_failed_application s1 observation) (health_tick s1) λ s2.
        maybe (clear_failed_finalization s2 observation) (health_tick s2)
          λ s3. classify_target s3 observation

-- `_classify_observation` where no pending action took the observation.
unfoldable pub classify_topology : State → CanonicalObservation → Result Decision
unfolding classify_evidence
classify_topology s observation =
    if has_external_hardware observation
    then classify_evidence (note_external s) observation
    else (let (s1, complete) = handle_unplug s observation in
        if complete
        then classify_evidence s1 observation
        else await_unplug s1 observation.observed_at_ms)

-- `_classify_observation`. Each round that cancels a pending admission leaves fewer of them, and at
-- most two are pending; `out_of_rounds` stands for Python's recursion limit.
unfoldable pub classify_rounds : ℕ → State → CanonicalObservation → Result Decision
classify_rounds zero s observation = err out_of_rounds
classify_rounds (suc rounds) s observation =
    or_else (observe_pending_action (classify_rounds rounds) s observation)
      (classify_topology s observation)

unfoldable pub classify_observation : State → CanonicalObservation → Result Decision
unfolding classify_rounds
classify_observation = classify_rounds 3
