-- ===== src/Reducer/Targets.antt =====
-- Targets, proofs and keys read off an observation, from
-- .local/lib/monitor-controller/monitor_controller/reducer.py.
use desktop_config.Prelude.{
  Bool, List, Option, String, [], add, any, decimal, discard, elem, false, find, if◌then◌else◌,
  is_none, keep, list_eq, map, maybe, nat_eq, none, not, option_eq, same_set, some, string_eq, true,
  ◌!=◌, ◌&&◌, ◌<>◌, ◌==◌, ◌||◌, ◌∷◌,
}
use desktop_config.Model.Action.{PlanningAction, PreparationAction}
use desktop_config.Model.Enums.{EdidIntegrity, edid_integrity_eq}
use desktop_config.Model.Identity.{
  ApplicationAttemptKey, CandidateSelection, MappingProof, ObservationKey, OutputMapping,
  PlanningInputKey, TransitionKey, application_attempt_key_eq, observation_key_eq,
  physical_token_eq, plan_hash_eq,
}
use desktop_config.Model.Observation.{
  BaseIdentityMatch, CanonicalObservation, ConnectorIdentityEvidence, EdidEvidence, ProfileMatch,
  nonempty,
}
use desktop_config.Model.State.{State}

-- `_profile_match`
unfoldable pub profile_match : CanonicalObservation → String → Option ProfileMatch
profile_match observation profile =
    find (λ (m : ProfileMatch). m.profile == profile) observation.eligible_profiles

abbrev only : {A : Type 0} → List A → Option A
only (x ∷ []) = some x
only _ = none

-- `_unique_target`
unfoldable pub unique_target : CanonicalObservation → Option ProfileMatch
unfolding profile_match
unique_target observation =
    maybe observation.exact_profile (only observation.eligible_profiles) (profile_match observation)

-- `_mapping_proof`
abbrev pub mapping_proof : State → CanonicalObservation → ProfileMatch → MappingProof
mapping_proof s observation target = record {
  profile = target.profile;
  physical_epoch = s.physical_epoch;
  observation_key = observation.observation_key;
  outputs = target.mapping;
}

-- `_candidate`
unfoldable pub candidate_for : State → CanonicalObservation → ProfileMatch → CandidateSelection
candidate_for s observation target = record {
  profile = target.profile;
  scope = target.scope;
  mapping = mapping_proof s observation target;
  observation_key = observation.observation_key;
}

-- The attempted keys that are not of this epoch's attempts at the profile.
abbrev pub other_attempts : State → String → List ApplicationAttemptKey
other_attempts s profile =
    keep
      (λ (k : ApplicationAttemptKey). k.physical_epoch != s.physical_epoch || k.profile != profile)
      s.attempted_application_keys

-- `_rearm_achieved_application`; the kept keys are the set itself if none was filtered out.
unfoldable pub rearm_achieved_application : State → String → State
rearm_achieved_application s profile =
    if elem profile s.immediate_retry_used_profiles
    then s
    else if other_attempts s profile == s.attempted_application_keys
    then s
    else record s {
      attempted_application_keys = other_attempts s profile;
      immediate_retry_used_profiles = add s.immediate_retry_used_profiles profile;
    }

-- `_reset_application_recovery`
unfoldable pub reset_application_recovery : State → String → State
reset_application_recovery s profile = record s {
  attempted_application_keys = other_attempts s profile;
  immediate_retry_used_profiles = discard s.immediate_retry_used_profiles profile;
}

-- The answers of `_preparation_observation_status`; `none` is the contradiction.
pub data ObservationStatus : Type 0 where
  exact identity_uncertain : ObservationStatus

-- The loop over the mapped outputs; `uncertain` is `identity_uncertain`, and the dictionary `edids`
-- holds one entry for each output of a valid sample.
unfoldable pub output_status :
    CanonicalObservation → List String → Bool → List String → Option ObservationStatus
output_status observation base_outputs uncertain [] =
    if uncertain then some ObservationStatus.identity_uncertain else none
output_status observation base_outputs uncertain (output ∷ outputs) =
    let rest = λ (u : Bool). output_status observation base_outputs u outputs in
    maybe (find (λ (e : EdidEvidence). e.output == output) observation.edid_integrity)
      (if elem output observation.kernel_external_outputs then none else rest uncertain)
      λ evidence.
        if evidence.integrity == EdidIntegrity.absent && is_none evidence.base_hash
        then rest true
        else if is_none evidence.base_hash || not (elem output base_outputs)
        then none
        else rest (uncertain || evidence.integrity != EdidIntegrity.complete)

-- A connector whose kernel and X identities disagree.
abbrev pub misidentified : ConnectorIdentityEvidence → Bool
misidentified item = maybe item.x_connector_id false (λ x. item.kernel_connector_id != x)

-- `_preparation_observation_status`
unfoldable pub preparation_observation_status :
    State → CanonicalObservation → PreparationAction → Option ObservationStatus
unfolding output_status
preparation_observation_status s observation action =
    maybe s.planning none λ (planning : PlanningAction).
      let mapped_outputs = map (λ (m : OutputMapping). m.live_output) planning.input_key.mapping in
      if planning.plan_hash != some action.plan_hash
      then none
      else if s.physical_token != some observation.physical_token
          || not (same_set observation.kernel_connected_outputs mapped_outputs)
          || not (same_set observation.x_connected_outputs mapped_outputs)
          || not (same_set observation.x_active_outputs planning.input_key.active_outputs)
          || not (elem action.profile observation.current_profiles)
          || any misidentified observation.connector_identities
      then none
      else if observation.exact_profile == some action.profile
          && observation.observation_key == action.observation_key
      then some ObservationStatus.exact
      else output_status observation
          (map (λ (b : BaseIdentityMatch). b.output)
            (keep (λ (b : BaseIdentityMatch). b.profile == action.profile)
              observation.base_identity_profiles))
          false mapped_outputs

-- `_transition_key`
unfoldable pub transition_key : State → String → ObservationKey → TransitionKey
transition_key s profile key = record {
  value = decimal s.physical_epoch <> "|" <> profile <> "|" <> key.value;
}

-- `_planning_input_key`; an empty tuple is false in the `or`.
unfoldable pub planning_input_key : State → ProfileMatch → ObservationKey → PlanningInputKey
planning_input_key s target key = record {
  physical_epoch = s.physical_epoch;
  profile = target.profile;
  layout = target.layout;
  observation_key = key;
  mapping = target.mapping;
  active_outputs = target.active_outputs;
  configuration_hashes =
      if nonempty target.planning_configuration_hashes
      then target.planning_configuration_hashes
      else target.configuration_hashes;
}
