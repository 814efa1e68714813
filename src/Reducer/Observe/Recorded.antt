-- ===== src/Reducer/Observe/Recorded.antt =====
-- What `_observe` of .local/lib/monitor-controller/monitor_controller/reducer.py
-- records of a sample.
use desktop_config.Prelude.{
  Bool, [], elem, false, if◌then◌else◌, leb, ltb, max, maybe, none, not, option_eq, some, string_eq,
  true, ◌&&◌, ◌==◌, ◌||◌, ◌∷◌,
}
use desktop_config.Model.Enums.{
  ObservationInvalidityReason, action_lifecycle_eq, controller_phase_eq,
  observation_invalidity_reason_eq, preparation_state_eq, profile_scope_eq,
}
use desktop_config.Model.Identity.{observation_key_eq, physical_token_eq}
use desktop_config.Model.Observation.{
  CanonicalObservation, event_generation, has_external_hardware, valid,
}
use desktop_config.Model.State.{State}
use desktop_config.Reducer.Classify.{internal_candidate}

-- The observation is older than what the state knows.
abbrev pub outdated : State → CanonicalObservation → Bool
outdated s observation = maybe s.latest_observation false λ (prior : CanonicalObservation).
    leb observation.observation_generation.value s.observation_generation.value
    || ltb observation.observed_at_ms prior.observed_at_ms
    || ltb (event_generation observation).value s.event_generation.value

-- `profile_evidence_can_dirty_desktop`, of either sample
abbrev pub can_dirty_desktop : CanonicalObservation → Bool
can_dirty_desktop observation =
    valid observation
    || maybe observation.invalidity_reason true (λ (reason : ObservationInvalidityReason). not (
        elem reason (
          ObservationInvalidityReason.command_timed_out ∷ ObservationInvalidityReason.parse_failed
          ∷ [])))

-- `finalized_profile_returned`
abbrev pub finalized_profile_returned : State → CanonicalObservation → Bool
finalized_profile_returned s observation = maybe s.desktop_finalized_profile false λ profile.
    maybe s.latest_observation false λ (prior : CanonicalObservation).
      can_dirty_desktop observation
      && can_dirty_desktop prior
      && prior.physical_token == observation.physical_token
      && elem profile observation.current_profiles
      && not (elem profile prior.current_profiles)

-- The `replace` that records the observation, and the candidate that external hardware revokes.
unfoldable pub record_observation : State → CanonicalObservation → State
record_observation s observation = record s {
  latest_observation = some observation;
  observation_generation = record {
    value = max s.observation_generation.value observation.observation_generation.value;
  };
  event_generation = record {
    value = max s.event_generation.value (event_generation observation).value;
  };
  desktop_finalized_profile =
      if finalized_profile_returned s observation then none else s.desktop_finalized_profile;
  candidate =
      if has_external_hardware observation && internal_candidate s then none else s.candidate;
}
