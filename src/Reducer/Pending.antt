-- ===== src/Reducer/Pending.antt =====
-- What an observation does to an action that is admitted and not yet dispatched, from
-- .local/lib/monitor-controller/monitor_controller/reducer.py. Classification and the cancelling of
-- an admission call one another: here `classify` is the later call, which `Classify` passes in.
use desktop_config.Prelude.{
  Bool, Option, Result, [], elem, false, if◌then◌else◌, maybe, none, ok, option_eq, some, string_eq,
  ◌!=◌, ◌&&◌, ◌++◌, ◌==◌, ◌>>=◌, ◌∷◌,
}
use desktop_config.Model.Action.{
  ActionRecord, ApplicationAction, FinalizationAction, PreparationAction, ProbeAction,
}
use desktop_config.Model.Effect.{Decision}
use desktop_config.Model.Enums.{
  ActionLifecycle, ControllerPhase, PreparationState, controller_phase_eq, preparation_state_eq,
}
use desktop_config.Model.Identity.{observation_key_eq, physical_token_eq}
use desktop_config.Model.Observation.{
  CanonicalObservation, ProbeCandidate, ProfileMatch, event_generation,
}
use desktop_config.Model.State.{State}
use desktop_config.Reducer.Admission.{activate_probe, apply_profile}
use desktop_config.Reducer.Epochs.{reset_for_epoch}
use desktop_config.Reducer.Outcome.{decision, ◌<|>◌}
use desktop_config.Reducer.Targets.{unique_target}
use desktop_config.Reducer.Tombstones.{append_tombstone}
use desktop_config.Reducer.Verification.{finalize_desktop, prepare_desktop}

-- `_same_exact_finalization`
unfoldable pub same_exact_finalization : State → CanonicalObservation → Bool
same_exact_finalization s observation = maybe s.finalization false λ (action : FinalizationAction).
    s.physical_token == some observation.physical_token
    && observation.exact_profile == some action.profile
    && elem action.profile observation.current_profiles
    && observation.observation_key == action.observation_key

-- The probe is still the candidate of this topology.
abbrev pub probe_still_due : State → CanonicalObservation → ProbeAction → Bool
probe_still_due s observation action =
    maybe observation.probe_candidate false λ (candidate : ProbeCandidate).
      s.physical_token == some observation.physical_token
      && action.key.observation_key == observation.observation_key
      && candidate.profile == action.key.profile
      && candidate.output == action.output
      && candidate.internal_output == action.internal_output
      && candidate.preferred_mode == action.preferred_mode

-- The application is still of the target of this topology.
abbrev pub application_still_due : State → CanonicalObservation → ApplicationAction → Bool
application_still_due s observation action =
    maybe (unique_target observation) false λ (target : ProfileMatch).
      s.physical_token == some observation.physical_token
      && target.profile == action.profile
      && observation.observation_key == action.key.observation_key

-- The preparation is still of the exact and current profile.
abbrev pub preparation_still_due : State → CanonicalObservation → PreparationAction → Bool
preparation_still_due s observation action =
    s.physical_token == some observation.physical_token
    && observation.exact_profile == some action.profile
    && elem action.profile observation.current_profiles
    && observation.observation_key == action.observation_key

module _ (classify : State → CanonicalObservation → Result Decision) where
  -- `_reclassify_cancelled_admission`
  unfoldable pub reclassify_cancelled_admission : State → CanonicalObservation → Result Decision
  reclassify_cancelled_admission s observation = do
    (s1, epoch_effects) ←
        (if s.physical_token != some observation.physical_token
          then reset_for_epoch s observation observation.observed_at_ms
          else ok (s, []))
    result ← classify s1 observation
    decision result.state (epoch_effects ++ result.effects)

  unfoldable pub observe_pending_probe :
      State → CanonicalObservation → ProbeAction → Result Decision
  unfolding reclassify_cancelled_admission
  observe_pending_probe s observation action =
      let renewed = record action { admitted_event_generation = event_generation observation } in
      if probe_still_due s observation action
      then decision
          (record s { probe = some renewed; next_timer_ms = some observation.observed_at_ms })
          (activate_probe renewed observation.observation_key ∷ [])
      else do
        s1 ← append_tombstone s (ActionRecord.probe action) ActionLifecycle.cancelled
        reclassify_cancelled_admission
            (record s1 { phase = ControllerPhase.discover_fast; probe = none }) observation

  unfoldable pub observe_pending_application :
      State → CanonicalObservation → ApplicationAction → Result Decision
  unfolding reclassify_cancelled_admission
  observe_pending_application s observation action =
      let renewed = record action { admitted_event_generation = event_generation observation } in
      if application_still_due s observation action
      then decision
          (record s { application = some renewed; next_timer_ms = some observation.observed_at_ms })
          (apply_profile renewed observation.observation_key ∷ [])
      else do
        s1 ← append_tombstone s (ActionRecord.application action) ActionLifecycle.cancelled
        reclassify_cancelled_admission
            (record s1 { phase = ControllerPhase.discover_fast; application = none }) observation

  unfoldable pub observe_pending_preparation :
      State → CanonicalObservation → PreparationAction → Result Decision
  unfolding reclassify_cancelled_admission
  observe_pending_preparation s observation action =
      let renewed = record action { admitted_event_generation = event_generation observation } in
      if preparation_still_due s observation action
      then decision
          (record s { preparation = some renewed; next_timer_ms = some observation.observed_at_ms })
          (prepare_desktop renewed observation.observation_key ∷ [])
      else do
        s1 ← append_tombstone s (ActionRecord.preparation action) ActionLifecycle.cancelled
        reclassify_cancelled_admission
            (record s1 {
              preparation_state = PreparationState.prepare_idle;
              preparation = none;
              verify_since_ms = none;
            })
            observation

  unfoldable pub observe_pending_finalization :
      State → CanonicalObservation → FinalizationAction → Result Decision
  unfolding reclassify_cancelled_admission
  observe_pending_finalization s observation action =
      let renewed = record action { admitted_event_generation = event_generation observation } in
      if same_exact_finalization s observation
      then decision
          (record s {
            finalization = some renewed;
            next_timer_ms = some observation.observed_at_ms;
          })
          (finalize_desktop renewed observation.observation_key ∷ [])
      else do
        s1 ← append_tombstone s (ActionRecord.finalization action) ActionLifecycle.cancelled
        reclassify_cancelled_admission
            (record s1 {
              phase = ControllerPhase.discover_fast;
              finalization = none;
              verify_since_ms = none;
            })
            observation

  -- `_observe_pending_action`; `none` where no admitted action waits for its dispatch.
  unfoldable pub observe_pending_action : State → CanonicalObservation → Option (Result Decision)
  observe_pending_action s observation =
      (if s.phase == ControllerPhase.probe_pending
        then maybe s.probe none (λ a. some (observe_pending_probe s observation a))
        else none)
      <|> (if s.phase == ControllerPhase.apply_pending
          then maybe s.application none (λ a. some (observe_pending_application s observation a))
          else none)
      <|> (if s.preparation_state == PreparationState.prepare_pending
          then maybe s.preparation none (λ a. some (observe_pending_preparation s observation a))
          else none)
      <|> (if s.phase == ControllerPhase.finalize_pending
          then maybe s.finalization none (λ a. some (observe_pending_finalization s observation a))
          else none)
