-- ===== src/Controller/Context.antt =====
-- The proof that a worker's request carries: `_worker_request_context` of
-- .local/lib/monitor-controller/monitor_controller/runtime/controller.py.
use desktop_config.Prelude.{
  Bool, List, Result, String, [], elem, err, false, find, keep, list_eq, ltb, maybe, nat_eq, none,
  not, ok, option_eq, some, string_eq, true, value_error, ◌!=◌, ◌&&◌, ◌-◌, ◌==◌, ◌>>=◌, ◌||◌, ◌∷◌,
}
use desktop_config.Controller.Dispatch.{
  DispatchEffect, WorkerRequestContext, effect_generation, effect_observation_key,
}
use desktop_config.Model.Action.{PlanningAction}
use desktop_config.Model.Effect.{ActivateProbe, ApplyProfile, FinalizeDesktop}
use desktop_config.Model.Enums.{
  ActionLifecycle, PreparationState, action_lifecycle_eq, edid_integrity_eq, preparation_state_eq,
  probe_admissible_edid_integrities,
}
use desktop_config.Model.Identity.{
  CandidateSelection, ObservationKey, OutputMapping, PlanHash, TransitionId, event_generation_eq,
  observation_key_eq, output_mapping_eq, physical_token_eq, plan_hash_eq, transition_id_eq,
  transition_key_eq,
}
use desktop_config.Model.Observation.{
  BaseIdentityMatch, CanonicalObservation, EdidEvidence, ProfileMatch, event_generation, valid,
}
use desktop_config.Model.State.{State}

-- `if missing: raise ValueError(msg)`, then the rest
abbrev pub unless : {A : Type 0} → Bool → String → Result A → Result A
unless true message rest = err (value_error message)
unless false message rest = rest

-- The condition of the first guard
unfoldable pub lacks_observation : State → CanonicalObservation → DispatchEffect → Bool
lacks_observation s o effect =
    not (valid o)
    || o.observation_key != effect_observation_key effect
    || event_generation o != effect_generation effect
    || s.physical_token != some o.physical_token

-- The fields that every context takes from the state and the observation
abbrev pub plain_context : State → CanonicalObservation → List OutputMapping → WorkerRequestContext
plain_context s o mapping = record {
  physical_epoch = s.physical_epoch;
  physical_token = o.physical_token;
  output_mapping = mapping;
  expected_topology = record {
    kernel_connected_outputs = o.kernel_connected_outputs;
    kernel_external_outputs = o.kernel_external_outputs;
    x_connected_outputs = o.x_connected_outputs;
    x_active_outputs = o.x_active_outputs;
  };
  layout = none;
  planning_action_id = none;
  preparation_action_id = none;
  proof_duration_ms = none;
  probe_base_hash = none;
  probe_edid_integrity = none;
  profile_configuration_hashes = [];
}

-- `len(matches) != 1` of a tuple
abbrev pub not_single {ℓ} : {A : Type ℓ} → List A → Bool
not_single (x ∷ []) = false
not_single _ = true

-- The branch for `ActivateProbe`
unfoldable pub probe_context :
    State → CanonicalObservation → ActivateProbe → Result WorkerRequestContext
probe_context s o effect =
    let problem : String = "probe effect lacks exact broken-extension identity proof" in
    unless (effect.key.physical_epoch != s.physical_epoch)
      "probe effect physical epoch is no longer current"
      (maybe o.probe_candidate (err (value_error problem)) λ candidate.
        unless
          (candidate.output != effect.output
            || candidate.internal_output != effect.internal_output
            || candidate.preferred_mode != effect.preferred_mode
            || candidate.profile != effect.key.profile
            || not_single (
                keep
                  (λ (m : BaseIdentityMatch).
                    m.profile == effect.key.profile && m.output == effect.output)
                  o.base_identity_profiles))
          problem
          (maybe (find (λ (e : EdidEvidence). e.output == effect.output) o.edid_integrity)
            (err (value_error problem))
            λ edid. maybe edid.base_hash (err (value_error problem)) λ base_hash.
              unless (not (elem edid.integrity probe_admissible_edid_integrities)) problem (
                ok (record (plain_context s o []) {
                  probe_base_hash = some base_hash;
                  probe_edid_integrity = some edid.integrity;
                }))))

-- The branch for `ApplyProfile`
unfoldable pub application_context :
    State → CanonicalObservation → ApplyProfile → Result WorkerRequestContext
application_context s o effect =
    let problem : String = "application effect lacks one exact saved-profile proof" in
    let matching =
      keep
        (λ (m : ProfileMatch). m.profile == effect.profile && m.mapping == effect.mapping.outputs)
        o.eligible_profiles in
    unless
      (effect.key.physical_epoch != s.physical_epoch
        || effect.mapping.physical_epoch != s.physical_epoch
        || effect.mapping.observation_key != effect.observation_key)
      "application effect proof is outside its admitted epoch"
      (elim matching [
        | m ∷ [] ↦ ok (record (plain_context s o effect.mapping.outputs) {
          profile_configuration_hashes = m.configuration_hashes;
        })
        | _ ↦ err (value_error problem)
      ])

-- What both desktop effects have to prove
unfoldable pub lacks_plan :
    State
    → CanonicalObservation
    → CandidateSelection
    → PlanningAction
    → ObservationKey
    → TransitionId
    → PlanHash
    → String
    → Bool
lacks_plan s o candidate planning observation_key transition_id plan_hash profile =
    candidate.observation_key != observation_key
    || candidate.mapping.physical_epoch != s.physical_epoch
    || planning.transition_id != transition_id
    || planning.plan_hash != some plan_hash
    || planning.profile != profile
    || planning.input_key.physical_epoch != s.physical_epoch
    || planning.input_key.observation_key != observation_key
    || planning.input_key.mapping != candidate.mapping.outputs
    || planning.input_key.active_outputs != o.x_active_outputs

-- The part of the last branch that `PrepareDesktop` and `FinalizeDesktop` share
unfoldable pub desktop_context :
    State
    → CanonicalObservation
    → ObservationKey
    → TransitionId
    → PlanHash
    → String
    → Result WorkerRequestContext
unfolding lacks_plan
desktop_context s o observation_key transition_id plan_hash profile =
    let problem : String = "desktop effect lacks its exact mapping and plan proof" in
    maybe s.candidate (err (value_error problem)) λ candidate.
      maybe s.planning (err (value_error problem)) λ planning.
        unless (lacks_plan s o candidate planning observation_key transition_id plan_hash profile)
          problem
          (ok (record (plain_context s o candidate.mapping.outputs) {
            layout = some planning.input_key.layout;
            planning_action_id = some planning.action_id;
          }))

-- What `FinalizeDesktop` has to prove besides
unfoldable pub finalization_context :
    State
    → CanonicalObservation
    → FinalizeDesktop
    → WorkerRequestContext
    → Result WorkerRequestContext
finalization_context s o effect context =
    let problem : String = "finalization effect lacks matching prepared proof" in
    unless (s.preparation_state != PreparationState.prepared) problem (
      maybe s.preparation (err (value_error problem)) λ preparation.
        maybe s.verify_since_ms (err (value_error problem)) λ since_ms.
          unless
            (preparation.lifecycle != ActionLifecycle.completed
              || preparation.transition_id != effect.transition_id
              || preparation.transition_key != effect.transition_key
              || preparation.plan_hash != effect.plan_hash
              || preparation.profile != effect.profile
              || ltb o.observed_at_ms since_ms)
            problem
            (ok (record context {
              preparation_action_id = some preparation.action_id;
              proof_duration_ms = some (o.observed_at_ms - since_ms);
            })))

-- The branches by the effect's class
unfoldable pub effect_context :
    State → CanonicalObservation → DispatchEffect → Result WorkerRequestContext
unfolding probe_context application_context desktop_context finalization_context
effect_context s o (DispatchEffect.probe e) = probe_context s o e
effect_context s o (DispatchEffect.apply e) = application_context s o e
effect_context s o (DispatchEffect.prepare e) =
    desktop_context s o e.observation_key e.transition_id e.plan_hash e.profile
effect_context s o (DispatchEffect.finalize e) = do
  context ← desktop_context s o e.observation_key e.transition_id e.plan_hash e.profile
  finalization_context s o e context

-- `_worker_request_context`
unfoldable pub worker_request_context : State → DispatchEffect → Result WorkerRequestContext
unfolding effect_context lacks_observation
worker_request_context s effect =
    let problem : String = "admitted effect lacks its exact persisted observation proof" in
    maybe s.latest_observation (err (value_error problem))
      λ o. unless (lacks_observation s o effect) problem (effect_context s o effect)
