-- ===== src/Guards/Boots.antt =====
-- The answer of `reduce` to a change of the boot.
use desktop_config.Prelude.{[], arith, false, map, none, ok, refl, some, true, unique, ℕ, ◌∷◌, ◌≡◌}
use desktop_config.Invariants.Authority.{check_action_authorization, check_observation_authority}
use desktop_config.Invariants.Checks.{assert_controller_invariants}
use desktop_config.Invariants.Identities.{
  check_action_id, check_action_identities, check_worker_acknowledgements,
}
use desktop_config.Invariants.Phases.{
  check_phase_relationships, check_planning_relationships, check_planning_slot,
  check_preparation_slot, check_slot,
}
use desktop_config.Invariants.Rules.{actions, each}
use desktop_config.Invariants.Safety.{
  check_attempt_history, check_continuous_proof, check_no_laptop_fallback,
  check_numbered_safety_rules, check_probe_is_not_authorization,
}
use desktop_config.Model.Action.{ActionTombstone}
use desktop_config.Model.Effect.{Effect}
use desktop_config.Model.Enums.{
  ControllerPhase, ControllerPhase-discrete, PlanningState, PlanningState-discrete,
  PreparationState, PreparationState-discrete, WakeReason,
}
use desktop_config.Model.Event.{BootChanged, Event}
use desktop_config.Model.Identity.{BootId, action_id_eq}
use desktop_config.Model.State.{State}
use desktop_config.Reducer.Hints.{boot_changed, forget_boot}
use desktop_config.Reducer.Outcome.{decision, request_observation}
use desktop_config.Reducer.Reduce.{admit_event, handle, reduce}
use desktop_config.Safety.Rules.{Passes, join_checks, split_checks}

-- What a change of the boot leaves of a state: the counters, the identities and the tombstones. No
-- evidence, no action, no attempt and no generation of the old boot remains.
pub record Forgotten (s : State) (e : BootChanged) (t : State) : Type 0 where
  pub boot : t.boot_id ≡ e.metadata.boot_id
  pub recovering : t.phase ≡ ControllerPhase.recovering
  pub due : t.next_timer_ms ≡ some e.metadata.processed_at_ms
  pub no_actions : actions t ≡ []
  pub no_planning :
      (t.planning_state ≡ PlanningState.plan_idle)
      × (t.preparation_state ≡ PreparationState.prepare_idle)
  pub no_workers : t.recovery_units ≡ []
  pub no_attempts : (t.attempted_probe_keys ≡ []) × (t.attempted_application_keys ≡ [])
  pub no_retries : (t.immediate_retry_used_profiles ≡ []) × (t.backoff_index ≡ 0)
  pub no_evidence :
      (t.latest_observation ≡ none)
      × (t.physical_token ≡ none)
      × (t.candidate ≡ none)
      × (t.last_drm_at_ms ≡ none)
      × (t.unknown_key ≡ none)
      × (t.unknown_since_ms ≡ none)
      × (t.unplug_proof ≡ none)
  pub no_proof : (t.verify_since_ms ≡ none) × (t.aggressive_deadline_ms ≡ none)
  pub no_profiles : (t.stable_x_profile ≡ none) × (t.desktop_finalized_profile ≡ none)
  pub unfinalized : (t.desktop_finalization_required ≡ true) × (t.baseline_adoption ≡ false)
  pub no_intent : t.external_intent ≡ false
  pub no_generations : (t.observation_generation.value ≡ 0) × (t.event_generation.value ≡ 0)
  pub kept :
      (t.controller_instance ≡ s.controller_instance)
      × (t.display_identity ≡ s.display_identity)
      × (t.action_tombstones ≡ s.action_tombstones)
      × (t.action_sequence_high_water ≡ s.action_sequence_high_water)
      × (t.transition_sequence_high_water ≡ s.transition_sequence_high_water)
      × (t.physical_epoch ≡ s.physical_epoch)
      × (t.reconcile_epoch ≡ s.reconcile_epoch)

module _ (s : State) (valid_state : assert_controller_invariants s ≡ ok tt) where
  tombstone_ids-unique :
      Passes s → unique (map (λ (t : ActionTombstone). t.action_id) s.action_tombstones) ≡ true
  unfolding check_action_identities
  tombstone_ids-unique p = let q = p.identities in ground arith

  tombstone_ids-checked :
      Passes s
      → each (check_action_id s) (map (λ (t : ActionTombstone). t.action_id) s.action_tombstones)
        ≡ ok tt
  unfolding check_action_identities
  tombstone_ids-checked p = let q = p.identities in ground arith

  forget_boot-identities :
      (b : BootId) (t : ℕ) → Passes s → check_action_identities (forget_boot s b t) ≡ ok tt
  unfolding check_action_identities forget_boot check_action_id ControllerPhase-discrete
  forget_boot-identities b t p = rw (tombstone_ids-unique p, tombstone_ids-checked p)

  forget_boot-Passes : (b : BootId) (t : ℕ) → Passes s → Passes (forget_boot s b t)
  unfolding forget_boot check_phase_relationships check_planning_relationships check_slot
      check_planning_slot check_preparation_slot check_worker_acknowledgements
      check_action_authorization check_numbered_safety_rules check_no_laptop_fallback
      check_probe_is_not_authorization check_continuous_proof check_attempt_history
      check_observation_authority ControllerPhase-discrete PlanningState-discrete
      PreparationState-discrete
  forget_boot-Passes b t p = record {
    phases = refl;
    planning = refl;
    identities = forget_boot-identities b t p;
    workers = refl;
    observation = refl;
    authorization = refl;
    safety = refl;
    attempts = refl;
  }

  boot_changed-answers :
      (e : BootChanged)
      → e.previous_boot_id ≡ s.boot_id
      → reduce s (Event.boot_changed e)
        ≡ ok (record {
          state = forget_boot s e.metadata.boot_id e.metadata.processed_at_ms;
          effects =
              request_observation WakeReason.recovery
              ∷ Effect.schedule (record { deadline_ms = e.metadata.processed_at_ms })
              ∷ [];
        })
  unfolding reduce admit_event handle boot_changed decision
  boot_changed-answers e h =
      let q = join_checks _ (
        forget_boot-Passes e.metadata.boot_id e.metadata.processed_at_ms
          (split_checks s valid_state)) in
      ground (arith, valid_state)

  -- In a state that passes the invariants, a change from its boot to another is always answered: the
  -- answer asks for an observation at once, and its state is of the new boot and in recovery, with
  -- the identities, the counters and the tombstones of the given one, and no action, worker,
  -- attempt, evidence, generation or profile of the old boot; the desktop is to be finalized again.
  pub boot_changed-forgets :
      (e : BootChanged)
      → e.previous_boot_id ≡ s.boot_id
      → (t : State) × (reduce s (Event.boot_changed e)
          ≡ ok (record {
            state = t;
            effects =
                request_observation WakeReason.recovery
                ∷ Effect.schedule (record { deadline_ms = e.metadata.processed_at_ms })
                ∷ [];
          }))
        × Forgotten s e t
  unfolding forget_boot
  boot_changed-forgets e h = (
    forget_boot s e.metadata.boot_id e.metadata.processed_at_ms,
    boot_changed-answers e h,
    record {
      boot = refl;
      recovering = refl;
      due = refl;
      no_actions = refl;
      no_planning = (refl, refl);
      no_workers = refl;
      no_attempts = (refl, refl);
      no_retries = (refl, refl);
      no_evidence = (refl, refl, refl, refl, refl, refl, refl);
      no_proof = (refl, refl);
      no_profiles = (refl, refl);
      unfinalized = (refl, refl);
      no_intent = refl;
      no_generations = (refl, refl);
      kept = (refl, refl, refl, refl, refl, refl, refl);
    },
  )
