-- ===== src/Safety/Rules.antt =====
-- The checks of the central invariants imply the numbered safety rules.
use mathlib.Core.Option
use desktop_config.Prelude.{
  Bool, List, Option, Option-cases, Result, [], arith, false, inl, inr, is_some, keep, length,
  maybe, none, ok, refl, some, somes, true, ℕ, ◌&&◌, ◌+◌, ◌==◌, ◌>>◌, ◌↔◌, ◌∷◌, ◌≡◌, ◌≢◌, ◌≤◌,
}
use desktop_config.Invariants.Authority.{
  check_action_authorization, check_finalization, check_latest_observation,
  check_observation_authority,
}
use desktop_config.Invariants.Checks.{assert_controller_invariants}
use desktop_config.Invariants.Identities.{check_action_identities, check_worker_acknowledgements}
use desktop_config.Invariants.Phases.{
  check_phase_relationships, check_planning_relationships, check_planning_slot,
  check_preparation_slot, check_prepared_plan, expected_planning, expected_preparation,
}
use desktop_config.Invariants.Rules.{each, given, in_flight, mutators, require, when}
use desktop_config.Invariants.Safety.{
  check_attempt_history, check_continuous_proof, check_durable_dispatch, check_no_laptop_fallback,
  check_numbered_safety_rules, check_probe_is_not_authorization, check_unplug_proof,
}
use desktop_config.Model.Action.{
  ActionRecord, FinalizationAction, PlanningAction, PreparationAction,
}
use desktop_config.Model.Enums.{
  ControllerPhase, PlanningState, PreparationState, planning_state_eq, preparation_state_eq,
}
use desktop_config.Model.State.{State}
use desktop_config.Safety.Rows.{each-somes, length-keep-somes, weight}
use desktop_config.Safety.Spec.{
  ContinuousProof, ExplicitApplication, ExplicitUnplug, Flying, HasWorker, IndependentDesktop,
  IsSafe, KeyedDesktop, NewFinalization, NoAbandonment, NoDuplicate, NoLaptopFallback, ProbeAlone,
  Slot, lifecycle_at,
}

-- Each check of the row succeeded.
pub record Passes (s : State) : Type 0 where
  pub phases : check_phase_relationships s ≡ ok tt
  pub planning : check_planning_relationships s ≡ ok tt
  pub identities : check_action_identities s ≡ ok tt
  pub workers : check_worker_acknowledgements s ≡ ok tt
  pub observation : check_observation_authority s ≡ ok tt
  pub authorization : check_action_authorization s ≡ ok tt
  pub safety : check_numbered_safety_rules s ≡ ok tt
  pub attempts : check_attempt_history s ≡ ok tt

pub split_checks : (s : State) → assert_controller_invariants s ≡ ok tt → Passes s
unfolding assert_controller_invariants
split_checks s h = ground arith

pub join_checks : (s : State) → Passes s → assert_controller_invariants s ≡ ok tt
unfolding assert_controller_invariants
join_checks s p = ground arith

fifth : (a b c d e : Result (Unit {0})) → (do a; b; c; d; e) ≡ ok tt → e ≡ ok tt
fifth a b c d e h = ground arith

idle_both :
    (b : Bool) (x : PlanningState) (y : PreparationState)
    → b ≡ true
    → when b (
        require
          (x == PlanningState.plan_idle && y == PreparationState.prepare_idle)
          "startup baseline adoption forbids planning and preparation")
      ≡ ok tt
    → (x ≡ PlanningState.plan_idle) × (y ≡ PreparationState.prepare_idle)
idle_both b x y e h = (ground arith, ground arith)

idle_plan :
    (a : Option PlanningAction) (state : PlanningState)
    → check_planning_slot
        (Option.map (λ (a : PlanningAction). a.lifecycle) a)
        (expected_planning state)
      ≡ ok tt
    → (a ≡ none) ↔ (state ≡ PlanningState.plan_idle)
unfolding check_planning_slot
idle_plan a state h = (λ e. ground arith, λ e. ground arith)

idle_preparation :
    (a : Option PreparationAction) (state : PreparationState)
    → check_preparation_slot
        (Option.map (λ (a : PreparationAction). a.lifecycle) a)
        (expected_preparation state)
      ≡ ok tt
    → (a ≡ none) ↔ (state ≡ PreparationState.prepare_idle)
unfolding check_preparation_slot
idle_preparation a state h = (λ e. ground arith, λ e. ground arith)

module _ (s : State) (p : Passes s) where
  no_fallback : check_no_laptop_fallback s ≡ ok tt
  unfolding check_numbered_safety_rules
  no_fallback = ground (arith, p.safety)

  NoLaptopFallback-of : NoLaptopFallback s
  unfolding check_no_laptop_fallback
  NoLaptopFallback-of = record {
    candidate = λ o c e x f. ground (arith, no_fallback);
    application = λ o a e x f. ground (arith, no_fallback);
  }

  alone : check_probe_is_not_authorization s ≡ ok tt
  unfolding check_numbered_safety_rules
  alone = ground (arith, p.safety)

  ProbeAlone-of : ProbeAlone s
  unfolding check_probe_is_not_authorization
  ProbeAlone-of h k = ground (arith, alone)

  ExplicitApplication-of : ExplicitApplication s
  unfolding check_numbered_safety_rules
  ExplicitApplication-of a e = ground (arith, p.safety)

  NoDuplicate-of : NoDuplicate s
  unfolding check_numbered_safety_rules check_attempt_history
  NoDuplicate-of = record {
    probe_keys = ground (arith, p.safety);
    application_keys = ground (arith, p.safety);
    probe = λ a e l u. ground (arith, p.attempts);
    application = λ a e l u. ground (arith, p.attempts);
  }

  proof_ok : check_continuous_proof s ≡ ok tt
  unfolding check_numbered_safety_rules
  proof_ok = ground (arith, p.safety)

  ContinuousProof-of : ContinuousProof s
  unfolding check_continuous_proof
  ContinuousProof-of h k = elim (Option-cases s.latest_observation) [
    | inl e ↦ absurd (ground (arith, proof_ok))
    | inr (o, e) ↦ elim (Option-cases s.candidate) [
      | inl f ↦ absurd (ground (arith, proof_ok))
      | inr (c, f) ↦ (
        o,
        c,
        e,
        f,
        ground (arith, proof_ok),
        ground (arith, proof_ok),
        ground (arith, proof_ok),
        ground (arith, proof_ok),
      )
    ]
  ]

  planning_slot :
      s.phase ≢ ControllerPhase.recovering
      → check_planning_slot
          (Option.map (λ (a : PlanningAction). a.lifecycle) s.planning)
          (expected_planning s.planning_state)
        ≡ ok tt
  unfolding check_planning_relationships
  planning_slot h = ground (arith, p.planning)

  preparation_slot :
      s.phase ≢ ControllerPhase.recovering
      → check_preparation_slot
          (Option.map (λ (a : PreparationAction). a.lifecycle) s.preparation)
          (expected_preparation s.preparation_state)
        ≡ ok tt
  unfolding check_planning_relationships
  preparation_slot h = ground (arith, p.planning)

  -- The checks in the row of the planning relationships.
  abbrev plan_check : Result (Unit {0})
  plan_check =
      check_planning_slot (Option.map (λ (a : PlanningAction). a.lifecycle) s.planning)
        (expected_planning s.planning_state)

  abbrev ready_check : Result (Unit {0})
  ready_check = when (s.planning_state == PlanningState.plan_ready) (
      require (maybe s.planning false (λ (planning : PlanningAction). is_some planning.plan_hash))
        "ready planning state requires a staged plan hash")

  abbrev staged_check : Result (Unit {0})
  staged_check =
      check_preparation_slot (Option.map (λ (a : PreparationAction). a.lifecycle) s.preparation)
        (expected_preparation s.preparation_state)

  abbrev prepared_check : Result (Unit {0})
  prepared_check = given s.preparation (check_prepared_plan s)

  abbrev baseline_check : Result (Unit {0})
  baseline_check = when s.baseline_adoption (
      require
        (s.planning_state == PlanningState.plan_idle
          && s.preparation_state == PreparationState.prepare_idle)
        "startup baseline adoption forbids planning and preparation")

  baseline_ok : s.phase ≢ ControllerPhase.recovering → baseline_check ≡ ok tt
  unfolding check_planning_relationships
  baseline_ok h =
      fifth plan_check ready_check staged_check prepared_check baseline_check
        (ground (arith, p.planning))

  no_baseline :
      s.phase ≢ ControllerPhase.recovering
      → s.baseline_adoption ≡ true
      → (s.planning_state ≡ PlanningState.plan_idle)
        × (s.preparation_state ≡ PreparationState.prepare_idle)
  no_baseline h b =
      idle_both s.baseline_adoption s.planning_state s.preparation_state b (baseline_ok h)

  planning_idle :
      s.phase ≢ ControllerPhase.recovering
      → (s.planning ≡ none) ↔ (s.planning_state ≡ PlanningState.plan_idle)
  planning_idle h = idle_plan s.planning s.planning_state (planning_slot h)

  preparation_idle :
      s.phase ≢ ControllerPhase.recovering
      → (s.preparation ≡ none) ↔ (s.preparation_state ≡ PreparationState.prepare_idle)
  preparation_idle h = idle_preparation s.preparation s.preparation_state (preparation_slot h)

  IndependentDesktop-of : IndependentDesktop s
  IndependentDesktop-of = record {
    planning = planning_idle;
    preparation = preparation_idle;
    baseline =
        λ h b. let (q, r) = no_baseline h b in ((planning_idle h).1 q, (preparation_idle h).1 r);
  }

  NewFinalization-of : NewFinalization s
  unfolding check_numbered_safety_rules
  NewFinalization-of a e = ground (arith, p.safety)

  ExplicitUnplug-of : ExplicitUnplug s
  unfolding check_numbered_safety_rules check_unplug_proof
  ExplicitUnplug-of q e = ground (arith, p.safety)

  NoAbandonment-of : NoAbandonment s
  unfolding check_observation_authority check_latest_observation
  NoAbandonment-of o e v x n ph = ground (arith, p.observation)

  in_flight_count : length (keep in_flight (mutators s)) ≤ 1
  unfolding check_worker_acknowledgements
  in_flight_count = ground (arith, p.workers)

  -- The action at a slot, as a record of the union.
  abbrev record_at : Slot → Option ActionRecord
  record_at Slot.probe = Option.map ActionRecord.probe s.probe
  record_at Slot.application = Option.map ActionRecord.application s.application
  record_at Slot.preparation = Option.map ActionRecord.preparation s.preparation
  record_at Slot.finalization = Option.map ActionRecord.finalization s.finalization

  -- The entries of the row behind each slot's.
  abbrev behind : Slot → List (Option ActionRecord)
  behind Slot.probe =
      record_at Slot.application ∷ record_at Slot.preparation ∷ record_at Slot.finalization ∷ []
  behind Slot.application = record_at Slot.preparation ∷ record_at Slot.finalization ∷ []
  behind Slot.preparation = record_at Slot.finalization ∷ []
  behind Slot.finalization = []

  abbrev busy : Slot → ℕ
  busy k = weight in_flight (record_at k)

  busy_total :
      busy Slot.probe + busy Slot.application + busy Slot.preparation + busy Slot.finalization ≤ 1
  busy_total = omega (
    arith,
    in_flight_count,
    length-keep-somes in_flight (record_at Slot.probe) (behind Slot.probe),
    length-keep-somes in_flight (record_at Slot.application) (behind Slot.application),
    length-keep-somes in_flight (record_at Slot.preparation) (behind Slot.preparation),
    length-keep-somes in_flight (record_at Slot.finalization) (behind Slot.finalization),
  )

  busy_of : (k : Slot) → Flying (lifecycle_at s k) → 1 ≤ busy k
  busy_of Slot.probe f = ground arith
  busy_of Slot.application f = ground arith
  busy_of Slot.preparation f = ground arith
  busy_of Slot.finalization f = ground arith

  one_busy : (j k : Slot) → 1 ≤ busy j → 1 ≤ busy k → j ≡ k
  one_busy Slot.probe Slot.probe a b = refl
  one_busy Slot.application Slot.application a b = refl
  one_busy Slot.preparation Slot.preparation a b = refl
  one_busy Slot.finalization Slot.finalization a b = refl
  one_busy _ _ a b = absurd (omega (arith, busy_total))

  one_mutation_of : (j k : Slot) → Flying (lifecycle_at s j) → Flying (lifecycle_at s k) → j ≡ k
  one_mutation_of j k fj fk = one_busy j k (busy_of j fj) (busy_of k fk)

  durable : each check_durable_dispatch (mutators s) ≡ ok tt
  unfolding check_numbered_safety_rules
  durable = ground (arith, p.safety)

  -- The check of a slot, and of the entries behind it, from the check of a row that begins there.
  abbrev Durable : Slot → Type 0
  Durable k =
      (given (record_at k) check_durable_dispatch ≡ ok tt)
      × (each check_durable_dispatch (somes (behind k)) ≡ ok tt)

  kept_from :
      (k : Slot) → each check_durable_dispatch (somes (record_at k ∷ behind k)) ≡ ok tt → Durable k
  kept_from k h = each-somes check_durable_dispatch (record_at k) (behind k) h

  kept_application : Durable Slot.application
  kept_application = kept_from Slot.application (kept_from Slot.probe durable).1

  kept_preparation : Durable Slot.preparation
  kept_preparation = kept_from Slot.preparation kept_application.1

  kept_at : (k : Slot) → Durable k
  kept_at Slot.probe = kept_from Slot.probe durable
  kept_at Slot.application = kept_application
  kept_at Slot.preparation = kept_preparation
  kept_at Slot.finalization = kept_from Slot.finalization kept_preparation.1

  durable_of : (k : Slot) → Flying (lifecycle_at s k) → HasWorker s k
  unfolding check_durable_dispatch
  durable_of Slot.probe f = elim (Option-cases s.probe) [
    | inl e ↦ absurd (ground arith)
    | inr (a, e) ↦ (a, e, ground (arith, kept_at Slot.probe), ground (arith, kept_at Slot.probe))
  ]
  durable_of Slot.application f = elim (Option-cases s.application) [
    | inl e ↦ absurd (ground arith)
    | inr (a, e) ↦
        (a, e, ground (arith, kept_at Slot.application), ground (arith, kept_at Slot.application))
  ]
  durable_of Slot.preparation f = elim (Option-cases s.preparation) [
    | inl e ↦ absurd (ground arith)
    | inr (a, e) ↦
        (a, e, ground (arith, kept_at Slot.preparation), ground (arith, kept_at Slot.preparation))
  ]
  durable_of Slot.finalization f = elim (Option-cases s.finalization) [
    | inl e ↦ absurd (ground arith)
    | inr (a, e) ↦
        (a, e, ground (arith, kept_at Slot.finalization), ground (arith, kept_at Slot.finalization))
  ]

  preparation_of :
      (a : PreparationAction)
      → s.phase ≢ ControllerPhase.recovering
      → s.preparation ≡ some a
      → check_prepared_plan s a ≡ ok tt
  unfolding check_planning_relationships
  preparation_of a h e = ground (arith, p.planning)

  finalization_of :
      (a : FinalizationAction) → s.finalization ≡ some a → check_finalization s a ≡ ok tt
  unfolding check_action_authorization
  finalization_of a e = ground (arith, p.authorization)

  KeyedDesktop-of : KeyedDesktop s
  unfolding check_prepared_plan check_finalization
  KeyedDesktop-of = record {
    preparation = λ a h e. elim (Option-cases s.planning) [
      | inl f ↦ absurd (ground (arith, preparation_of a h e))
      | inr (q, f) ↦ (
        q,
        f,
        ground (arith, preparation_of a h e),
        ground (arith, preparation_of a h e),
        ground (arith, preparation_of a h e),
        ground (arith, preparation_of a h e),
      )
    ];
    finalization = λ a e. elim (Option-cases s.preparation) [
      | inl f ↦ absurd (ground (arith, finalization_of a e))
      | inr (q, f) ↦ (
        q,
        f,
        ground (arith, finalization_of a e),
        ground (arith, finalization_of a e),
        ground (arith, finalization_of a e),
        ground (arith, finalization_of a e),
        ground (arith, finalization_of a e),
      )
    ];
  }

  pub Passes-IsSafe : IsSafe s
  Passes-IsSafe = record {
    no_laptop_fallback = NoLaptopFallback-of;
    probe_alone = ProbeAlone-of;
    explicit_application = ExplicitApplication-of;
    no_duplicate = NoDuplicate-of;
    continuous_proof = ContinuousProof-of;
    durable_dispatch = durable_of;
    independent_desktop = IndependentDesktop-of;
    new_finalization = NewFinalization-of;
    explicit_unplug = ExplicitUnplug-of;
    no_abandonment = NoAbandonment-of;
    keyed_desktop = KeyedDesktop-of;
    one_mutation = one_mutation_of;
  }
