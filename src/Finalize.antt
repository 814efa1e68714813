-- ===== src/Finalize.antt =====
-- When the reducer lets the desktop be finalized, from `_advance_verification` of
-- .local/lib/monitor-controller/monitor_controller/reducer.py.
use desktop_config.Prelude.{
  Bool, List, String, [], any, arith, false, false≢true, inl, inr, is_none, leb, maybe, ok,
  option_eq, refl, some, string_eq, subst, sym, true, ℕ, ◌&&◌, ◌++◌, ◌+◌, ◌==◌, ◌||◌, ◌∙◌, ◌∷◌, ◌≡◌,
  ◌≢◌, ◌≤◌, ◌⊎◌,
}
use desktop_config.Invariants.Rules.{profile_stability_ms}
use desktop_config.Model.Action.{FinalizationAction, PlanningAction, PreparationAction}
use desktop_config.Model.Effect.{Decision, Effect}
use desktop_config.Model.Enums.{PreparationState, preparation_state_eq}
use desktop_config.Model.Identity.{CandidateSelection}
use desktop_config.Model.Observation.{CanonicalObservation}
use desktop_config.Model.State.{State}
use desktop_config.Reducer.Epochs.{bury_planning, discard_planning, enter_wait}
use desktop_config.Reducer.Outcome.{allocate_action, decision, quiesce, schedule}
use desktop_config.Reducer.Timing.{event_quiet_ms}
use desktop_config.Reducer.Verification.{
  admit_finalization, admit_preparation, adopt_baseline, advance_verification, await_proof,
  conclude_verification, prepare_when_ready, proof_complete, settle_finalized,
}
use desktop_config.Safety.Checked.Checks.{assert-Returns}
use desktop_config.Safety.Checked.States.{append-Returns}
use desktop_config.Safety.Returns.{
  Anything, Returns, Returns-bind, Returns-if, Returns-maybe, Returns-ok, Returns-then,
  returns_rules,
}

-- The effects that finalize the desktop.
abbrev pub finalizes : Effect → Bool
finalizes (Effect.finalize_desktop e) = true
finalizes _ = false

-- The finalization that a decision admits, and the proof that it rests on.
pub record FinalizationAdmitted (s : State) (o : CanonicalObservation) (d : Decision) : Type 0 where
  pub since : ℕ
  pub running : s.verify_since_ms ≡ some since
  pub stable : since + profile_stability_ms ≤ o.observed_at_ms
  pub quiet :
      maybe s.last_drm_at_ms true (λ drm. leb (drm + event_quiet_ms) o.observed_at_ms) ≡ true
  pub desktop : PreparationAction
  pub prepared : (s.preparation_state ≡ PreparationState.prepared) × (s.preparation ≡ some desktop)
  pub action : FinalizationAction
  pub in_slot : d.state.finalization ≡ some action
  pub same_plan :
      (action.plan_hash ≡ desktop.plan_hash) × (action.transition_id ≡ desktop.transition_id)
  pub candidate : CandidateSelection
  pub chosen : (s.candidate ≡ some candidate) × (action.profile ≡ candidate.profile)
  pub unfinalized : s.desktop_finalized_profile ≢ some action.profile

abbrev Holds : State → CanonicalObservation → Decision → Type 0
Holds s o d = (any finalizes d.effects ≡ false) ⊎ FinalizationAdmitted s o d

any-append : (p : Effect → Bool) (xs ys : List Effect) → any p (xs ++ ys) ≡ (any p xs || any p ys)
any-append p [] ys = refl
any-append p (x ∷ xs) ys = ground (arith, any-append p xs ys)

abbrev StartsNothing : State × List Effect → Type 0
StartsNothing x = any finalizes x.1 ≡ false

discard-StartsNothing : (s : State) → Returns StartsNothing (discard_planning s)
unfolding discard_planning
discard-StartsNothing s =
    Returns-maybe s.planning _ _ (λ e. Returns-ok _ refl)
      λ planning e. Returns-then _ _ (bury s planning) (λ t. Returns-ok _ refl)
  where
    bury : (s : State) (p : PlanningAction) → Returns Anything (bury_planning s p)
    bury s p = search (returns_rules, append-Returns)

module _ (s : State) (o : CanonicalObservation) where
  decision-Holds :
      (t : State) (effects : List Effect)
      → any finalizes effects ≡ false
      → Returns (Holds s o) (decision t effects)
  unfolding decision
  decision-Holds t effects h = Returns-then _ _ (assert-Returns t) (λ _. Returns-ok _ (inl h))

  schedule-Holds :
      (t : State) (at : ℕ) (effects : List Effect)
      → any finalizes effects ≡ false
      → Returns (Holds s o) (schedule t at effects)
  unfolding schedule
  schedule-Holds t at effects h = decision-Holds _ _ (rw (any-append, h) refl)

  quiesce-Holds :
      (t : State) (effects : List Effect)
      → any finalizes effects ≡ false
      → Returns (Holds s o) (quiesce t effects)
  unfolding quiesce
  quiesce-Holds t effects h = decision-Holds _ _ h

  await-Holds :
      (t : State) (b : Bool) (now_ms : ℕ) (effects : List Effect)
      → any finalizes effects ≡ false
      → Returns (Holds s o) (await_proof t b now_ms effects)
  unfolding await_proof
  await-Holds t b now_ms effects h = search (Returns-if, schedule-Holds)

  wait-Holds : (t : State) (now_ms : ℕ) → Returns (Holds s o) (enter_wait t now_ms)
  unfolding enter_wait
  wait-Holds t now_ms = search (Returns-maybe, schedule-Holds)

  settle-Holds :
      (t : State) (profile : String) (effects : List Effect)
      → any finalizes effects ≡ false
      → Returns (Holds s o) (settle_finalized t profile effects)
  unfolding settle_finalized
  settle-Holds t profile effects h =
      Returns-bind StartsNothing _ _ (discard-StartsNothing t)
        (λ x k. quiesce-Holds _ _ (rw (any-append, h, k) refl))

  admit-Holds :
      (since : ℕ) (p : PreparationAction) (c : CandidateSelection) (effects : List Effect)
      → s.verify_since_ms ≡ some since
      → proof_complete s since o.observed_at_ms ≡ true
      → s.preparation_state ≡ PreparationState.prepared
      → s.preparation ≡ some p
      → s.candidate ≡ some c
      → s.desktop_finalized_profile ≢ some c.profile
      → Returns (Holds s o) (admit_finalization s o p c.profile effects)
  unfolding admit_finalization allocate_action decision
  admit-Holds since p c effects r b q h k n = Returns-then _ _ (assert-Returns _) (λ _.
      Returns-ok _ (
        inr (record {
          since = since;
          running = r;
          stable = ground arith;
          quiet = ground arith;
          desktop = p;
          prepared = (q, h);
          action = _;
          in_slot = refl;
          same_plan = (refl, refl);
          candidate = c;
          chosen = (k, refl);
          unfinalized = n;
        })))

  module _ (since : ℕ) (c : CandidateSelection) (running : s.verify_since_ms ≡ some since)
      (chosen : s.candidate ≡ some c) where
    prepared-Holds :
        (effects : List Effect)
        → any finalizes effects ≡ false
        → Returns (Holds s o) (conclude_verification s o since c.profile effects)
    unfolding conclude_verification adopt_baseline
    prepared-Holds effects h =
        search (Returns-if, Returns-maybe, settle-Holds, quiesce-Holds, await-Holds, admits)
      where
        admits :
            (p : PreparationAction)
            → s.preparation ≡ some p
            → (proof_complete s since o.observed_at_ms
                && s.desktop_finalized_profile == some c.profile)
              ≡ false
            → (proof_complete s since o.observed_at_ms
                && s.preparation_state == PreparationState.prepared
                && is_none s.finalization)
              ≡ true
            → Returns (Holds s o) (admit_finalization s o p c.profile effects)
        admits p q n b =
            admit-Holds since p c effects running (ground arith) (ground arith) q chosen
              (ground arith)

    unprepared-Holds :
        (t : State) (effects : List Effect)
        → t.preparation_state ≢ PreparationState.prepared
        → any finalizes effects ≡ false
        → Returns (Holds s o) (conclude_verification t o since c.profile effects)
    unfolding conclude_verification adopt_baseline
    unprepared-Holds t effects n h =
        search (Returns-if, Returns-maybe, settle-Holds, quiesce-Holds, await-Holds, none_admitted)
      where
        none_admitted :
            (p : PreparationAction)
            → (proof_complete t since o.observed_at_ms
                && t.preparation_state == PreparationState.prepared
                && is_none t.finalization)
              ≡ true
            → Returns (Holds s o) (admit_finalization t o p c.profile effects)
        none_admitted p b = absurd (ground arith)

    prepares :
        (prepare_when_ready s o since c ≡ (s, []))
        ⊎ (((prepare_when_ready s o since c).0.preparation_state ≢ PreparationState.prepared)
            × StartsNothing (prepare_when_ready s o since c))
    unfolding prepare_when_ready admit_preparation allocate_action
    prepares = ground arith

    concludes :
        let (t, effects) = prepare_when_ready s o since c in
        Returns (Holds s o) (conclude_verification t o since c.profile effects)
    concludes = elim prepares [
      | inl e ↦
          subst
            (λ (x : State × List Effect).
              Returns (Holds s o) (conclude_verification x.0 o since c.profile x.1))
            (sym e) (prepared-Holds [] refl)
      | inr (n, h) ↦ unprepared-Holds _ _ n h
    ]

  advances : Returns (Holds s o) (advance_verification s o [])
  unfolding advance_verification
  advances =
      Returns-maybe s.verify_since_ms _ _ (λ _. wait-Holds s o.observed_at_ms)
        (λ since e.
          Returns-maybe s.candidate _ _ (λ _. wait-Holds s o.observed_at_ms)
            (λ c q. concludes since c e q))

  -- Verification lets the desktop be finalized only on a complete proof: the profile was stable for
  -- the whole of the stability age, the last hint of the kernel is old enough, the desktop is
  -- prepared under the plan that the finalization carries, the profile is the candidate's, and it is
  -- not the one that the desktop is finalized for already.
  pub advance-FinalizationAdmitted :
      (d : Decision)
      → advance_verification s o [] ≡ ok d
      → any finalizes d.effects ≡ true
      → FinalizationAdmitted s o d
  advance-FinalizationAdmitted d h f = elim (advances.at d h) [
    | inl q ↦ absurd (false≢true (sym q ∙ f))
    | inr p ↦ p
  ]
