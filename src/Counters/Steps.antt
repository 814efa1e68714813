-- ===== src/Counters/Steps.antt =====
-- The counters through the parts of the handlers.
use desktop_config.Prelude.{
  >>-right, Bool, Bool-cases, List, Option, Result, String, [], arith, elem, false, if◌then◌else◌,
  inl, inr, ltb, refl, true, ℕ, ◌≡◌, ◌≢◌,
}
use desktop_config.Counters.Ahead.{
  Ahead, Counters, Settled, admit_key, new_key, next_action, next_epoch, next_transition, settle,
}
use desktop_config.Counters.Gives.{
  Gives, Gives-bind, Gives-by_kind, Gives-err, Gives-if, Gives-maybe, Gives-ok, Gives-or_else,
  Gives-test, GivesEarly-first, GivesEarly-if, GivesEarly-maybe, GivesEarly-none, GivesEarly-some,
}
use desktop_config.Invariants.Checks.{assert_controller_invariants}
use desktop_config.Model.Action.{ActionRecord, ActionTombstone, PlanningAction}
use desktop_config.Model.Effect.{Decision, Effect}
use desktop_config.Model.Enums.{ActionLifecycle}
use desktop_config.Model.Identity.{CandidateSelection, probe_attempt_key_eq}
use desktop_config.Model.Observation.{CanonicalObservation, ProbeCandidate, ProfileMatch}
use desktop_config.Model.State.{State}
use desktop_config.Reducer.Admission.{
  admit_application, admit_new_application, admit_new_probe, admit_plan, admit_probe, probe_key,
}
use desktop_config.Reducer.Classify.{classify_exact}
use desktop_config.Reducer.Epochs.{
  back_off, bury_planning, cancel_admitted, discard_planning, enter_wait, open_epoch,
  reset_for_epoch,
}
use desktop_config.Reducer.Outcome.{
  allocate_action, allocate_transition, decision, no_op, quiesce, schedule,
}
use desktop_config.Reducer.Targets.{rearm_achieved_application, reset_application_recovery}
use desktop_config.Reducer.Tombstones.{append_tombstone, clear_recovery_unit}
use desktop_config.Reducer.Verification.{
  admit_finalization, admit_preparation, adopt_baseline, advance_verification, await_proof,
  conclude_verification, plan_when_changed, prepare_when_ready, renew_proof, settle_finalized,
  start_verification,
}
use desktop_config.Safety.Returns.{Anything}

abbrev pub AheadAfter : Counters → Decision → Type 0
AheadAfter c d = Ahead c d.state

abbrev pub AheadWith : Counters → State × List Effect → Type 0
AheadWith c x = Ahead c x.0

pub stopping≢admitted : ActionLifecycle.stopping ≢ ActionLifecycle.admitted
stopping≢admitted e = absurd (cc)

pub dispatched≢admitted : ActionLifecycle.dispatched ≢ ActionLifecycle.admitted
dispatched≢admitted e = absurd (cc)

pub ruleset gives_rules = (
  Gives-ok, Gives-err, Gives-if, Gives-maybe, Gives-by_kind, Gives-or_else, GivesEarly-none,
  GivesEarly-some, GivesEarly-if, GivesEarly-maybe, GivesEarly-first,
)

-- The probe of a slot has started, or is gone.
pub ruleset settled_rules =
    (Settled.nothing, Settled.started, stopping≢admitted, dispatched≢admitted, settle)

pub any-Gives : {A : Type 0} (r : Result A) → Gives Anything r
any-Gives r = record { at = λ a e. tt }

module _ (c : Counters) where
  pub Ahead-if : (b : Bool) (s t : State) → Ahead c s → Ahead c t → Ahead c (if b then s else t)
  Ahead-if true s t hs ht = hs
  Ahead-if false s t hs ht = ht

  pub decision-Ahead :
      (s : State) (effects : List Effect) → Ahead c s → Gives (AheadAfter c) (decision s effects)
  unfolding decision
  decision-Ahead s effects h = record {
    at = λ d e.
        let q = >>-right (assert_controller_invariants s) _ e in
        (Gives-ok {P = AheadAfter c} (record { state = s; effects = effects }) h).at d q;
  }

  pub no_op-Ahead : (s : State) → Ahead c s → Gives (AheadAfter c) (no_op s)
  unfolding no_op
  no_op-Ahead s h = decision-Ahead s [] h

  pub schedule-Ahead :
      (s : State) (t : ℕ) (effects : List Effect)
      → Ahead c s
      → Gives (AheadAfter c) (schedule s t effects)
  unfolding schedule
  schedule-Ahead s t effects h = decision-Ahead _ _ h

  pub quiesce-Ahead :
      (s : State) (effects : List Effect) → Ahead c s → Gives (AheadAfter c) (quiesce s effects)
  unfolding quiesce
  quiesce-Ahead s effects h = decision-Ahead _ _ h

  pub append-Ahead :
      (s : State) (a : ActionRecord) (l : ActionLifecycle)
      → Ahead c s
      → Gives (Ahead c) (append_tombstone s a l)
  unfolding append_tombstone clear_recovery_unit
  append-Ahead s a l h =
      search (Gives-ok, Gives-bind (λ (ts : List ActionTombstone). Anything ts), any-Gives)

  bury-Ahead : (s : State) (p : PlanningAction) → Ahead c s → Gives (Ahead c) (bury_planning s p)
  unfolding bury_planning
  bury-Ahead s p h = search (gives_rules, append-Ahead)

  pub discard-Ahead : (s : State) → Ahead c s → Gives (AheadWith c) (discard_planning s)
  unfolding discard_planning
  discard-Ahead s h = search (gives_rules, Gives-bind (Ahead c), bury-Ahead)

  cancel_admitted-Ahead :
      (s : State) (a : Option ActionRecord) → Ahead c s → Gives (Ahead c) (cancel_admitted s a)
  unfolding cancel_admitted
  cancel_admitted-Ahead s a h = search (gives_rules, append-Ahead)

  pub reset-Ahead :
      (s : State) (o : CanonicalObservation) (t : ℕ)
      → Ahead c s
      → Gives (AheadWith c) (reset_for_epoch s o t)
  unfolding reset_for_epoch open_epoch
  reset-Ahead s o t h = Gives-bind (AheadWith c) _ _ (discard-Ahead s h) λ x h1.
      Gives-bind (Ahead c) _ _ (cancel_admitted-Ahead _ _ h1) λ s2 h2.
        Gives-bind (Ahead c) _ _ (cancel_admitted-Ahead _ _ h2) λ s3 h3.
          Gives-bind (Ahead c) _ _ (cancel_admitted-Ahead _ _ h3)
            (λ s4 h4. Gives-ok {P = AheadWith c} _ (next_epoch h4))

  back_off-Ahead : (s : State) (u t : ℕ) → Ahead c s → Ahead c (back_off s u t).0
  unfolding back_off
  back_off-Ahead s u t h = elim (Bool-cases (ltb t u)) [ inl e ↦ rw e h | inr e ↦ rw e h ]

  pub enter_wait-Ahead : (s : State) (t : ℕ) → Ahead c s → Gives (AheadAfter c) (enter_wait s t)
  unfolding enter_wait
  enter_wait-Ahead s t h = search (gives_rules, schedule-Ahead, back_off-Ahead)

  pub candidate-Ahead :
      (s : State) (o : CanonicalObservation) (m : ProfileMatch)
      → Ahead c s
      → Gives (AheadAfter c) (admit_application s o m)
  unfolding admit_application admit_new_application allocate_action
  candidate-Ahead s o m h = search (gives_rules, decision-Ahead, enter_wait-Ahead, next_action)

  new_probe-Ahead :
      (s : State) (o : CanonicalObservation) (x : ProbeCandidate)
      → Ahead c s
      → elem (probe_key s o x) s.attempted_probe_keys ≡ false
      → Gives (AheadAfter c) (admit_new_probe s o x)
  unfolding admit_new_probe allocate_action
  new_probe-Ahead s o x h new = Gives-bind (AheadWith c) _ _ (discard-Ahead s h) λ y h1.
      decision-Ahead _ _
        (admit_key (next_action h1) _ (λ k e. new_key h (probe_key s o x) k new refl e))

  pub probe-Ahead :
      (s : State) (o : CanonicalObservation) → Ahead c s → Gives (AheadAfter c) (admit_probe s o)
  unfolding admit_probe
  probe-Ahead s o h =
      Gives-maybe o.probe_candidate _ _ (enter_wait-Ahead _ _ h)
        λ x. Gives-test _ _ _ (λ e. enter_wait-Ahead _ _ h) (λ e. new_probe-Ahead s o x h e)

  pub renew-Ahead :
      (s : State) (o : CanonicalObservation) (m : ProfileMatch)
      → Ahead c s
      → Gives (AheadWith c) (renew_proof s o m)
  unfolding renew_proof
  renew-Ahead s o m h = search (gives_rules, Gives-bind (AheadWith c), discard-Ahead, Ahead-if)

  plan-Ahead :
      (s : State) (o : CanonicalObservation) (m : ProfileMatch) (effects : List Effect)
      → Ahead c s
      → AheadWith c (plan_when_changed s o m effects)
  unfolding plan_when_changed admit_plan allocate_action allocate_transition
  plan-Ahead s o m effects h = let n = next_action (next_transition h) in ground arith

  prepare-Ahead :
      (s : State) (o : CanonicalObservation) (t : ℕ) (k : CandidateSelection)
      → Ahead c s
      → AheadWith c (prepare_when_ready s o t k)
  unfolding prepare_when_ready admit_preparation allocate_action
  prepare-Ahead s o t k h = let n = next_action h in ground arith

  rearm-Ahead : (s : State) (p : String) → Ahead c s → Ahead c (rearm_achieved_application s p)
  unfolding rearm_achieved_application
  rearm-Ahead s p h = search Ahead-if

  conclude-Ahead :
      (s : State) (o : CanonicalObservation) (t : ℕ) (p : String) (effects : List Effect)
      → Ahead c s
      → Gives (AheadAfter c) (conclude_verification s o t p effects)
  unfolding conclude_verification await_proof admit_finalization settle_finalized adopt_baseline
      allocate_action reset_application_recovery
  conclude-Ahead s o t p effects h =
      search
        (
          gives_rules,
          Gives-bind (AheadWith c),
          discard-Ahead,
          decision-Ahead,
          schedule-Ahead,
          quiesce-Ahead,
          next_action,
        )
        depth 8

  pub verify-Ahead :
      (s : State) (o : CanonicalObservation) (m : ProfileMatch)
      → Ahead c s
      → Gives (AheadAfter c) (start_verification s o m)
  unfolding start_verification advance_verification
  verify-Ahead s o m h =
      search
        (
          gives_rules,
          Gives-bind (AheadWith c),
          renew-Ahead,
          plan-Ahead,
          prepare-Ahead,
          enter_wait-Ahead,
          conclude-Ahead,
        )
        depth 8

  pub exact-Ahead :
      (s : State) (o : CanonicalObservation) (m : ProfileMatch)
      → Ahead c s
      → Gives (AheadAfter c) (classify_exact s o m)
  unfolding classify_exact
  exact-Ahead s o m h = search (gives_rules, quiesce-Ahead, verify-Ahead, rearm-Ahead)
