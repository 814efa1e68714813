-- ===== src/Once/Apply.antt =====
-- What the admission of an application takes, from
-- .local/lib/monitor-controller/monitor_controller/reducer.py.
use desktop_config.Prelude.{
  List, [], any, arith, elem, false, inl, inr, not, ok, refl, some, true, ℕ, ◌∷◌, ◌≡◌, ◌⊎◌,
}
use desktop_config.Model.Action.{ApplicationAction}
use desktop_config.Model.Effect.{Decision, Effect}
use desktop_config.Model.Enums.{ActionKind, ActionLifecycle}
use desktop_config.Model.Identity.{ApplicationAttemptKey, application_attempt_key_eq}
use desktop_config.Model.Observation.{CanonicalObservation, ProfileMatch}
use desktop_config.Model.State.{State}
use desktop_config.Reducer.Admission.{
  admit_application, admit_new_application, application_key, apply_profile, slow_retry_due,
}
use desktop_config.Reducer.Epochs.{enter_wait}
use desktop_config.Reducer.Outcome.{allocate_action, decision}
use desktop_config.Reducer.Targets.{candidate_for, mapping_proof}
use desktop_config.Safety.Checked.Checks.{assert-Returns}
use desktop_config.Safety.Returns.{Returns, Returns-if, Returns-ok, Returns-then}
use desktop_config.Sleep.Classified.{enter_wait-KeepsDark}
use desktop_config.Sleep.Quiet.{KeepsDark, lights}

-- The application that a decision admits: it is the only effect, it stands in the state's slot as
-- admitted, for the mapping of the state's candidate, and its key was not attempted, unless a capped
-- slow retry is due.
pub record ApplicationAdmitted (s : State) (o : CanonicalObservation) (target : ProfileMatch)
    (d : Decision) : Type 0 where
  pub action : ApplicationAction
  pub in_slot : d.state.application ≡ some action
  pub admitted : action.lifecycle ≡ ActionLifecycle.admitted
  pub only_effect : d.effects ≡ apply_profile action o.observation_key ∷ []
  pub identity : action.action_id ≡ (allocate_action s ActionKind.application).1
  pub chosen : d.state.candidate ≡ some (candidate_for s o target)
  pub mapping : action.mapping ≡ mapping_proof s o target
  pub unattempted :
      (elem action.key s.attempted_application_keys ≡ false) ⊎ (slow_retry_due s ≡ true)

abbrev ApplicationOutcome : State → CanonicalObservation → ProfileMatch → Decision → Type 0
ApplicationOutcome s o target d = KeepsDark d ⊎ ApplicationAdmitted s o target d

module _ (s : State) (o : CanonicalObservation) (target : ProfileMatch) where
  decision-ApplicationOutcome :
      (t : State) (effects : List Effect)
      → ApplicationAdmitted s o target (record { state = t; effects = effects })
      → Returns (ApplicationOutcome s o target) (decision t effects)
  unfolding decision
  decision-ApplicationOutcome t effects h =
      Returns-then _ _ (assert-Returns t) (λ _. Returns-ok _ (inr h))

  wait-ApplicationOutcome :
      (t : State) (now_ms : ℕ) → Returns (ApplicationOutcome s o target) (enter_wait t now_ms)
  wait-ApplicationOutcome t now_ms = record {
    at = λ d e. inl ((enter_wait-KeepsDark t now_ms).at d e);
    ends = (enter_wait-KeepsDark t now_ms).ends;
  }

  admit_new-ApplicationOutcome :
      (keys : List ApplicationAttemptKey)
      → (elem (application_key s o target) s.attempted_application_keys ≡ false)
        ⊎ (slow_retry_due s ≡ true)
      → Returns (ApplicationOutcome s o target) (
          admit_new_application
            (record s {
              candidate = some (candidate_for s o target);
              baseline_adoption = false;
              attempted_application_keys = keys;
            })
            o
            target
            (application_key s o target)
            (candidate_for s o target).mapping)
  unfolding admit_new_application allocate_action candidate_for
  admit_new-ApplicationOutcome keys h = decision-ApplicationOutcome _ _ (record {
    action = _;
    in_slot = refl;
    admitted = refl;
    only_effect = refl;
    identity = refl;
    chosen = refl;
    mapping = refl;
    unattempted = h;
  })

  admit-ApplicationOutcome : Returns (ApplicationOutcome s o target) (admit_application s o target)
  unfolding admit_application slow_retry_due
  admit-ApplicationOutcome =
      Returns-if _ _ _
        (λ _.
          Returns-if (not (slow_retry_due s)) _ _ (λ _. wait-ApplicationOutcome _ _)
            (λ r. admit_new-ApplicationOutcome _ (inr (ground arith))))
        (λ n. admit_new-ApplicationOutcome _ (inl n))

  -- When the admission of an application starts anything, it is that application alone: the state
  -- holds it as admitted under a fresh identity, with the mapping of the candidate that the state
  -- now has, and its key was not attempted before, unless a capped slow retry is due.
  pub admit_application-once :
      (d : Decision)
      → admit_application s o target ≡ ok d
      → any lights d.effects ≡ true
      → ApplicationAdmitted s o target d
  admit_application-once d h l = elim (admit-ApplicationOutcome.at d h) [
    | inl q ↦ absurd (cc)
    | inr p ↦ p
  ]
