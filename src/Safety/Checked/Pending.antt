-- ===== src/Safety/Checked/Pending.antt =====
-- The admissions that wait for their dispatch, and why cancelling them comes to an end.
use desktop_config.Prelude.{
  ==→≡, List, Result, [], arith, if◌then◌else◌, none, ok, option_eq, some, ℕ, ◌!=◌, ◌++◌, ◌+◌, ◌<◌,
  ◌>>=◌, ◌≡◌, ◌≤◌,
}
use desktop_config.Model.Action.{
  ActionRecord, ApplicationAction, FinalizationAction, PreparationAction, ProbeAction,
}
use desktop_config.Model.Effect.{Decision, Effect}
use desktop_config.Model.Enums.{
  ActionLifecycle, ControllerPhase, PreparationState, controller_phase_eq, preparation_state_eq,
}
use desktop_config.Model.Identity.{physical_token_eq}
use desktop_config.Model.Observation.{CanonicalObservation}
use desktop_config.Model.State.{State}
use desktop_config.Reducer.Epochs.{reset_for_epoch}
use desktop_config.Reducer.Outcome.{decision}
use desktop_config.Reducer.Pending.{
  observe_pending_action, observe_pending_application, observe_pending_finalization,
  observe_pending_preparation, observe_pending_probe, reclassify_cancelled_admission,
}
use desktop_config.Reducer.Tombstones.{append_tombstone}
use desktop_config.Safety.Checked.Checks.{IsChecked, decision-IsChecked}
use desktop_config.Safety.Checked.States.{SameCourse, append-SameCourse, reset_for_epoch-IsFresh}
use desktop_config.Safety.Returns.{
  Early, Early-first, Early-if, Early-maybe, Early-none, Early-some, Returns, Returns-bind,
  Returns-if, Returns-ok, Returns-then, Returns-weaken,
}

-- An action in the controller's phase waits for its dispatch.
abbrev phase_pending : ControllerPhase → ℕ
phase_pending ControllerPhase.probe_pending = 1
phase_pending ControllerPhase.apply_pending = 1
phase_pending ControllerPhase.finalize_pending = 1
phase_pending _ = 0

abbrev preparation_pending : PreparationState → ℕ
preparation_pending PreparationState.prepare_pending = 1
preparation_pending _ = 0

-- How many admissions an observation can cancel.
abbrev pub pending : State → ℕ
pending s = phase_pending s.phase + preparation_pending s.preparation_state

phase_pending_le : (p : ControllerPhase) → phase_pending p ≤ 1
phase_pending_le ControllerPhase.recovering = omega arith
phase_pending_le _ = omega arith

preparation_pending_le : (p : PreparationState) → preparation_pending p ≤ 1
preparation_pending_le PreparationState.prepare_idle = omega arith
preparation_pending_le _ = omega arith

pub pending_le : (s : State) → pending s < 3
pending_le s = omega (arith, phase_pending_le s.phase, preparation_pending_le s.preparation_state)

module _ (n : ℕ) (classify : State → CanonicalObservation → Result Decision)
    (o : CanonicalObservation)
    (later : (t : State) → pending t < n → Returns IsChecked (classify t o)) where
  -- The state that is classified again, after a new epoch or as it stands.
  moved :
      (s : State)
      → pending s < n
      → Returns
          (λ (x : State × List Effect). pending x.0 < n)
          (if s.physical_token != some o.physical_token
            then reset_for_epoch s o o.observed_at_ms
            else ok (s, []))
  moved s h =
      Returns-if (s.physical_token != some o.physical_token) (reset_for_epoch s o o.observed_at_ms)
        (ok (s, []))
        (λ _. record {
          at = λ x e.
              let (p, q) = (reset_for_epoch-IsFresh s o o.observed_at_ms).at x e in
              ground (arith, fresh_pending x.0 p q);
          ends = (reset_for_epoch-IsFresh s o o.observed_at_ms).ends;
        })
        (λ _. Returns-ok (s, []) h)
    where
      fresh_pending :
          (t : State)
          → t.phase ≡ ControllerPhase.discover_fast
          → t.preparation_state ≡ PreparationState.prepare_idle
          → pending t ≡ 0
      fresh_pending t p q = ground arith

  reclassify-IsChecked :
      (s : State) → pending s < n → Returns IsChecked (reclassify_cancelled_admission classify s o)
  unfolding reclassify_cancelled_admission
  reclassify-IsChecked s h =
      Returns-bind (λ (x : State × List Effect). pending x.0 < n)
        (if s.physical_token != some o.physical_token
          then reset_for_epoch s o o.observed_at_ms
          else ok (s, []))
        (λ x. classify x.0 o >>= λ d. decision d.state (x.1 ++ d.effects)) (moved s h)
        λ x k.
          Returns-then (classify x.0 o) (λ d. decision d.state (x.1 ++ d.effects))
            (Returns-weaken (classify x.0 o) (later x.0 k))
            (λ d. decision-IsChecked d.state (x.1 ++ d.effects))

  -- An admission is cancelled and what is left is classified again.
  cancel-IsChecked :
      (s : State) (a : ActionRecord) (g : State → State)
      → ((t : State) → SameCourse s t → pending (g t) < n)
      → Returns IsChecked (
          append_tombstone s a ActionLifecycle.cancelled >>= λ t.
          reclassify_cancelled_admission classify (g t) o)
  cancel-IsChecked s a g h =
      Returns-bind (SameCourse s) (append_tombstone s a ActionLifecycle.cancelled)
        (λ t. reclassify_cancelled_admission classify (g t) o)
        (append-SameCourse s a ActionLifecycle.cancelled)
        (λ t k. reclassify-IsChecked (g t) (h t k))

  -- The phase's admission is gone, or the preparation's.
  left_phase :
      (s t : State)
      → SameCourse s t
      → 1 ≤ phase_pending s.phase
      → pending s ≤ n
      → preparation_pending t.preparation_state < n
  left_phase s t k h p = rw k.preparation_state (omega arith)

  left_preparation :
      (s t : State)
      → SameCourse s t
      → 1 ≤ preparation_pending s.preparation_state
      → pending s ≤ n
      → phase_pending t.phase < n
  left_preparation s t k h p = rw k.phase (omega arith)

  observe_pending_probe-IsChecked :
      (s : State) (a : ProbeAction)
      → s.phase ≡ ControllerPhase.probe_pending
      → pending s ≤ n
      → Returns IsChecked (observe_pending_probe classify s o a)
  unfolding observe_pending_probe
  observe_pending_probe-IsChecked s a e h = search (
    Returns-if,
    decision-IsChecked,
    cancel-IsChecked s (ActionRecord.probe a)
        (λ (t : State). record t { phase = ControllerPhase.discover_fast; probe = none })
        (λ (t : State) (k : SameCourse s t).
          omega (arith, left_phase s t k (rw e (omega arith)) h)),
  )

  observe_pending_application-IsChecked :
      (s : State) (a : ApplicationAction)
      → s.phase ≡ ControllerPhase.apply_pending
      → pending s ≤ n
      → Returns IsChecked (observe_pending_application classify s o a)
  unfolding observe_pending_application
  observe_pending_application-IsChecked s a e h = search (
    Returns-if,
    decision-IsChecked,
    cancel-IsChecked s (ActionRecord.application a)
        (λ (t : State). record t { phase = ControllerPhase.discover_fast; application = none })
        (λ (t : State) (k : SameCourse s t).
          omega (arith, left_phase s t k (rw e (omega arith)) h)),
  )

  observe_pending_preparation-IsChecked :
      (s : State) (a : PreparationAction)
      → s.preparation_state ≡ PreparationState.prepare_pending
      → pending s ≤ n
      → Returns IsChecked (observe_pending_preparation classify s o a)
  unfolding observe_pending_preparation
  observe_pending_preparation-IsChecked s a e h = search (
    Returns-if,
    decision-IsChecked,
    cancel-IsChecked s (ActionRecord.preparation a)
        (λ (t : State). record t {
          preparation_state = PreparationState.prepare_idle;
          preparation = none;
          verify_since_ms = none;
        })
        (λ (t : State) (k : SameCourse s t).
          omega (arith, left_preparation s t k (rw e (omega arith)) h)),
  )

  observe_pending_finalization-IsChecked :
      (s : State) (a : FinalizationAction)
      → s.phase ≡ ControllerPhase.finalize_pending
      → pending s ≤ n
      → Returns IsChecked (observe_pending_finalization classify s o a)
  unfolding observe_pending_finalization
  observe_pending_finalization-IsChecked s a e h = search (
    Returns-if,
    decision-IsChecked,
    cancel-IsChecked s (ActionRecord.finalization a)
        (λ (t : State). record t {
          phase = ControllerPhase.discover_fast;
          finalization = none;
          verify_since_ms = none;
        })
        (λ (t : State) (k : SameCourse s t).
          omega (arith, left_phase s t k (rw e (omega arith)) h)),
  )

  pub observe_pending_action-IsChecked :
      (s : State) → pending s ≤ n → Early IsChecked (observe_pending_action classify s o)
  unfolding observe_pending_action
  observe_pending_action-IsChecked s h =
      Early-first _ _
        (Early-if _ _ _
          (λ e.
            Early-maybe _ _ _ (λ _. Early-none)
              (λ a _. Early-some _ (observe_pending_probe-IsChecked s a (==→≡ _ _ e) h)))
          (λ _. Early-none))
        (Early-first _ _
          (Early-if _ _ _
            (λ e.
              Early-maybe _ _ _ (λ _. Early-none)
                (λ a _. Early-some _ (observe_pending_application-IsChecked s a (==→≡ _ _ e) h)))
            (λ _. Early-none))
          (Early-first _ _
            (Early-if _ _ _
              (λ e.
                Early-maybe _ _ _ (λ _. Early-none)
                  (λ a _. Early-some _ (observe_pending_preparation-IsChecked s a (==→≡ _ _ e) h)))
              (λ _. Early-none))
            (Early-if _ _ _
              (λ e.
                Early-maybe _ _ _ (λ _. Early-none)
                  (λ a _. Early-some _ (observe_pending_finalization-IsChecked s a (==→≡ _ _ e) h)))
              (λ _. Early-none))))
