-- ===== src/Sleep/Quiet.antt =====
-- Effects that light no output.
use desktop_config.Prelude.{Bool, List, [], any, arith, false, refl, true, ℕ, ◌++◌, ◌∷◌, ◌≡◌}
use desktop_config.Model.Action.{PlanningAction}
use desktop_config.Model.Effect.{Decision, Effect}
use desktop_config.Model.Identity.{CandidateSelection}
use desktop_config.Model.Observation.{CanonicalObservation, ProfileMatch}
use desktop_config.Model.State.{State}
use desktop_config.Reducer.Admission.{admit_plan}
use desktop_config.Reducer.Epochs.{bury_planning, discard_planning}
use desktop_config.Reducer.Outcome.{
  allocate_action, allocate_transition, decision, quiesce, schedule,
}
use desktop_config.Reducer.Verification.{
  admit_preparation, plan_when_changed, prepare_when_ready, renew_proof,
}
use desktop_config.Safety.Checked.Checks.{assert-Returns}
use desktop_config.Safety.Checked.States.{append-Returns}
use desktop_config.Safety.Returns.{
  Anything, Returns, Returns-bind, Returns-if, Returns-maybe, Returns-ok, Returns-then,
  returns_rules,
}

-- The effects that light an output: the probe of a monitor, and the application of a profile.
abbrev pub lights : Effect → Bool
lights (Effect.activate_probe e) = true
lights (Effect.apply_profile e) = true
lights _ = false

abbrev pub IsQuiet : List Effect → Type 0
IsQuiet effects = any lights effects ≡ false

abbrev pub KeepsDark : Decision → Type 0
KeepsDark d = IsQuiet d.effects

pub append-IsQuiet : (xs ys : List Effect) → IsQuiet xs → IsQuiet ys → IsQuiet (xs ++ ys)
append-IsQuiet [] ys hx hy = hy
append-IsQuiet (x ∷ xs) ys hx hy = ground (arith, append-IsQuiet xs ys (ground (arith, hx)) hy)

pub decision-KeepsDark :
    (s : State) (effects : List Effect) → IsQuiet effects → Returns KeepsDark (decision s effects)
unfolding decision
decision-KeepsDark s effects h = Returns-then _ _ (assert-Returns s) (λ _. Returns-ok _ h)

pub schedule-KeepsDark :
    (s : State) (t : ℕ) (effects : List Effect)
    → IsQuiet effects
    → Returns KeepsDark (schedule s t effects)
unfolding schedule
schedule-KeepsDark s t effects h = decision-KeepsDark _ _ (append-IsQuiet effects _ h refl)

pub quiesce-KeepsDark :
    (s : State) (effects : List Effect) → IsQuiet effects → Returns KeepsDark (quiesce s effects)
unfolding quiesce
quiesce-KeepsDark s effects h = decision-KeepsDark _ _ h

-- A state with the effects of what led to it.
abbrev pub LeadsQuietly : State × List Effect → Type 0
LeadsQuietly x = IsQuiet x.1

pub discard-LeadsQuietly : (s : State) → Returns LeadsQuietly (discard_planning s)
unfolding discard_planning
discard-LeadsQuietly s =
    Returns-maybe s.planning _ _ (λ e. Returns-ok _ refl)
      λ planning e. Returns-then _ _ (bury s planning) (λ t. Returns-ok _ refl)
  where
    bury : (s : State) (p : PlanningAction) → Returns Anything (bury_planning s p)
    bury s p = search (returns_rules, append-Returns)

pub renew_proof-LeadsQuietly :
    (s : State) (o : CanonicalObservation) (m : ProfileMatch)
    → Returns LeadsQuietly (renew_proof s o m)
unfolding renew_proof
renew_proof-LeadsQuietly s o m =
    search (Returns-if, Returns-bind LeadsQuietly, discard-LeadsQuietly, Returns-ok, refl)

pub prepare-LeadsQuietly :
    (s : State) (o : CanonicalObservation) (t : ℕ) (c : CandidateSelection)
    → LeadsQuietly (prepare_when_ready s o t c)
unfolding prepare_when_ready admit_preparation
prepare-LeadsQuietly s o t c = ground arith

pub plan-LeadsQuietly :
    (s : State) (o : CanonicalObservation) (m : ProfileMatch) (effects : List Effect)
    → IsQuiet effects
    → LeadsQuietly (plan_when_changed s o m effects)
unfolding plan_when_changed admit_plan allocate_action allocate_transition
plan-LeadsQuietly s o m effects h =
    let k = append-IsQuiet effects ((admit_plan s o m).1 ∷ []) h refl in ground arith
