-- ===== src/Safety/Checked/Observations.antt =====
-- `IsChecked` for the handlers of an observation.
use desktop_config.Prelude.{List, String, arith, suc, zero, ℕ, ◌<◌}
use desktop_config.Model.Effect.{Effect}
use desktop_config.Model.Observation.{CanonicalObservation, ProfileMatch}
use desktop_config.Model.State.{State}
use desktop_config.Reducer.Admission.{admit_application, admit_probe}
use desktop_config.Reducer.Classify.{
  await_unplug, classify_observation, classify_rounds, classify_target, classify_topology,
}
use desktop_config.Reducer.Epochs.{defer_while_asleep, enter_wait}
use desktop_config.Reducer.Verification.{
  advance_verification, conclude_verification, start_verification,
}
use desktop_config.Safety.Checked.Checks.{IsChecked}
use desktop_config.Safety.Checked.Pending.{observe_pending_action-IsChecked, pending, pending_le}
use desktop_config.Safety.Checked.States.{checked_rules}
use desktop_config.Safety.Returns.{Returns, Returns-or_else}

pub enter_wait-IsChecked : (s : State) (now_ms : ℕ) → Returns IsChecked (enter_wait s now_ms)
unfolding enter_wait
enter_wait-IsChecked s now_ms = search checked_rules

defer_while_asleep-IsChecked :
    (s : State) (now_ms : ℕ) → Returns IsChecked (defer_while_asleep s now_ms)
unfolding defer_while_asleep
defer_while_asleep-IsChecked s now_ms = search checked_rules

admit_probe-IsChecked : (s : State) (o : CanonicalObservation) → Returns IsChecked (admit_probe s o)
unfolding admit_probe
admit_probe-IsChecked s o = search (checked_rules, enter_wait-IsChecked)

admit_application-IsChecked :
    (s : State) (o : CanonicalObservation) (target : ProfileMatch)
    → Returns IsChecked (admit_application s o target)
unfolding admit_application
admit_application-IsChecked s o target = search (checked_rules, enter_wait-IsChecked)

conclude_verification-IsChecked :
    (s : State) (o : CanonicalObservation) (since : ℕ) (profile : String) (effects : List Effect)
    → Returns IsChecked (conclude_verification s o since profile effects)
unfolding conclude_verification
conclude_verification-IsChecked s o since profile effects = search checked_rules depth 9

advance_verification-IsChecked :
    (s : State) (o : CanonicalObservation) (effects : List Effect)
    → Returns IsChecked (advance_verification s o effects)
unfolding advance_verification
advance_verification-IsChecked s o effects =
    search (checked_rules, enter_wait-IsChecked, conclude_verification-IsChecked)

start_verification-IsChecked :
    (s : State) (o : CanonicalObservation) (target : ProfileMatch)
    → Returns IsChecked (start_verification s o target)
unfolding start_verification
start_verification-IsChecked s o target = search (checked_rules, advance_verification-IsChecked)

classify_target-IsChecked :
    (s : State) (o : CanonicalObservation) → Returns IsChecked (classify_target s o)
unfolding classify_target
classify_target-IsChecked s o =
    search
      (
        checked_rules, enter_wait-IsChecked, defer_while_asleep-IsChecked, admit_probe-IsChecked,
        admit_application-IsChecked, start_verification-IsChecked,
      )
      depth 8

classify_topology-IsChecked :
    (s : State) (o : CanonicalObservation) → Returns IsChecked (classify_topology s o)
unfolding classify_topology await_unplug
classify_topology-IsChecked s o = search (checked_rules, classify_target-IsChecked) depth 8

-- The rounds suffice: a round that calls for another one leaves fewer pending admissions.
classify_rounds-IsChecked :
    (n : ℕ) (s : State) (o : CanonicalObservation)
    → pending s < n
    → Returns IsChecked (classify_rounds n s o)
unfolding classify_rounds
classify_rounds-IsChecked zero s o h = absurd (omega arith)
classify_rounds-IsChecked (suc n) s o h =
    Returns-or_else _ _
      (observe_pending_action-IsChecked n (classify_rounds n) o
        (λ t k. classify_rounds-IsChecked n t o k) s (omega arith))
      (classify_topology-IsChecked s o)

pub classify_observation-IsChecked :
    (s : State) (o : CanonicalObservation) → Returns IsChecked (classify_observation s o)
unfolding classify_observation
classify_observation-IsChecked s o = classify_rounds-IsChecked 3 s o (pending_le s)
