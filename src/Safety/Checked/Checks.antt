-- ===== src/Safety/Checked/Checks.antt =====
-- The checks raise nothing but their own error, and `decision` lets through what passes them.
use desktop_config.Prelude.{
  Bool, List, Option, Result, String, [], arith, controller_invariant, false, none, ok, some, true,
  ℕ, ◌∷◌, ◌≡◌,
}
use desktop_config.Invariants.Authority.{
  check_action_authorization, check_application, check_finalization, check_latest_observation,
  check_observation_authority, check_preparation, check_probe,
}
use desktop_config.Invariants.Checks.{assert_controller_invariants}
use desktop_config.Invariants.Identities.{
  check_acknowledged, check_action_id, check_action_identities, check_recovery_unit,
  check_tombstone, check_transition_id, check_worker_acknowledgements,
}
use desktop_config.Invariants.Phases.{
  check_phase_relationships, check_planning_relationships, check_planning_slot,
  check_preparation_slot, check_prepared_plan, check_slot,
}
use desktop_config.Invariants.Rules.{each, given, require, when}
use desktop_config.Invariants.Safety.{
  check_attempt_history, check_continuous_proof, check_durable_dispatch, check_no_laptop_fallback,
  check_numbered_safety_rules, check_probe_is_not_authorization, check_unplug_proof,
}
use desktop_config.Model.Action.{ApplicationAction, FinalizationAction, ProbeAction}
use desktop_config.Model.Effect.{Decision, Effect}
use desktop_config.Model.Enums.{ActionLifecycle}
use desktop_config.Model.State.{State}
use desktop_config.Reducer.Outcome.{decision, no_op, quiesce, schedule}
use desktop_config.Safety.Returns.{
  Anything, Returns, Returns-err, Returns-some_value, Returns-then, returns_rules,
}

require-Returns : (b : Bool) (m : String) → Returns Anything (require b m)
require-Returns true m = Returns-some_value tt
require-Returns false m = Returns-err (controller_invariant m) (λ h. cc)

when-Returns : (b : Bool) (m : Result (Unit {0})) → Returns Anything m → Returns Anything (when b m)
when-Returns true m h = h
when-Returns false m h = Returns-some_value tt

given-Returns :
    {A : Type 0} (o : Option A) (f : A → Result (Unit {0}))
    → ((a : A) → Returns Anything (f a))
    → Returns Anything (given o f)
given-Returns none f h = Returns-some_value tt
given-Returns (some a) f h = h a

each-Returns :
    {A : Type 0} (f : A → Result (Unit {0})) (xs : List A)
    → ((a : A) → Returns Anything (f a))
    → Returns Anything (each f xs)
each-Returns f [] h = Returns-some_value tt
each-Returns f (x ∷ xs) h = Returns-then (f x) _ (h x) (λ _. each-Returns f xs h)

ruleset check_rules = (returns_rules, require-Returns, when-Returns, given-Returns, each-Returns)

slot-Returns :
    (l : Option ActionLifecycle) (x : Option (List ActionLifecycle)) (m : String)
    → Returns Anything (check_slot l x m)
unfolding check_slot
slot-Returns l none m = search check_rules
slot-Returns l (some x) m = search check_rules

phases-Returns : (s : State) → Returns Anything (check_phase_relationships s)
unfolding check_phase_relationships
phases-Returns s = search (check_rules, slot-Returns)

planning_slot-Returns :
    (l : Option ActionLifecycle) (x : Option (List ActionLifecycle))
    → Returns Anything (check_planning_slot l x)
unfolding check_planning_slot
planning_slot-Returns l none = search check_rules
planning_slot-Returns l (some x) = search check_rules

preparation_slot-Returns :
    (l : Option ActionLifecycle) (x : Option (List ActionLifecycle))
    → Returns Anything (check_preparation_slot l x)
unfolding check_preparation_slot
preparation_slot-Returns l none = search check_rules
preparation_slot-Returns l (some x) = search check_rules

planning-Returns : (s : State) → Returns Anything (check_planning_relationships s)
unfolding check_planning_relationships check_prepared_plan
planning-Returns s = search (check_rules, planning_slot-Returns, preparation_slot-Returns) depth 14

identities-Returns : (s : State) → Returns Anything (check_action_identities s)
unfolding check_action_identities check_action_id check_transition_id check_tombstone
    check_recovery_unit
identities-Returns s = search check_rules depth 14

workers-Returns : (s : State) → Returns Anything (check_worker_acknowledgements s)
unfolding check_worker_acknowledgements check_acknowledged
workers-Returns s = search check_rules depth 8

observation-Returns : (s : State) → Returns Anything (check_observation_authority s)
unfolding check_observation_authority check_latest_observation
observation-Returns s = search check_rules depth 9

application-Returns : (s : State) (a : ApplicationAction) → Returns Anything (check_application s a)
unfolding check_application
application-Returns s a = search check_rules depth 8

probe-Returns : (s : State) (a : ProbeAction) → Returns Anything (check_probe s a)
unfolding check_probe
probe-Returns s a = search check_rules depth 8

finalization-Returns :
    (s : State) (a : FinalizationAction) → Returns Anything (check_finalization s a)
unfolding check_finalization
finalization-Returns s a = search check_rules depth 10

authorization-Returns : (s : State) → Returns Anything (check_action_authorization s)
unfolding check_action_authorization check_preparation
authorization-Returns s =
    search (check_rules, application-Returns, probe-Returns, finalization-Returns) depth 8

fallback-Returns : (s : State) → Returns Anything (check_no_laptop_fallback s)
unfolding check_no_laptop_fallback
fallback-Returns s = search check_rules depth 8

alone-Returns : (s : State) → Returns Anything (check_probe_is_not_authorization s)
unfolding check_probe_is_not_authorization
alone-Returns s = search check_rules depth 8

safety-Returns : (s : State) → Returns Anything (check_numbered_safety_rules s)
unfolding check_numbered_safety_rules check_durable_dispatch check_continuous_proof
    check_unplug_proof
safety-Returns s = search (check_rules, fallback-Returns, alone-Returns) depth 14

attempts-Returns : (s : State) → Returns Anything (check_attempt_history s)
unfolding check_attempt_history
attempts-Returns s = search check_rules depth 8

pub assert-Returns : (s : State) → Returns Anything (assert_controller_invariants s)
unfolding assert_controller_invariants
assert-Returns s =
    search
      (
        check_rules, phases-Returns, planning-Returns, identities-Returns, workers-Returns,
        observation-Returns, authorization-Returns, safety-Returns, attempts-Returns,
      )
      depth 12

-- The returned state passes the central invariants.
abbrev pub IsChecked : Decision → Type 0
IsChecked d = assert_controller_invariants d.state ≡ ok tt

pub decision-IsChecked :
    (s : State) (effects : List Effect) → Returns IsChecked (decision s effects)
unfolding decision
decision-IsChecked s effects = record {
  at = λ d h. ground arith;
  ends = (Returns-then _ _ (assert-Returns s) (λ _. Returns-some_value _)).ends;
}

pub no_op-IsChecked : (s : State) → Returns IsChecked (no_op s)
unfolding no_op
no_op-IsChecked s = decision-IsChecked s []

pub schedule-IsChecked :
    (s : State) (t : ℕ) (effects : List Effect) → Returns IsChecked (schedule s t effects)
unfolding schedule
schedule-IsChecked s t effects = decision-IsChecked _ _

pub quiesce-IsChecked : (s : State) (effects : List Effect) → Returns IsChecked (quiesce s effects)
unfolding quiesce
quiesce-IsChecked s effects = decision-IsChecked _ _
