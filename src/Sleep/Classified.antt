-- ===== src/Sleep/Classified.antt =====
-- The branches of the classification, one by one.
use desktop_config.Prelude.{
  Bool, List, String, [], any, ap, false, none, ok, refl, sym, true, ℕ, ◌∙◌, ◌≡◌,
}
use desktop_config.Model.Action.{PreparationAction}
use desktop_config.Model.Effect.{Decision, Effect}
use desktop_config.Model.Observation.{CanonicalObservation, ProfileMatch}
use desktop_config.Model.State.{State}
use desktop_config.Reducer.Classify.{
  asleep, await_unplug, classify_evidence, classify_exact, classify_observation, classify_rounds,
  classify_target, classify_topology, classify_unknown,
}
use desktop_config.Reducer.Epochs.{defer_while_asleep, enter_wait}
use desktop_config.Reducer.Outcome.{allocate_action, or_else}
use desktop_config.Reducer.Pending.{observe_pending_action}
use desktop_config.Reducer.Verification.{
  admit_finalization, adopt_baseline, advance_verification, await_proof, conclude_verification,
  settle_finalized, start_verification,
}
use desktop_config.Safety.Returns.{Returns, Returns-bind, Returns-if, Returns-maybe}
use desktop_config.Sleep.Quiet.{
  IsQuiet, KeepsDark, LeadsQuietly, append-IsQuiet, decision-KeepsDark, discard-LeadsQuietly,
  lights, plan-LeadsQuietly, prepare-LeadsQuietly, quiesce-KeepsDark, renew_proof-LeadsQuietly,
  schedule-KeepsDark,
}

ruleset dark_rules = (
  Returns-if, Returns-maybe, decision-KeepsDark, schedule-KeepsDark, quiesce-KeepsDark,
  append-IsQuiet,
)

pub enter_wait-KeepsDark : (s : State) (now_ms : ℕ) → Returns KeepsDark (enter_wait s now_ms)
unfolding enter_wait
enter_wait-KeepsDark s now_ms = search dark_rules

defer-KeepsDark : (s : State) (now_ms : ℕ) → Returns KeepsDark (defer_while_asleep s now_ms)
unfolding defer_while_asleep
defer-KeepsDark s now_ms = schedule-KeepsDark _ _ [] refl

await_proof-KeepsDark :
    (s : State) (b : Bool) (t : ℕ) (effects : List Effect)
    → IsQuiet effects
    → Returns KeepsDark (await_proof s b t effects)
unfolding await_proof
await_proof-KeepsDark s b t effects h = search dark_rules

finalization-KeepsDark :
    (s : State) (o : CanonicalObservation) (p : PreparationAction) (profile : String)
    (effects : List Effect)
    → IsQuiet effects
    → Returns KeepsDark (admit_finalization s o p profile effects)
unfolding admit_finalization allocate_action
finalization-KeepsDark s o p profile effects h = search dark_rules

settle-KeepsDark :
    (s : State) (profile : String) (effects : List Effect)
    → IsQuiet effects
    → Returns KeepsDark (settle_finalized s profile effects)
unfolding settle_finalized
settle-KeepsDark s profile effects h =
    search (dark_rules, Returns-bind LeadsQuietly, discard-LeadsQuietly)

conclude_verification-KeepsDark :
    (s : State) (o : CanonicalObservation) (since : ℕ) (profile : String) (effects : List Effect)
    → IsQuiet effects
    → Returns KeepsDark (conclude_verification s o since profile effects)
unfolding conclude_verification adopt_baseline
conclude_verification-KeepsDark s o since profile effects h =
    search (dark_rules, await_proof-KeepsDark, finalization-KeepsDark, settle-KeepsDark) depth 8

advance_verification-KeepsDark :
    (s : State) (o : CanonicalObservation) (effects : List Effect)
    → IsQuiet effects
    → Returns KeepsDark (advance_verification s o effects)
unfolding advance_verification
advance_verification-KeepsDark s o effects h =
    search (dark_rules, enter_wait-KeepsDark, conclude_verification-KeepsDark, prepare-LeadsQuietly)

start_verification-KeepsDark :
    (s : State) (o : CanonicalObservation) (target : ProfileMatch)
    → Returns KeepsDark (start_verification s o target)
unfolding start_verification
start_verification-KeepsDark s o target = search (
  Returns-bind LeadsQuietly,
  renew_proof-LeadsQuietly,
  advance_verification-KeepsDark,
  plan-LeadsQuietly,
)

classify_target-KeepsDark :
    (s : State) (o : CanonicalObservation)
    → asleep o ≡ true
    → Returns KeepsDark (classify_target s o)
unfolding classify_target classify_exact classify_unknown
classify_target-KeepsDark s o h =
    rw h search (dark_rules, enter_wait-KeepsDark, defer-KeepsDark, start_verification-KeepsDark)
      depth 8

classify_evidence-KeepsDark :
    (s : State) (o : CanonicalObservation)
    → asleep o ≡ true
    → Returns KeepsDark (classify_evidence s o)
unfolding classify_evidence
classify_evidence-KeepsDark s o h = search (dark_rules, classify_target-KeepsDark) depth 8

classify_topology-KeepsDark :
    (s : State) (o : CanonicalObservation)
    → asleep o ≡ true
    → Returns KeepsDark (classify_topology s o)
unfolding classify_topology await_unplug
classify_topology-KeepsDark s o h = search (dark_rules, classify_evidence-KeepsDark) depth 8

-- While the displays are asleep, an observation that finds no admission waiting for its dispatch
-- has no probe and no profile started by its classification.
pub classify_asleep :
    (s : State) (o : CanonicalObservation) (d : Decision)
    → asleep o ≡ true
    → observe_pending_action (classify_rounds 2) s o ≡ none
    → classify_observation s o ≡ ok d
    → any lights d.effects ≡ false
unfolding classify_observation classify_rounds
classify_asleep s o d h n e =
    (classify_topology-KeepsDark s o h).at d
      (sym (ap (λ x. or_else x (classify_topology s o)) n) ∙ e)
