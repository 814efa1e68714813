-- ===== src/Safety/Reachable.antt =====
-- The safety rules along the runs of `reduce`.
use desktop_config.Prelude.{
  >>-left, >>=-inverse, List, Result, [], err, ok, out_of_rounds, subst, ◌>>=◌, ◌∷◌, ◌≡◌, ◌≢◌,
}
use desktop_config.Invariants.Checks.{assert_controller_invariants}
use desktop_config.Model.Effect.{Decision}
use desktop_config.Model.Event.{Event}
use desktop_config.Model.State.{State}
use desktop_config.Reducer.Reduce.{reduce}
use desktop_config.Safety.Checked.Handlers.{reduce-IsChecked, reduce_lem}
use desktop_config.Safety.Rules.{Passes-IsSafe, split_checks}
use desktop_config.Safety.Spec.{IsSafe}

-- `reduce` over the events of a log, from the first to the last.
abbrev pub run : State → List Event → Result State
run s [] = ok s
run s (e ∷ es) = do d ← reduce s e; run d.state es

-- A state that the reducer reaches from a given one: the start, and whatever a decision returns.
pub data Reachable (s : State) : State → Type 0 where
  start : Reachable s s
  step :
      (t : State) (e : Event) (d : Decision)
      → Reachable s t
      → reduce t e ≡ ok d
      → Reachable s d.state

safe : (s : State) → assert_controller_invariants s ≡ ok tt → IsSafe s
safe s h = Passes-IsSafe s (split_checks s h)

given_passes :
    (s : State) (e : Event) (d : Decision)
    → reduce s e ≡ ok d
    → assert_controller_invariants s ≡ ok tt
unfolding reduce
given_passes s e d h = >>-left (assert_controller_invariants s) _ h

-- Whenever `reduce` returns a decision, the state that it was given and the state that it returns
-- both satisfy all of the safety rules.
pub reduce-IsSafe :
    (s : State) (e : Event) (d : Decision) → reduce s e ≡ ok d → IsSafe s × IsSafe d.state
reduce-IsSafe s e d h = (safe s (given_passes s e d h), safe d.state (reduce-IsChecked s e d h))

-- `reduce` always ends: on no state and no event does the exchange between classification and the
-- withdrawal of pending admissions need more rounds than it has.
pub reduce_ends : (s : State) (e : Event) → reduce s e ≢ err out_of_rounds
reduce_ends s e = (reduce_lem s e).ends

reached_checks :
    (s t : State)
    → assert_controller_invariants s ≡ ok tt
    → Reachable s t
    → assert_controller_invariants t ≡ ok tt
reached_checks s t h Reachable.start = h
reached_checks s _ h (Reachable.step t e d r q) = reduce-IsChecked t e d q

-- Every state that is reachable from a state that passes the invariants satisfies the safety rules.
pub Reachable-IsSafe :
    (s t : State) → assert_controller_invariants s ≡ ok tt → Reachable s t → IsSafe t
Reachable-IsSafe s t h r = safe t (reached_checks s t h r)

run-Reachable : (s t u : State) (es : List Event) → Reachable s t → run t es ≡ ok u → Reachable s u
run-Reachable s t u [] r h = let p : t ≡ u = cc in subst (Reachable s) p r
run-Reachable s t u (e ∷ es) r h =
    let (d, p, q) = >>=-inverse (reduce t e) _ h in
    run-Reachable s d.state u es (Reachable.step t e d r p) q

-- A log of events that `reduce` gets through, from a state that passes the invariants, ends in a
-- state that satisfies the safety rules.
pub run-IsSafe :
    (s t : State) (es : List Event)
    → assert_controller_invariants s ≡ ok tt
    → run s es ≡ ok t
    → IsSafe t
run-IsSafe s t es h q = Reachable-IsSafe s t h (run-Reachable s s t es Reachable.start q)
