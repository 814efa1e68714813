-- ===== src/Guards/Stopping.antt =====
-- While a worker is being stopped, nothing else is started.
use desktop_config.Prelude.{
  >>-right, List, [], arith, false, keep, length, none, ok, refl, some, sym, true, ℕ, ◌++◌, ◌+◌,
  ◌∙◌, ◌∷◌, ◌≡◌, ◌≤◌,
}
use desktop_config.Guards.Timers.{IsCurrent, at_timer, handle-current}
use desktop_config.Invariants.Checks.{assert_controller_invariants}
use desktop_config.Invariants.Identities.{check_worker_acknowledgements}
use desktop_config.Invariants.Rules.{in_flight, mutators}
use desktop_config.Model.Action.{ActionRecord, record_id}
use desktop_config.Model.Effect.{Decision, Effect}
use desktop_config.Model.Enums.{ActionLifecycle}
use desktop_config.Model.Event.{Event, ObservationCompleted, event_metadata}
use desktop_config.Model.Observation.{CanonicalObservation, valid}
use desktop_config.Model.State.{State}
use desktop_config.Reducer.Observe.{
  internal_application, observe, observe_valid, outdated, record_observation,
}
use desktop_config.Reducer.Outcome.{decision, schedule, stop_action}
use desktop_config.Reducer.Reduce.{handle, reduce}
use desktop_config.Reducer.Tombstones.{stopping_mutator}
use desktop_config.Safety.Rules.{split_checks}

module _ (s : State) (valid_state : assert_controller_invariants s ≡ ok tt) where
  lone : length (keep in_flight (mutators s)) ≤ 1
  unfolding check_worker_acknowledgements
  lone = let p = (split_checks s valid_state).workers in ground arith

  -- No application is dispatched while a worker is being stopped.
  no_dispatch :
      (a : ActionRecord)
      → stopping_mutator s ≡ some a
      → internal_application s (ActionLifecycle.dispatched ∷ []) ≡ none
  unfolding stopping_mutator
  no_dispatch a h = let l = lone in ground arith

  schedule-inverse :
      (t : State) (at : ℕ) (effects : List Effect) (d : Decision)
      → schedule t at effects ≡ ok d
      → d ≡ record {
        state = at_timer t at;
        effects = effects ++ Effect.schedule (record { deadline_ms = at }) ∷ [];
      }
  unfolding schedule decision
  schedule-inverse t at effects d h =
      let q = >>-right (assert_controller_invariants (at_timer t at)) _ h in cc

  observe-reschedules :
      (o : CanonicalObservation) (a : ActionRecord)
      → outdated s o ≡ false
      → valid o ≡ true
      → stopping_mutator s ≡ some a
      → observe s o
        ≡ schedule
            (record_observation s o)
            (o.observed_at_ms + 1000)
            (stop_action (record_id a) ∷ [])
  unfolding observe observe_valid record_observation stopping_mutator
  observe-reschedules o a n v h = let k = no_dispatch a h in ground arith

  -- In a state that passes the invariants, does not wait in recovery for workers and is stopping
  -- a worker, a valid sample that is not outdated decides nothing but another stop of that
  -- worker: the sample is recorded, the stop is asked for again, and the next look at the worker
  -- is one second later.
  pub observe-stops :
      (e : ObservationCompleted) (a : ActionRecord) (d : Decision)
      → IsCurrent s (event_metadata (Event.observation_completed e))
      → outdated s e.observation ≡ false
      → valid e.observation ≡ true
      → stopping_mutator s ≡ some a
      → reduce s (Event.observation_completed e) ≡ ok d
      → d ≡ record {
        state = at_timer (record_observation s e.observation) (e.observation.observed_at_ms + 1000);
        effects =
            stop_action (record_id a)
            ∷ Effect.schedule (record { deadline_ms = e.observation.observed_at_ms + 1000 })
            ∷ [];
      }
  unfolding handle
  observe-stops e a d c n v h q = schedule-inverse _ _ _ d (
      sym (observe-reschedules e.observation a n v h)
      ∙ sym (handle-current s valid_state (Event.observation_completed e) refl c)
      ∙ q)
