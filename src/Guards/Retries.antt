-- ===== src/Guards/Retries.antt =====
-- What a failed observation does to the worker that is being stopped, from `reduce` and
-- `_stopping_mutator` of .local/lib/monitor-controller/monitor_controller/reducer.py.
use desktop_config.Prelude.{List, [], arith, inl, inr, ok, some, ◌++◌, ◌+◌, ◌∷◌, ◌≡◌, ◌≢◌}
use desktop_config.Guards.Timers.{IsCurrent, at_timer, observation_failed-schedules}
use desktop_config.Invariants.Checks.{assert_controller_invariants}
use desktop_config.Model.Action.{
  ApplicationAction, FinalizationAction, PreparationAction, ProbeAction,
}
use desktop_config.Model.Effect.{Effect}
use desktop_config.Model.Enums.{ActionLifecycle, action_lifecycle_eq}
use desktop_config.Model.Event.{Event, ObservationFailed}
use desktop_config.Model.Identity.{ActionId}
use desktop_config.Model.State.{State}
use desktop_config.Reducer.Observe.{stop_effects}
use desktop_config.Reducer.Reduce.{reduce}
use desktop_config.Reducer.Tombstones.{stopping_mutator}
use desktop_config.Safety.Rules.{Passes-IsSafe, split_checks}
use desktop_config.Safety.Spec.{Slot, lifecycle_at}

abbrev pub stops : ActionId → List Effect
stops i = Effect.stop_action (record { action_id = i }) ∷ []

-- The stops that are asked for: that of the action that is being stopped, whatever its slot, and none
-- where no action is.
pub record StopsAgain (s : State) (asked : List Effect) : Type 0 where
  pub probe :
      (a : ProbeAction)
      → s.probe ≡ some a
      → a.lifecycle ≡ ActionLifecycle.stopping
      → asked ≡ stops a.action_id
  pub application :
      (a : ApplicationAction)
      → s.application ≡ some a
      → a.lifecycle ≡ ActionLifecycle.stopping
      → asked ≡ stops a.action_id
  pub preparation :
      (a : PreparationAction)
      → s.preparation ≡ some a
      → a.lifecycle ≡ ActionLifecycle.stopping
      → asked ≡ stops a.action_id
  pub finalization :
      (a : FinalizationAction)
      → s.finalization ≡ some a
      → a.lifecycle ≡ ActionLifecycle.stopping
      → asked ≡ stops a.action_id
  pub idle : ((k : Slot) → lifecycle_at s k ≢ some ActionLifecycle.stopping) → asked ≡ []

module _ (s : State) (valid_state : assert_controller_invariants s ≡ ok tt) where
  alone :
      (j k : Slot)
      → lifecycle_at s j ≡ some ActionLifecycle.stopping
      → lifecycle_at s k ≡ some ActionLifecycle.stopping
      → j ≡ k
  alone j k p q =
      (Passes-IsSafe s (split_checks s valid_state)).one_mutation j k (inr (inl p)) (inr (inl q))

  stop_effects-StopsAgain : StopsAgain s (stop_effects s)
  unfolding stopping_mutator
  stop_effects-StopsAgain = record {
    probe = λ a e l. ground arith;
    application = λ a e l.
        let here : lifecycle_at s Slot.application ≡ some ActionLifecycle.stopping = cc in
        let no_probe : lifecycle_at s Slot.probe ≢ some ActionLifecycle.stopping =
          λ q. let same = alone Slot.probe Slot.application q here in absurd (cc) in
        ground arith;
    preparation = λ a e l.
        let here : lifecycle_at s Slot.preparation ≡ some ActionLifecycle.stopping = cc in
        let no_probe : lifecycle_at s Slot.probe ≢ some ActionLifecycle.stopping =
          λ q. let same = alone Slot.probe Slot.preparation q here in absurd (cc) in
        let no_application : lifecycle_at s Slot.application ≢ some ActionLifecycle.stopping =
          λ q. let same = alone Slot.application Slot.preparation q here in absurd (cc) in
        ground arith;
    finalization = λ a e l.
        let here : lifecycle_at s Slot.finalization ≡ some ActionLifecycle.stopping = cc in
        let no_probe : lifecycle_at s Slot.probe ≢ some ActionLifecycle.stopping =
          λ q. let same = alone Slot.probe Slot.finalization q here in absurd (cc) in
        let no_application : lifecycle_at s Slot.application ≢ some ActionLifecycle.stopping =
          λ q. let same = alone Slot.application Slot.finalization q here in absurd (cc) in
        let no_preparation : lifecycle_at s Slot.preparation ≢ some ActionLifecycle.stopping =
          λ q. let same = alone Slot.preparation Slot.finalization q here in absurd (cc) in
        ground arith;
    idle = λ none_stopping.
        let a = none_stopping Slot.probe in
        let b = none_stopping Slot.application in
        let c = none_stopping Slot.preparation in
        let d = none_stopping Slot.finalization in ground arith;
  }

  -- In a state that passes the invariants and does not wait in recovery for workers, a failed
  -- observation of its boot is always answered: it is retried one second later, the probe, the
  -- application, the preparation or the finalization that is being stopped, if there is one, is
  -- asked to stop again, and nothing else is asked for or changed.
  pub observation_failed-retries :
      (e : ObservationFailed)
      → IsCurrent s e.metadata
      → (asked : List Effect) × (reduce s (Event.observation_failed e)
          ≡ ok (record {
            state = at_timer s (e.metadata.processed_at_ms + 1000);
            effects =
                asked
                ++ Effect.schedule (record { deadline_ms = e.metadata.processed_at_ms + 1000 })
                  ∷ [];
          }))
        × StopsAgain s asked
  observation_failed-retries e c =
      (stop_effects s, observation_failed-schedules s valid_state e c, stop_effects-StopsAgain)
