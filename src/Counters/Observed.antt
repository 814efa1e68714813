-- ===== src/Counters/Observed.antt =====
-- The counters through `_observe`.
use desktop_config.Prelude.{List, Option, ℕ}
use desktop_config.Counters.Ahead.{Ahead, Counters}
use desktop_config.Counters.Classified.{classify-Ahead}
use desktop_config.Counters.Gives.{Gives, Gives-bind, GivesEarly}
use desktop_config.Counters.Steps.{
  Ahead-if, AheadAfter, AheadWith, append-Ahead, decision-Ahead, discard-Ahead, gives_rules,
  no_op-Ahead, quiesce-Ahead, reset-Ahead, schedule-Ahead, settled_rules,
}
use desktop_config.Model.Action.{FinalizationAction, PreparationAction}
use desktop_config.Model.Effect.{Effect}
use desktop_config.Model.Observation.{CanonicalObservation}
use desktop_config.Model.State.{State}
use desktop_config.Reducer.Observe.{
  await_display_worker, cancel_application, cancel_finalization, cancel_preparation, cancel_probe,
  complete_finalization, conclude_invalid, conclude_observe, fail_finalization_result, observe,
  observe_finalizing, observe_invalid, observe_preparation_result, observe_preparing,
  observe_running, observe_topology, observe_valid, record_observation, stop_finalization,
  stop_preparation, stop_stale_application, stop_stale_finalization, stop_stale_preparation,
  stop_stale_probe, stop_stale_work,
}
use desktop_config.Reducer.Targets.{reset_application_recovery}

module _ (c : Counters) where
  cancel_probe-Ahead : (s : State) → Ahead c s → Gives (Ahead c) (cancel_probe s)
  unfolding cancel_probe
  cancel_probe-Ahead s h = search (gives_rules, settled_rules, Gives-bind (Ahead c), append-Ahead)

  cancel_application-Ahead : (s : State) → Ahead c s → Gives (Ahead c) (cancel_application s)
  unfolding cancel_application
  cancel_application-Ahead s h = search (gives_rules, Gives-bind (Ahead c), append-Ahead)

  cancel_preparation-Ahead : (s : State) → Ahead c s → Gives (AheadWith c) (cancel_preparation s)
  unfolding cancel_preparation
  cancel_preparation-Ahead s h =
      search (gives_rules, Gives-bind (Ahead c), append-Ahead, discard-Ahead)

  cancel_finalization-Ahead : (s : State) → Ahead c s → Gives (Ahead c) (cancel_finalization s)
  unfolding cancel_finalization
  cancel_finalization-Ahead s h = search (gives_rules, Gives-bind (Ahead c), append-Ahead)

  conclude_invalid-Ahead :
      (s : State) (o : CanonicalObservation) (effects : List Effect)
      → Ahead c s
      → Gives (AheadAfter c) (conclude_invalid s o effects)
  unfolding conclude_invalid
  conclude_invalid-Ahead s o effects h = search (gives_rules, schedule-Ahead, Ahead-if) depth 8

  invalid-Ahead :
      (s : State) (o : CanonicalObservation)
      → Ahead c s
      → Gives (AheadAfter c) (observe_invalid s o)
  unfolding observe_invalid
  invalid-Ahead s o h = Gives-bind (Ahead c) _ _ (cancel_probe-Ahead _ h) λ s1 h1.
      Gives-bind (Ahead c) _ _ (cancel_application-Ahead s1 h1) λ s2 h2.
        Gives-bind (AheadWith c) _ _ (cancel_preparation-Ahead s2 h2) λ x h3.
          Gives-bind (Ahead c) _ _ (cancel_finalization-Ahead x.0 h3)
            (λ s4 h4. conclude_invalid-Ahead s4 o x.1 h4)

  failed-Ahead :
      (s : State) (a : FinalizationAction)
      → Ahead c s
      → Gives (Ahead c) (fail_finalization_result s a)
  unfolding fail_finalization_result
  failed-Ahead s a h = search (gives_rules, Gives-bind (Ahead c), append-Ahead)

  stale-Ahead : (s : State) (t : ℕ) → Ahead c s → GivesEarly (AheadAfter c) (stop_stale_work s t)
  unfolding stop_stale_work stop_stale_probe stop_stale_application stop_stale_finalization
      stop_stale_preparation stop_finalization stop_preparation
  stale-Ahead s t h =
      search (gives_rules, settled_rules, Gives-bind (Ahead c), failed-Ahead, schedule-Ahead) depth
        9

  conclude_observe-Ahead :
      (s : State) (o : CanonicalObservation) (effects : List Effect)
      → Ahead c s
      → Gives (AheadAfter c) (conclude_observe s o effects)
  unfolding conclude_observe
  conclude_observe-Ahead s o effects h =
      search (gives_rules, Gives-bind (AheadAfter c), classify-Ahead, decision-Ahead)

  finalizing-Ahead :
      (s : State) (o : CanonicalObservation) (effects : List Effect) (a : FinalizationAction)
      → Ahead c s
      → Gives (AheadAfter c) (observe_finalizing s o effects a)
  unfolding observe_finalizing complete_finalization stop_finalization reset_application_recovery
  finalizing-Ahead s o effects a h =
      search
        (
          gives_rules,
          Gives-bind (Ahead c),
          Gives-bind (AheadWith c),
          append-Ahead,
          discard-Ahead,
          failed-Ahead,
          schedule-Ahead,
          quiesce-Ahead,
        )
        depth 9

  preparing-Ahead :
      (s : State) (o : CanonicalObservation) (effects : List Effect) (a : PreparationAction)
      → Ahead c s
      → Gives (AheadAfter c) (observe_preparing s o effects a)
  unfolding observe_preparing observe_preparation_result stop_preparation
  preparing-Ahead s o effects a h =
      search
        (gives_rules, Gives-bind (Ahead c), append-Ahead, schedule-Ahead, conclude_observe-Ahead)
        depth 9

  running-Ahead :
      (s : State) (o : CanonicalObservation) (effects : List Effect)
      → Ahead c s
      → Gives (AheadAfter c) (observe_running s o effects)
  unfolding observe_running await_display_worker
  running-Ahead s o effects h =
      search
        (gives_rules, schedule-Ahead, finalizing-Ahead, preparing-Ahead, conclude_observe-Ahead)
        depth 9

  topology_seen-Ahead :
      (s : State) (p : Option CanonicalObservation) (o : CanonicalObservation)
      → Ahead c s
      → Gives (AheadAfter c) (observe_topology s p o)
  unfolding observe_topology
  topology_seen-Ahead s p o h =
      search
        (gives_rules, Gives-bind (AheadWith c), stale-Ahead, reset-Ahead, running-Ahead, Ahead-if)
        depth 8

  pub observe-Ahead :
      (s : State) (o : CanonicalObservation) → Ahead c s → Gives (AheadAfter c) (observe s o)
  unfolding observe observe_valid record_observation
  observe-Ahead s o h =
      search (gives_rules, no_op-Ahead, schedule-Ahead, invalid-Ahead, topology_seen-Ahead) depth 9
