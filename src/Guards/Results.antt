-- ===== src/Guards/Results.antt =====
-- The result of a worker that is being stopped.
use desktop_config.Prelude.{[], arith, ok, refl, some, ◌+◌, ◌∙◌, ◌∷◌, ◌≡◌, ◌≢◌}
use desktop_config.Guards.Timers.{IsCurrent, at_timer, handle-current, schedule-ok}
use desktop_config.Invariants.Checks.{assert_controller_invariants}
use desktop_config.Invariants.Phases.{
  check_phase_relationships, check_planning_relationships, check_preparation_slot, check_slot,
}
use desktop_config.Model.Action.{
  ApplicationAction, FinalizationAction, PreparationAction, ProbeAction,
}
use desktop_config.Model.Effect.{Effect}
use desktop_config.Model.Enums.{
  ActionKind, ActionLifecycle, ControllerPhase, PreparationState, action_lifecycle_eq,
}
use desktop_config.Model.Event.{
  ApplicationFinished, Event, EventMetadata, FinalizationFinished, PreparationFinished,
  ProbeFinished,
}
use desktop_config.Model.Identity.{ActionId}
use desktop_config.Model.State.{State}
use desktop_config.Reducer.Outcome.{schedule, stop_action}
use desktop_config.Reducer.Reduce.{handle, reduce}
use desktop_config.Reducer.Workers.{
  finished, finished_application, finished_finalization, finished_preparation, finished_probe,
}
use desktop_config.Safety.Rules.{split_checks}

-- The event reports the end of a worker that is being stopped.
pub data EndsStopping (s : State) : Event → ActionId → EventMetadata → Type 0 where
  probe :
      (e : ProbeFinished) (a : ProbeAction)
      → s.probe ≡ some a
      → a.lifecycle ≡ ActionLifecycle.stopping
      → a.action_id.kind ≡ ActionKind.probe
      → e.action_id ≡ a.action_id
      → EndsStopping s (Event.probe_finished e) a.action_id e.metadata
  application :
      (e : ApplicationFinished) (a : ApplicationAction)
      → s.application ≡ some a
      → a.lifecycle ≡ ActionLifecycle.stopping
      → a.action_id.kind ≡ ActionKind.application
      → e.action_id ≡ a.action_id
      → EndsStopping s (Event.application_finished e) a.action_id e.metadata
  preparation :
      (e : PreparationFinished) (a : PreparationAction)
      → s.preparation ≡ some a
      → a.lifecycle ≡ ActionLifecycle.stopping
      → a.action_id.kind ≡ ActionKind.preparation
      → e.action_id ≡ a.action_id
      → EndsStopping s (Event.preparation_finished e) a.action_id e.metadata
  finalization :
      (e : FinalizationFinished) (a : FinalizationAction)
      → s.finalization ≡ some a
      → a.lifecycle ≡ ActionLifecycle.stopping
      → a.action_id.kind ≡ ActionKind.finalization
      → e.action_id ≡ a.action_id
      → EndsStopping s (Event.finalization_finished e) a.action_id e.metadata

module _ (s : State) (valid_state : assert_controller_invariants s ≡ ok tt)
    (running : s.phase ≢ ControllerPhase.recovering) where
  probe_phase :
      (a : ProbeAction)
      → s.probe ≡ some a
      → a.lifecycle ≡ ActionLifecycle.stopping
      → s.phase ≡ ControllerPhase.probing
  unfolding check_phase_relationships check_slot
  probe_phase a h l = let p = (split_checks s valid_state).phases in ground arith

  application_phase :
      (a : ApplicationAction)
      → s.application ≡ some a
      → a.lifecycle ≡ ActionLifecycle.stopping
      → s.phase ≡ ControllerPhase.applying
  unfolding check_phase_relationships check_slot
  application_phase a h l = let p = (split_checks s valid_state).phases in ground arith

  finalization_phase :
      (a : FinalizationAction)
      → s.finalization ≡ some a
      → a.lifecycle ≡ ActionLifecycle.stopping
      → s.phase ≡ ControllerPhase.finalize_stopping
  unfolding check_phase_relationships check_slot
  finalization_phase a h l = let p = (split_checks s valid_state).phases in ground arith

  preparation_phase :
      (a : PreparationAction)
      → s.preparation ≡ some a
      → a.lifecycle ≡ ActionLifecycle.stopping
      → s.preparation_state ≡ PreparationState.prepare_stopping
  unfolding check_planning_relationships check_preparation_slot
  preparation_phase a h l = let p = (split_checks s valid_state).planning in ground arith

  handled :
      (e : Event) (i : ActionId) (m : EventMetadata)
      → EndsStopping s e i m
      → handle s e ≡ schedule s (m.processed_at_ms + 1000) (stop_action i ∷ [])
  unfolding handle finished finished_probe finished_application finished_preparation
      finished_finalization
  handled _ _ _ (EndsStopping.probe e a h l k q) = let p = probe_phase a h l in ground arith
  handled _ _ _ (EndsStopping.application e a h l k q) =
      let p = application_phase a h l in ground arith
  handled _ _ _ (EndsStopping.preparation e a h l k q) =
      let p = preparation_phase a h l in ground arith
  handled _ _ _ (EndsStopping.finalization e a h l k q) =
      let p = finalization_phase a h l in ground arith

  read :
      (e : Event) (i : ActionId) (m : EventMetadata)
      → IsCurrent s m
      → EndsStopping s e i m
      → reduce s e ≡ handle s e
  read _ _ _ c (EndsStopping.probe e a h l k q) = handle-current s valid_state _ refl c
  read _ _ _ c (EndsStopping.application e a h l k q) = handle-current s valid_state _ refl c
  read _ _ _ c (EndsStopping.preparation e a h l k q) = handle-current s valid_state _ refl c
  read _ _ _ c (EndsStopping.finalization e a h l k q) = handle-current s valid_state _ refl c

  -- In a state that passes the invariants, is past recovery, the result of a worker that is being
  -- stopped never ends the stop: whatever the worker reports, it is always answered by another
  -- stop, one second of waiting, and no other change.
  pub reduce-stops_again :
      (e : Event) (i : ActionId) (m : EventMetadata)
      → IsCurrent s m
      → EndsStopping s e i m
      → reduce s e
        ≡ ok (record {
          state = at_timer s (m.processed_at_ms + 1000);
          effects =
              stop_action i
              ∷ Effect.schedule (record { deadline_ms = m.processed_at_ms + 1000 })
              ∷ [];
        })
  reduce-stops_again e i m c h =
      read e i m c h ∙ handled e i m h ∙ schedule-ok s valid_state _ (stop_action i ∷ [])
