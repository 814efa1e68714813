-- ===== src/Controller/Slots.antt =====
-- What `_dispatched` of .local/lib/monitor-controller/monitor_controller/reducer.py leaves in the slot
-- of the action that it is called for.
use mathlib.Core.Option
use desktop_config.Prelude.{
  &&-right, ==→≡, arith, false, nat_eq, ok, option_eq, refl, some, ℕ, ◌==◌, ◌≡◌, ◌≢◌,
}
use desktop_config.Controller.Machine.{slot_of}
use desktop_config.Controller.Recorded.{
  application_awaits, current, finalization_awaits, gone, preparation_awaits, probe_awaits,
  sent_application, sent_finalization, sent_preparation, sent_probe, slot-spent,
}
use desktop_config.Invariants.Phases.{
  check_phase_relationships, check_planning_relationships, check_preparation_slot, check_slot,
  expected_application_lifecycles, expected_finalization_lifecycles, expected_preparation,
  expected_probe_lifecycles,
}
use desktop_config.Model.Action.{
  ActionRecord, ApplicationAction, FinalizationAction, PreparationAction, ProbeAction,
}
use desktop_config.Model.Effect.{Decision}
use desktop_config.Model.Enums.{
  ActionKind, ActionLifecycle, ControllerPhase, PreparationState, action_lifecycle_eq,
  controller_phase_eq, preparation_state_eq,
}
use desktop_config.Model.Identity.{
  ActionId, ControllerInstanceId, WorkerUnit, action_id_eq, application_attempt_key_eq,
  event_generation_eq, probe_attempt_key_eq,
}
use desktop_config.Model.State.{State}
use desktop_config.Reducer.Outcome.{no_op}
use desktop_config.Reducer.Workers.{
  dispatched, dispatched_application, dispatched_finalization, dispatched_preparation,
  dispatched_probe,
}
use desktop_config.Safety.Rules.{Passes}

module _ (s : State) (p : Passes s) (h : s.phase ≢ ControllerPhase.recovering) where
  probe_phase :
      (a : ProbeAction)
      → s.probe ≡ some a
      → a.lifecycle ≡ ActionLifecycle.admitted
      → s.phase ≡ ControllerPhase.probe_pending
  unfolding check_phase_relationships
  probe_phase a e l =
      let c : check_slot (some ActionLifecycle.admitted) (expected_probe_lifecycles s.phase) "probe"
          ≡ ok tt =
        ground (arith, p.phases, h, e, l) in
      probe_awaits s.phase "probe" c

  probe-spent :
      (i : ActionId) (u : WorkerUnit) (t : ℕ) (d : Decision)
      → dispatched_probe s i u t ≡ ok d
      → current (Option.map ActionRecord.probe d.state.probe) i ≡ false
  unfolding dispatched_probe current no_op
  probe-spent i u t d g =
      slot-spent (λ (x : State). x.probe) ActionRecord.probe s i t _ (sent_probe s u)
        (λ e. ground arith) (λ a e c. ground arith)
        (λ a e c.
          let l : a.lifecycle ≡ ActionLifecycle.admitted = ==→≡ _ _ (&&-right _ _ c) in
          let w = probe_phase a e l in ground arith)
        (λ a deadline_ms. gone (a.action_id == i)) d g

  application_phase :
      (a : ApplicationAction)
      → s.application ≡ some a
      → a.lifecycle ≡ ActionLifecycle.admitted
      → s.phase ≡ ControllerPhase.apply_pending
  unfolding check_phase_relationships
  application_phase a e l =
      let c : check_slot (some ActionLifecycle.admitted) (expected_application_lifecycles s.phase)
            "application"
          ≡ ok tt =
        ground (arith, p.phases, h, e, l) in
      application_awaits s.phase "application" c

  application-spent :
      (i : ActionId) (u : WorkerUnit) (t : ℕ) (d : Decision)
      → dispatched_application s i u t ≡ ok d
      → current (Option.map ActionRecord.application d.state.application) i ≡ false
  unfolding dispatched_application current no_op
  application-spent i u t d g =
      slot-spent (λ (x : State). x.application) ActionRecord.application s i t _
        (sent_application s u) (λ e. ground arith) (λ a e c. ground arith)
        (λ a e c.
          let l : a.lifecycle ≡ ActionLifecycle.admitted = ==→≡ _ _ (&&-right _ _ c) in
          let w = application_phase a e l in ground arith)
        (λ a deadline_ms. gone (a.action_id == i)) d g

  preparation_phase :
      (a : PreparationAction)
      → s.preparation ≡ some a
      → a.lifecycle ≡ ActionLifecycle.admitted
      → s.preparation_state ≡ PreparationState.prepare_pending
  unfolding check_planning_relationships
  preparation_phase a e l =
      let c : check_preparation_slot (some ActionLifecycle.admitted)
            (expected_preparation s.preparation_state)
          ≡ ok tt =
        ground (arith, p.planning, h, e, l) in
      preparation_awaits s.preparation_state c

  preparation-spent :
      (i : ActionId) (u : WorkerUnit) (t : ℕ) (d : Decision)
      → dispatched_preparation s i u t ≡ ok d
      → current (Option.map ActionRecord.preparation d.state.preparation) i ≡ false
  unfolding dispatched_preparation current no_op
  preparation-spent i u t d g =
      slot-spent (λ (x : State). x.preparation) ActionRecord.preparation s i t _
        (sent_preparation s u) (λ e. ground arith) (λ a e c. ground arith)
        (λ a e c.
          let l : a.lifecycle ≡ ActionLifecycle.admitted = ==→≡ _ _ (&&-right _ _ c) in
          let w = preparation_phase a e l in ground arith)
        (λ a deadline_ms. gone (a.action_id == i)) d g

  finalization_phase :
      (a : FinalizationAction)
      → s.finalization ≡ some a
      → a.lifecycle ≡ ActionLifecycle.admitted
      → s.phase ≡ ControllerPhase.finalize_pending
  unfolding check_phase_relationships
  finalization_phase a e l =
      let c : check_slot (some ActionLifecycle.admitted) (expected_finalization_lifecycles s.phase)
            "finalization"
          ≡ ok tt =
        ground (arith, p.phases, h, e, l) in
      finalization_awaits s.phase "finalization" c

  finalization-spent :
      (i : ActionId) (u : WorkerUnit) (t : ℕ) (d : Decision)
      → dispatched_finalization s i u t ≡ ok d
      → current (Option.map ActionRecord.finalization d.state.finalization) i ≡ false
  unfolding dispatched_finalization current no_op
  finalization-spent i u t d g =
      slot-spent (λ (x : State). x.finalization) ActionRecord.finalization s i t _
        (sent_finalization s u) (λ e. ground arith) (λ a e c. ground arith)
        (λ a e c.
          let l : a.lifecycle ≡ ActionLifecycle.admitted = ==→≡ _ _ (&&-right _ _ c) in
          let w = finalization_phase a e l in ground arith)
        (λ a deadline_ms. gone (a.action_id == i)) d g

  pub dispatched-spent :
      (c : ControllerInstanceId) (k : ActionKind) (n : ℕ) (u : WorkerUnit) (t : ℕ) (d : Decision)
      → dispatched s (record { controller_instance = c; kind = k; sequence = n }) u t ≡ ok d
      → current (slot_of d.state k) (record { controller_instance = c; kind = k; sequence = n })
        ≡ false
  unfolding dispatched current
  dispatched-spent c ActionKind.probe n u t d g = probe-spent _ u t d g
  dispatched-spent c ActionKind.application n u t d g = application-spent _ u t d g
  dispatched-spent c ActionKind.preparation n u t d g = preparation-spent _ u t d g
  dispatched-spent c ActionKind.finalization n u t d g = finalization-spent _ u t d g
  dispatched-spent c ActionKind.plan n u t d g = refl
