-- ===== src/Controller/Spent.antt =====
-- That an admission is spent once its worker is submitted, from
-- .local/lib/monitor-controller/monitor_controller/runtime/controller.py and reducer.py beside it.
use desktop_config.Prelude.{
  >>-left, >>=-inverse, Bool, List, Option, arith, false, inl, maybe, nat_eq, none, ok, option_eq,
  refl, some, subst, sym, true, ℕ, ◌&&◌, ◌==◌, ◌∙◌, ◌∷◌, ◌≡◌, ◌≢◌,
}
use desktop_config.Controller.Dispatch.{
  DispatchEffect, dispatched_event, effect_generation, effect_id,
}
use desktop_config.Controller.Effects.{stamp}
use desktop_config.Controller.Follows.{ok-inverse}
use desktop_config.Controller.Machine.{
  Machine, Task, effect_is_current, final_dispatch_fence_passes, process_event, record_generation,
  slot_of,
}
use desktop_config.Controller.Recorded.{current}
use desktop_config.Controller.Slots.{dispatched-spent}
use desktop_config.Controller.Starting.{Start, acknowledge_dispatch, start_prepared}
use desktop_config.Controller.Steps.{is_submission}
use desktop_config.Guards.Timers.{IsCurrent, handle-current}
use desktop_config.Invariants.Checks.{assert_controller_invariants}
use desktop_config.Model.Action.{ActionRecord, record_id, record_lifecycle}
use desktop_config.Model.Effect.{Decision}
use desktop_config.Model.Enums.{
  ActionLifecycle, ControllerPhase, action_lifecycle_eq, controller_phase_eq, preparation_state_eq,
}
use desktop_config.Model.Event.{Event, EventMetadata, event_metadata}
use desktop_config.Model.Identity.{
  WorkerUnit, action_id_eq, application_attempt_key_eq, event_generation_eq, probe_attempt_key_eq,
}
use desktop_config.Model.State.{State}
use desktop_config.Reducer.Reduce.{handle, is_boot_changed, reduce}
use desktop_config.Reducer.Workers.{dispatched}
use desktop_config.Safety.Rules.{split_checks}

handle-dispatched :
    (s : State) (effect : DispatchEffect) (u : WorkerUnit) (x : EventMetadata)
    → handle s (dispatched_event effect u x) ≡ dispatched s (effect_id effect) u x.processed_at_ms
unfolding handle dispatched_event
handle-dispatched s (DispatchEffect.probe e) u x = refl
handle-dispatched s (DispatchEffect.apply e) u x = refl
handle-dispatched s (DispatchEffect.prepare e) u x = refl
handle-dispatched s (DispatchEffect.finalize e) u x = refl

false_and : (a b c : Bool) → (a && b) ≡ false → (a && b && c) ≡ false
false_and true b c h = ground arith
false_and false b c h = refl

and_false : (a b : Bool) → b ≡ false → (a && b) ≡ false
and_false a b h = ground arith

slot_not_current :
    (slot : Option ActionRecord) (effect : DispatchEffect)
    → current slot (effect_id effect) ≡ false
    → maybe slot false (λ action.
      record_id action == effect_id effect
      && record_lifecycle action == ActionLifecycle.admitted
      && record_generation action == some (effect_generation effect))
      ≡ false
unfolding current
slot_not_current none effect h = refl
slot_not_current (some a) effect h =
    false_and (record_id a == effect_id effect) (record_lifecycle a == ActionLifecycle.admitted)
      (record_generation a == some (effect_generation effect)) h

not_current :
    (s : State) (effect : DispatchEffect)
    → current (slot_of s (effect_id effect).kind) (effect_id effect) ≡ false
    → effect_is_current s effect ≡ false
unfolding effect_is_current
not_current s effect h = slot_not_current _ effect h

module _ (m : Machine) (u : WorkerUnit) (now_ms : ℕ)
    (h : m.state.phase ≢ ControllerPhase.recovering) where
  reported_now :
      (effect : DispatchEffect)
      → IsCurrent m.state (event_metadata (dispatched_event effect u (stamp m now_ms)))
  unfolding dispatched_event
  reported_now (DispatchEffect.probe e) = record { boot = refl; recovered = inl h }
  reported_now (DispatchEffect.apply e) = record { boot = refl; recovered = inl h }
  reported_now (DispatchEffect.prepare e) = record { boot = refl; recovered = inl h }
  reported_now (DispatchEffect.finalize e) = record { boot = refl; recovered = inl h }

same_boot :
    (effect : DispatchEffect) (u : WorkerUnit) (x : EventMetadata)
    → is_boot_changed (dispatched_event effect u x) ≡ false
unfolding dispatched_event
same_boot (DispatchEffect.probe e) u x = refl
same_boot (DispatchEffect.apply e) u x = refl
same_boot (DispatchEffect.prepare e) u x = refl
same_boot (DispatchEffect.finalize e) u x = refl

reduced-valid :
    (s : State) (e : Event) (d : Decision)
    → reduce s e ≡ ok d
    → assert_controller_invariants s ≡ ok tt
unfolding reduce
reduced-valid s e d h = >>-left (assert_controller_invariants s) _ h

acknowledged-spends :
    (m n : Machine) (effect : DispatchEffect) (u : WorkerUnit) (tasks : List Task) (now_ms : ℕ)
    → m.state.phase ≢ ControllerPhase.recovering
    → process_event
        (record m { submitted = effect ∷ m.submitted; tasks = tasks })
        false
        (dispatched_event effect u (stamp m now_ms))
      ≡ ok n
    → (effect_is_current n.stored effect ≡ false) × (final_dispatch_fence_passes n effect ≡ false)
unfolding process_event final_dispatch_fence_passes
acknowledged-spends m n effect u tasks now_ms h g =
    let (d, r, q) = >>=-inverse (reduce m.state (dispatched_event effect u (stamp m now_ms))) _ g in
    let valid_state = reduced-valid m.state _ d r in
    let i = effect_id effect in
    let w =
      dispatched-spent m.state (split_checks m.state valid_state) h i.controller_instance i.kind
        i.sequence u now_ms d
        (sym (handle-dispatched m.state effect u (stamp m now_ms))
          ∙ sym (
              handle-current m.state valid_state _ (same_boot effect u (stamp m now_ms))
                (reported_now m u now_ms h effect))
          ∙ r) in
    let c = not_current d.state effect w in
    subst
      (λ (x : Machine).
        (effect_is_current x.stored effect ≡ false)
        × (final_dispatch_fence_passes x effect ≡ false))
      (ok-inverse _ n q) (c, and_false _ _ c)

-- However a start that submits a worker ends, the state that the store then holds does not admit
-- the worker's action any more, and the last fence refuses the effect: the submission spends the
-- admission. The state is not one that recovers, in which no action is held.
pub start_prepared-spends :
    (m n : Machine) (effect : DispatchEffect) (start : Start) (now_ms : ℕ)
    → m.state.phase ≢ ControllerPhase.recovering
    → is_submission start ≡ true
    → start_prepared m effect start now_ms ≡ ok n
    → (effect_is_current n.stored effect ≡ false) × (final_dispatch_fence_passes n effect ≡ false)
unfolding start_prepared acknowledge_dispatch is_submission
start_prepared-spends m n effect (Start.refused reason) now_ms h b g = absurd (cc)
start_prepared-spends m n effect Start.fenced_off now_ms h b g = absurd (cc)
start_prepared-spends m n effect (Start.accepted u) now_ms h b g =
    acknowledged-spends m n effect u _ now_ms h g
start_prepared-spends m n effect (Start.uncertain u reason) now_ms h b g =
    acknowledged-spends m n effect u _ now_ms h g
start_prepared-spends m n effect (Start.ended u detail c) now_ms h b g =
    acknowledged-spends m n effect u _ now_ms h g
