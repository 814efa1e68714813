-- ===== src/Once/Dispatch.antt =====
-- What the acknowledgement of a dispatch records, from
-- .local/lib/monitor-controller/monitor_controller/reducer.py.
use desktop_config.Prelude.{
  >>-right, Eq, List, [], add, ap, arith, elem, none, ok, refl, some, sym, true, ℕ, ◌+◌, ◌∙◌, ◌∷◌,
  ◌≡◌,
}
use desktop_config.Guards.Timers.{IsCurrent, handle-current}
use desktop_config.Invariants.Checks.{assert_controller_invariants}
use desktop_config.Model.Action.{ApplicationAction, ProbeAction}
use desktop_config.Model.Effect.{Decision, Effect}
use desktop_config.Model.Enums.{ActionKind, ActionLifecycle, ControllerPhase}
use desktop_config.Model.Event.{Event, ProbeDispatched}
use desktop_config.Model.Identity.{WorkerUnit, application_attempt_key_eq, probe_attempt_key_eq}
use desktop_config.Model.State.{State}
use desktop_config.Reducer.Outcome.{decision}
use desktop_config.Reducer.Reduce.{handle, reduce}
use desktop_config.Reducer.Timing.{worker_deadline_ms}
use desktop_config.Reducer.Workers.{dispatched, dispatched_probe}

pub elem_self : {A : Type 0} ⦃e : Eq A⦄ (a : A) (xs : List A) → elem a (add xs a) ≡ true
elem_self a [] = ground arith
elem_self a (x ∷ xs) = ground (arith, elem_self a xs)

abbrev pub running_probe : ProbeAction → WorkerUnit → ℕ → ProbeAction
running_probe a u t = record a {
  lifecycle = ActionLifecycle.dispatched;
  unit = some u;
  worker_deadline_ms = some (t + 30000);
}

abbrev pub running_application : ApplicationAction → WorkerUnit → ℕ → ApplicationAction
running_application a u t = record a {
  lifecycle = ActionLifecycle.dispatched;
  unit = some u;
  worker_deadline_ms = some (t + 120000);
}

abbrev pub with_probe : State → ProbeAction → WorkerUnit → ℕ → State
with_probe s a u t = record s {
  phase = ControllerPhase.probing;
  probe = some (running_probe a u t);
  attempted_probe_keys = add s.attempted_probe_keys a.key;
  next_timer_ms = none;
}

abbrev pub with_application : State → ApplicationAction → WorkerUnit → ℕ → State
with_application s a u t = record s {
  phase = ControllerPhase.applying;
  application = some (running_application a u t);
  attempted_application_keys = add s.attempted_application_keys a.key;
  next_timer_ms = none;
}

probe-running :
    (s : State) (u : WorkerUnit) (t : ℕ) (a : ProbeAction)
    → s.phase ≡ ControllerPhase.probe_pending
    → s.probe ≡ some a
    → a.action_id.kind ≡ ActionKind.probe
    → a.lifecycle ≡ ActionLifecycle.admitted
    → dispatched s a.action_id u t ≡ decision (with_probe s a u t) []
unfolding dispatched dispatched_probe worker_deadline_ms
probe-running s u t a p q k l = ground arith

pub decision-inverse :
    (t : State) (effects : List Effect) (d : Decision)
    → decision t effects ≡ ok d
    → d ≡ record { state = t; effects = effects }
unfolding decision
decision-inverse t effects d h = let q = >>-right (assert_controller_invariants t) _ h in cc

module _ (s : State) (valid_state : assert_controller_invariants s ≡ ok tt) where
  pub probe-dispatched :
      (e : ProbeDispatched) (a : ProbeAction) (d : Decision)
      → IsCurrent s e.metadata
      → s.phase ≡ ControllerPhase.probe_pending
      → s.probe ≡ some a
      → a.action_id.kind ≡ ActionKind.probe
      → a.lifecycle ≡ ActionLifecycle.admitted
      → e.action_id ≡ a.action_id
      → reduce s (Event.probe_dispatched e) ≡ ok d
      → d ≡ record { state = with_probe s a e.unit e.metadata.processed_at_ms; effects = [] }
  unfolding handle
  probe-dispatched e a d c p q k l i h = decision-inverse _ [] d (
      sym (probe-running s e.unit e.metadata.processed_at_ms a p q k l)
      ∙ ap (λ x. dispatched s x e.unit e.metadata.processed_at_ms) (sym i)
      ∙ sym (handle-current s valid_state (Event.probe_dispatched e) refl c)
      ∙ h)
