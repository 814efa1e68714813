-- ===== src/Controller/Recorded.antt =====
-- How the acknowledgement of a dispatch leaves the slot of its action, for any of the slots that
-- `_dispatched` of .local/lib/monitor-controller/monitor_controller/reducer.py writes.
use mathlib.Core.Option
use desktop_config.Prelude.{
  >>=-inverse, Bool, Bool-cases, Option, Option-cases, Result, String, [], add, false, inl, inr,
  maybe, nat_eq, none, ok, option_eq, refl, some, sym, true, ℕ, ◌&&◌, ◌==◌, ◌>>=◌, ◌∙◌, ◌≡◌,
}
use desktop_config.Invariants.Phases.{
  check_preparation_slot, check_slot, expected_application_lifecycles,
  expected_finalization_lifecycles, expected_preparation, expected_probe_lifecycles,
}
use desktop_config.Model.Action.{
  ActionRecord, ApplicationAction, FinalizationAction, PreparationAction, ProbeAction, record_id,
  record_lifecycle,
}
use desktop_config.Model.Effect.{Decision}
use desktop_config.Model.Enums.{
  ActionLifecycle, ActionLifecycle-discrete, ControllerPhase, PreparationState, action_lifecycle_eq,
  controller_phase_eq, preparation_state_eq,
}
use desktop_config.Model.Identity.{
  ActionId, WorkerUnit, action_id_eq, application_attempt_key_eq, event_generation_eq,
  probe_attempt_key_eq,
}
use desktop_config.Model.State.{State}
use desktop_config.Once.Dispatch.{decision-inverse}
use desktop_config.Reducer.Outcome.{decision}
use desktop_config.Reducer.Timing.{worker_deadline_ms}

-- Whether a slot has the action, admitted
unfoldable pub current : Option ActionRecord → ActionId → Bool
current slot i =
    maybe slot false
      λ action. record_id action == i && record_lifecycle action == ActionLifecycle.admitted

decided-state : (s : State) (d : Decision) → decision s [] ≡ ok d → d.state ≡ s
decided-state s d h = let e = decision-inverse s [] d h in cc

-- A handler that records the dispatch of the admitted action of a slot, and does nothing else,
-- leaves the slot without it.
module _ {A : Type 0} (slot : State → Option A) (of : A → ActionRecord) (s : State) (i : ActionId)
    (t : ℕ) (made : Result Decision) (sent : A → ℕ → State)
    (missing : slot s ≡ none → made ≡ decision s [])
    (kept : (a : A) → slot s ≡ some a → current (some (of a)) i ≡ false → made ≡ decision s [])
    (recorded : (a : A)
      → slot s ≡ some a
      → current (some (of a)) i ≡ true
      → made ≡ (worker_deadline_ms i t >>= λ (deadline_ms : ℕ). decision (sent a deadline_ms) []))
    (running : (a : A) (deadline_ms : ℕ)
      → current (Option.map of (slot (sent a deadline_ms))) i ≡ false) where
  pub slot-spent : (d : Decision) → made ≡ ok d → current (Option.map of (slot d.state)) i ≡ false
  unfolding current
  slot-spent d g = elim (Option-cases (slot s)) [
    | inl e ↦ let q = decided-state s d (sym (missing e) ∙ g) in rw (q, e) refl
    | inr (a, e) ↦ elim (Bool-cases (current (some (of a)) i)) [
      | inl c ↦
          let (deadline_ms, w, r) =
            >>=-inverse (worker_deadline_ms i t) _ (sym (recorded a e c) ∙ g) in
          let q = decided-state _ d r in rw q (running a deadline_ms)
      | inr c ↦ let q = decided-state s d (sym (kept a e c) ∙ g) in rw (q, e) c
    ]
  ]

-- A running action is not current.
pub gone : (same : Bool) → (same && ActionLifecycle.dispatched == ActionLifecycle.admitted) ≡ false
unfolding ActionLifecycle-discrete
gone true = refl
gone false = refl

abbrev pub sent_probe : State → WorkerUnit → ProbeAction → ℕ → State
sent_probe s u a deadline_ms = record s {
  phase = ControllerPhase.probing;
  probe = some (record a {
    lifecycle = ActionLifecycle.dispatched;
    unit = some u;
    worker_deadline_ms = some deadline_ms;
  });
  attempted_probe_keys = add s.attempted_probe_keys a.key;
  next_timer_ms = none;
}

pub probe_awaits :
    (p : ControllerPhase) (label : String)
    → check_slot (some ActionLifecycle.admitted) (expected_probe_lifecycles p) label ≡ ok tt
    → p ≡ ControllerPhase.probe_pending
unfolding check_slot ActionLifecycle-discrete
probe_awaits ControllerPhase.probe_pending label h = refl
probe_awaits ControllerPhase.probing label h = absurd (cc)
probe_awaits ControllerPhase.probe_failed label h = absurd (cc)
probe_awaits _ label h = absurd (cc)

abbrev pub sent_application : State → WorkerUnit → ApplicationAction → ℕ → State
sent_application s u a deadline_ms = record s {
  phase = ControllerPhase.applying;
  application = some (record a {
    lifecycle = ActionLifecycle.dispatched;
    unit = some u;
    worker_deadline_ms = some deadline_ms;
  });
  attempted_application_keys = add s.attempted_application_keys a.key;
  next_timer_ms = none;
}

pub application_awaits :
    (p : ControllerPhase) (label : String)
    → check_slot (some ActionLifecycle.admitted) (expected_application_lifecycles p) label ≡ ok tt
    → p ≡ ControllerPhase.apply_pending
unfolding check_slot ActionLifecycle-discrete
application_awaits ControllerPhase.apply_pending label h = refl
application_awaits ControllerPhase.applying label h = absurd (cc)
application_awaits ControllerPhase.apply_failed label h = absurd (cc)
application_awaits _ label h = absurd (cc)

abbrev pub sent_preparation : State → WorkerUnit → PreparationAction → ℕ → State
sent_preparation s u a deadline_ms = record s {
  preparation_state = PreparationState.preparing;
  preparation = some (record a {
    lifecycle = ActionLifecycle.dispatched;
    unit = some u;
    worker_deadline_ms = some deadline_ms;
  });
}

pub preparation_awaits :
    (p : PreparationState)
    → check_preparation_slot (some ActionLifecycle.admitted) (expected_preparation p) ≡ ok tt
    → p ≡ PreparationState.prepare_pending
unfolding check_preparation_slot ActionLifecycle-discrete
preparation_awaits PreparationState.prepare_pending h = refl
preparation_awaits PreparationState.preparing h = absurd (cc)
preparation_awaits PreparationState.prepared h = absurd (cc)
preparation_awaits PreparationState.prepare_stopping h = absurd (cc)
preparation_awaits PreparationState.prepare_failed h = absurd (cc)
preparation_awaits PreparationState.prepare_idle h = absurd (cc)

abbrev pub sent_finalization : State → WorkerUnit → FinalizationAction → ℕ → State
sent_finalization s u a deadline_ms = record s {
  phase = ControllerPhase.finalizing;
  finalization = some (record a {
    lifecycle = ActionLifecycle.dispatched;
    unit = some u;
    worker_deadline_ms = some deadline_ms;
  });
}

pub finalization_awaits :
    (p : ControllerPhase) (label : String)
    → check_slot (some ActionLifecycle.admitted) (expected_finalization_lifecycles p) label ≡ ok tt
    → p ≡ ControllerPhase.finalize_pending
unfolding check_slot ActionLifecycle-discrete
finalization_awaits ControllerPhase.finalize_pending label h = refl
finalization_awaits ControllerPhase.finalizing label h = absurd (cc)
finalization_awaits ControllerPhase.finalize_stopping label h = absurd (cc)
finalization_awaits ControllerPhase.finalize_failed label h = absurd (cc)
finalization_awaits _ label h = absurd (cc)
