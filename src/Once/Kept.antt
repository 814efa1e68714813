-- ===== src/Once/Kept.antt =====
-- The probe keys that a run without a change of the boot has spent, from `reduce` of
-- .local/lib/monitor-controller/monitor_controller/reducer.py.
use desktop_config.Prelude.{false, inr, ok, some, ◌≡◌, ◌≢◌, ◌≤◌}
use desktop_config.Counters.Ahead.{Kept}
use desktop_config.Counters.Handled.{reduce-Kept}
use desktop_config.Guards.Timers.{IsCurrent}
use desktop_config.Invariants.Checks.{assert_controller_invariants}
use desktop_config.Model.Action.{ProbeAction}
use desktop_config.Model.Effect.{Decision}
use desktop_config.Model.Enums.{ActionKind, ActionLifecycle, ControllerPhase}
use desktop_config.Model.Event.{Event, ProbeDispatched}
use desktop_config.Model.Identity.{ProbeAttemptKey, probe_attempt_key_eq}
use desktop_config.Model.State.{State}
use desktop_config.Once.Dispatch.{elem_self, probe-dispatched, running_probe}
use desktop_config.Reducer.Reduce.{is_boot_changed, reduce}

-- A state that decisions reach from a given one, with no change of the boot between.
pub data Later (s : State) : State → Type 0 where
  now : Later s s
  after :
      (t : State) (e : Event) (d : Decision)
      → Later s t
      → is_boot_changed e ≡ false
      → reduce t e ≡ ok d
      → Later s d.state

Later-Kept :
    (k : ProbeAttemptKey) (s t : State)
    → Kept k s.physical_epoch s.attempted_probe_keys s.probe
    → Later s t
    → Kept k t.physical_epoch t.attempted_probe_keys t.probe
Later-Kept k s t h Later.now = h
Later-Kept k s _ h (Later.after t e d r same q) = reduce-Kept k t e d same (Later-Kept k s t h r) q

-- When a decision acknowledges the dispatch of an admitted probe, whose key is not of a later epoch
-- than the state, the probe runs with its unit and a deadline thirty seconds later. After that,
-- whatever events follow, as long as the boot does not change, no state has a probe that is admitted
-- under its key again, although the attempted keys are forgotten with each physical epoch.
pub probe_dispatched-spends :
    (s : State) (e : ProbeDispatched) (a : ProbeAction) (d : Decision) (t : State) (b : ProbeAction)
    → assert_controller_invariants s ≡ ok tt
    → IsCurrent s e.metadata
    → s.phase ≡ ControllerPhase.probe_pending
    → s.probe ≡ some a
    → a.action_id.kind ≡ ActionKind.probe
    → a.lifecycle ≡ ActionLifecycle.admitted
    → a.key.physical_epoch ≤ s.physical_epoch
    → e.action_id ≡ a.action_id
    → reduce s (Event.probe_dispatched e) ≡ ok d
    → Later d.state t
    → t.probe ≡ some b
    → b.lifecycle ≡ ActionLifecycle.admitted
    → (d.state.probe ≡ some (running_probe a e.unit e.metadata.processed_at_ms)) × (b.key ≢ a.key)
probe_dispatched-spends s e a d t b valid_state c p q k l opened i h later held waits =
    let x = probe-dispatched s valid_state e a d c p q k l i h in
    let m = elem_self a.key s.attempted_probe_keys in
    let spent : Kept a.key d.state.physical_epoch d.state.attempted_probe_keys d.state.probe =
      rw x record { opened = opened; kept = inr m; unused = λ y u v. absurd (cc) } in
    (cc, (Later-Kept a.key d.state t spent later).unused b held waits)
