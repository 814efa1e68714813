-- ===== src/Scenarios/Decisions.antt =====
-- Events and samples that come to these states, and the decisions on them.
use desktop_config.Prelude.{List, Result, [], err, inr, ok, some, suc, sym, zero, ℕ, ◌∷◌, ◌≡◌}
use desktop_config.Guards.Timers.{IsCurrent}
use desktop_config.Model.Action.{ActionTombstone, ApplicationAction, ProbeAction}
use desktop_config.Model.Effect.{Decision, Effect}
use desktop_config.Model.Enums.{
  ControllerPhase, WakeReason, ActionKind, ActionLifecycle, DisplayPower, WorkerOutcome,
}
use desktop_config.Model.Event.{
  ApplicationDispatched, ApplicationFinished, BootChanged, Event, ObservationCompleted,
  ObservationFailed, ProbeDispatched, ProbeFinished,
}
use desktop_config.Model.Observation.{CanonicalObservation}
use desktop_config.Model.State.{State}
use desktop_config.Reducer.Outcome.{request_observation}
use desktop_config.Reducer.Admission.{
  activate_probe, admit_application, admit_probe, application_key, new_application, new_probe,
  probe_key,
}
use desktop_config.Reducer.Classify.{classify_observation}
use desktop_config.Reducer.Epochs.{enter_wait}
use desktop_config.Reducer.Reduce.{reduce}
use desktop_config.Reducer.Targets.{mapping_proof}
use desktop_config.Reducer.Verification.{advance_verification}
use desktop_config.Scenarios.Data.{
  action_of, application_stops, application_waits, at, boot, dark_monitor, dark_sample,
  desktop_prepared, docked, docked_sample, exact_sample, idle, probe_waits, seeing, unit_of,
  waiting_application, waiting_probe,
}

pub current : (s : State) (t : ℕ) → s.boot_id ≡ boot → s.recovery_units ≡ [] → IsCurrent s (at t)
current s t b r = record { boot = sym b; recovered = inr r }

-- The decision that a handler returns, and one that stands in where it raises.
abbrev pub decided : Result Decision → Decision
decided (ok d) = d
decided (err e) = record { state = idle; effects = [] }

abbrev pub failure : ObservationFailed
failure = record { metadata = at 5000; reason = "timed out" }

abbrev pub after_failure : Decision
after_failure = record {
  state = record idle { next_timer_ms = some 6000 };
  effects = Effect.schedule (record { deadline_ms = 6000 }) ∷ [];
}

abbrev pub stale_sample : ObservationCompleted
stale_sample = record { metadata = at 900; observation = docked_sample 900 1 }

abbrev pub fresh_sample : ObservationCompleted
fresh_sample = record { metadata = at 2000; observation = docked_sample 2000 2 }

abbrev pub application_ends : ApplicationFinished
application_ends = record {
  metadata = at 3000;
  action_id = waiting_application.action_id;
  outcome = WorkerOutcome.succeeded;
  exit_status = some 0;
}

-- More tombstones than are retained.
abbrev pub tombstones : ℕ → List ActionTombstone
tombstones zero = []
tombstones (suc n) =
    record { action_id = action_of ActionKind.probe n; lifecycle = ActionLifecycle.completed }
    ∷ tombstones n

abbrev pub new_boot : BootChanged
new_boot = record {
  metadata = record { processed_at_ms = 9000; boot_id = record { value = 2 } };
  previous_boot_id = boot;
}

-- The answers of the handlers.
abbrev pub stops_again : Decision
stops_again = decided (reduce application_stops (Event.observation_completed fresh_sample))

abbrev pub asleep_outcome : Result Decision
asleep_outcome =
    classify_observation (seeing (dark_sample 1000 1 DisplayPower.asleep))
      (dark_sample 1000 1 DisplayPower.asleep)

abbrev pub wait_outcome : Result Decision
wait_outcome = enter_wait idle 1000

abbrev pub probe_outcome : Result Decision
probe_outcome =
    admit_probe (seeing (dark_sample 1000 1 DisplayPower.on)) (dark_sample 1000 1 DisplayPower.on)

abbrev pub application_outcome : Result Decision
application_outcome =
    admit_application (seeing (docked_sample 1000 1)) (docked_sample 1000 1) docked

abbrev pub finalization_outcome : Result Decision
finalization_outcome = advance_verification desktop_prepared (exact_sample 9000 5) []

abbrev pub probe_starts : ProbeDispatched
probe_starts = record {
  metadata = at 1100;
  action_id = waiting_probe.action_id;
  unit = unit_of waiting_probe.action_id;
}

abbrev pub probe_started : Result Decision
probe_started = reduce probe_waits (Event.probe_dispatched probe_starts)

-- Other evidence, after the worker has ended.
abbrev pub other_sample : CanonicalObservation
other_sample = record (dark_sample 3000 3 DisplayPower.on) {
  observation_key = record { value = "other" };
}

-- The worker of the probe ends, and the other evidence offers a probe again.
abbrev pub probe_ends : ProbeFinished
probe_ends = record {
  metadata = at 2000;
  action_id = waiting_probe.action_id;
  outcome = WorkerOutcome.succeeded;
  exit_status = some 0;
}

abbrev pub after_probe : State
after_probe = record (seeing (dark_sample 1000 1 DisplayPower.on)) {
  next_timer_ms = some 2000;
  attempted_probe_keys = waiting_probe.key ∷ [];
  action_sequence_high_water = 1;
  action_tombstones =
      record { action_id = waiting_probe.action_id; lifecycle = ActionLifecycle.completed } ∷ [];
}

abbrev pub probe_ended : Decision
probe_ended = record {
  state = after_probe;
  effects =
      request_observation WakeReason.worker_completed
      ∷ Effect.schedule (record { deadline_ms = 2000 })
      ∷ [];
}

abbrev pub other_completed : ObservationCompleted
other_completed = record { metadata = at 3000; observation = other_sample }

abbrev pub other_probe : ProbeAction
other_probe =
    new_probe (action_of ActionKind.probe 2) (probe_key after_probe other_sample dark_monitor)
      other_sample dark_monitor

abbrev pub second_probe : Decision
second_probe = record {
  state = record after_probe {
    latest_observation = some other_sample;
    observation_generation = other_sample.observation_generation;
    phase = ControllerPhase.probe_pending;
    probe = some other_probe;
    next_timer_ms = some 3000;
    action_sequence_high_water = 2;
  };
  effects = activate_probe other_probe other_sample.observation_key ∷ [];
}

abbrev pub application_starts : ApplicationDispatched
application_starts = record {
  metadata = at 1100;
  action_id = waiting_application.action_id;
  unit = unit_of waiting_application.action_id;
}

abbrev pub application_started : Result Decision
application_started = reduce application_waits (Event.application_dispatched application_starts)

abbrev pub other_docked : CanonicalObservation
other_docked = record (docked_sample 3000 3) { observation_key = record { value = "other" } }

abbrev pub after_application : State
after_application = record (seeing other_docked) {
  action_sequence_high_water = 1;
  attempted_application_keys = waiting_application.key ∷ [];
}

abbrev pub second_application : Result Decision
second_application = admit_application after_application other_docked docked

abbrev pub other_application : ApplicationAction
other_application =
    new_application (action_of ActionKind.application 2)
      (application_key after_application other_docked docked) other_docked docked
      (mapping_proof after_application other_docked docked)
