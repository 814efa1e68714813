-- ===== src/Scenarios/Data.antt =====
-- A laptop with one external monitor, at some moments of its life.
use desktop_config.Prelude.{List, Option, String, [], maybe, none, some, true, ℕ, ◌∷◌}
use desktop_config.Model.Action.{ApplicationAction, PlanningAction, PreparationAction, ProbeAction}
use desktop_config.Model.Enums.{
  ActionKind, ActionLifecycle, ControllerPhase, DisplayPower, ObservationValidity, PlanningState,
  PreparationState, ProfileScope,
}
use desktop_config.Model.Event.{EventMetadata}
use desktop_config.Model.Identity.{
  ActionId, BootId, ControllerInstanceId, ObservationKey, OutputMapping, PhysicalToken,
  TransitionId, WorkerUnit,
}
use desktop_config.Model.Observation.{CanonicalObservation, ProbeCandidate, ProfileMatch}
use desktop_config.Model.State.{State, initial}
use desktop_config.Reducer.Admission.{application_key, new_application, new_probe, probe_key}
use desktop_config.Reducer.Targets.{candidate_for, mapping_proof, planning_input_key}

abbrev pub boot : BootId
boot = record { value = 1 }

abbrev pub this_controller : ControllerInstanceId
this_controller = record { value = 7 }

abbrev pub key : ObservationKey
key = record { value = "key" }

abbrev pub token : PhysicalToken
token = record { value = "token" }

abbrev pub outputs : List OutputMapping
outputs = record { saved_output = "DP-1"; live_output = "DP-1" } ∷ []

abbrev pub at : ℕ → EventMetadata
at t = record { processed_at_ms = t; boot_id = boot }

abbrev pub action_of : ActionKind → ℕ → ActionId
action_of k n = record { controller_instance = this_controller; kind = k; sequence = n }

abbrev pub unit_of : ActionId → WorkerUnit
unit_of i = record { action_id = i; unit_name = "worker" }

-- A monitor that has a profile, but no picture: a probe may help.
abbrev pub dark_monitor : ProbeCandidate
dark_monitor = record {
  profile = "docked";
  output = "DP-1";
  internal_output = "eDP-1";
  preferred_mode = "2560x1440";
}

abbrev pub docked : ProfileMatch
docked = record {
  profile = "docked";
  scope = ProfileScope.external_only;
  layout = "desk";
  mapping = outputs;
  active_outputs = "DP-1" ∷ [];
  configuration_hashes = [];
  planning_configuration_hashes = [];
}

abbrev pub sample :
    ℕ
    → ℕ
    → Option ProbeCandidate
    → List ProfileMatch
    → Option String
    → DisplayPower
    → CanonicalObservation
sample t n candidate eligible exact power = record {
  observed_at_ms = t;
  observation_generation = record { value = n };
  boot_id = boot;
  physical_token = token;
  begin_event_generation = record { value = 0 };
  end_event_generation = record { value = 0 };
  kernel_connected_outputs = "DP-1" ∷ [];
  kernel_external_outputs = "DP-1" ∷ [];
  x_connected_outputs = "DP-1" ∷ [];
  x_active_outputs = "DP-1" ∷ [];
  x_external_outputs = "DP-1" ∷ [];
  connector_identities = [];
  live_fingerprints = [];
  base_identity_profiles = [];
  edid_integrity = [];
  probe_candidate = candidate;
  eligible_profiles = eligible;
  current_profiles = maybe exact [] (λ p. p ∷ []);
  exact_profile = exact;
  observation_key = key;
  validity = ObservationValidity.valid;
  invalidity_reason = none;
  raw_evidence = [];
  display_power = power;
}

abbrev pub dark_sample : ℕ → ℕ → DisplayPower → CanonicalObservation
dark_sample t n power = sample t n (some dark_monitor) [] none power

abbrev pub docked_sample : ℕ → ℕ → CanonicalObservation
docked_sample t n = sample t n none (docked ∷ []) none DisplayPower.on

abbrev pub exact_sample : ℕ → ℕ → CanonicalObservation
exact_sample t n = sample t n none (docked ∷ []) (some "docked") DisplayPower.on

-- A sample without external hardware.
abbrev pub bare_sample : ℕ → ℕ → CanonicalObservation
bare_sample t n = record (sample t n none [] none DisplayPower.on) {
  kernel_external_outputs = [];
  x_external_outputs = [];
}

-- A controller that has just been started, and has nothing to recover.
abbrev pub idle : State
idle = record (initial boot this_controller (record { value = ":0" })) {
  phase = ControllerPhase.discover_fast;
}

-- The same controller when it has seen a sample.
abbrev pub seeing : CanonicalObservation → State
seeing o = record idle {
  latest_observation = some o;
  observation_generation = o.observation_generation;
  physical_token = some token;
  next_timer_ms = some 1000;
  external_intent = true;
}

-- A probe, and an application, that wait for their dispatch.
abbrev pub waiting_probe : ProbeAction
waiting_probe =
    new_probe (action_of ActionKind.probe 1)
      (probe_key idle (dark_sample 1000 1 DisplayPower.on) dark_monitor)
      (dark_sample 1000 1 DisplayPower.on) dark_monitor

abbrev pub probe_waits : State
probe_waits = record (seeing (dark_sample 1000 1 DisplayPower.on)) {
  phase = ControllerPhase.probe_pending;
  probe = some waiting_probe;
  action_sequence_high_water = 1;
}

abbrev pub waiting_application : ApplicationAction
waiting_application =
    new_application (action_of ActionKind.application 1)
      (application_key idle (docked_sample 1000 1) docked) (docked_sample 1000 1) docked
      (mapping_proof idle (docked_sample 1000 1) docked)

abbrev pub application_waits : State
application_waits = record (seeing (docked_sample 1000 1)) {
  phase = ControllerPhase.apply_pending;
  application = some waiting_application;
  action_sequence_high_water = 1;
}

-- The application is being stopped.
abbrev pub stopped_application : ApplicationAction
stopped_application = record waiting_application {
  lifecycle = ActionLifecycle.stopping;
  unit = some (unit_of (action_of ActionKind.application 1));
  worker_deadline_ms = some 121000;
}

abbrev pub application_stops : State
application_stops = record application_waits {
  phase = ControllerPhase.applying;
  application = some stopped_application;
  attempted_application_keys = waiting_application.key ∷ [];
}

-- The desktop is prepared, and the profile is being proven.
abbrev pub transition : TransitionId
transition = record { controller_instance = this_controller; sequence = 1 }

abbrev pub plan : PlanningAction
plan = record {
  action_id = action_of ActionKind.plan 1;
  transition_id = transition;
  input_key = planning_input_key idle docked key;
  profile = "docked";
  lifecycle = ActionLifecycle.completed;
  plan_hash = some (record { value = "plan" });
  exit_status = none;
}

abbrev pub prepared_desktop : PreparationAction
prepared_desktop = record {
  action_id = action_of ActionKind.preparation 2;
  transition_id = transition;
  transition_key = record { value = "0|docked|key" };
  plan_hash = record { value = "plan" };
  admitted_event_generation = record { value = 0 };
  observation_key = key;
  profile = "docked";
  lifecycle = ActionLifecycle.completed;
  unit = some (unit_of (action_of ActionKind.preparation 2));
  worker_deadline_ms = some 303000;
  exit_status = some 0;
  terminal_after_stop = none;
}

abbrev pub desktop_prepared : State
desktop_prepared = record (seeing (exact_sample 9000 5)) {
  phase = ControllerPhase.verifying;
  planning_state = PlanningState.plan_ready;
  preparation_state = PreparationState.prepared;
  candidate = some (candidate_for idle (exact_sample 9000 5) docked);
  verify_since_ms = some 1000;
  planning = some plan;
  preparation = some prepared_desktop;
  action_sequence_high_water = 2;
  transition_sequence_high_water = 1;
  action_tombstones =
      record { action_id = plan.action_id; lifecycle = ActionLifecycle.completed }
      ∷ record { action_id = prepared_desktop.action_id; lifecycle = ActionLifecycle.completed }
      ∷ [];
}
