-- ===== src/Safety/Spec.antt =====
-- What the numbered safety rules of the controller say of a state, as propositions, apart from the
-- checks of .local/lib/monitor-controller/monitor_controller/invariants.py.
use mathlib.Core.Option
use desktop_config.Prelude.{
  Option, [], elem, none, some, string_eq, true, unique, ◌↔◌, ◌≡◌, ◌≢◌, ◌≤◌, ◌⊎◌,
}
use desktop_config.Model.Action.{
  ApplicationAction, FinalizationAction, PlanningAction, PreparationAction, ProbeAction,
  UnplugProof,
}
use desktop_config.Model.Enums.{
  ActionLifecycle, ControllerPhase, ObservationValidity, PlanningState, PreparationState,
  ProfileScope,
}
use desktop_config.Model.Identity.{
  CandidateSelection, application_attempt_key_eq, probe_attempt_key_eq,
}
use desktop_config.Model.Observation.{CanonicalObservation}
use desktop_config.Model.State.{State}

-- The four places of a state that may hold an action which changes the display or the desktop.
pub data Slot : Type 0 where
  probe application preparation finalization : Slot

abbrev pub lifecycle_at : State → Slot → Option ActionLifecycle
lifecycle_at s Slot.probe = Option.map (λ (a : ProbeAction). a.lifecycle) s.probe
lifecycle_at s Slot.application = Option.map (λ (a : ApplicationAction). a.lifecycle) s.application
lifecycle_at s Slot.preparation = Option.map (λ (a : PreparationAction). a.lifecycle) s.preparation
lifecycle_at s Slot.finalization =
    Option.map (λ (a : FinalizationAction). a.lifecycle) s.finalization

-- A worker was acknowledged, and its result is not yet settled.
abbrev pub Flying : Option ActionLifecycle → Type 0
Flying l =
    (l ≡ some ActionLifecycle.dispatched)
    ⊎ (l ≡ some ActionLifecycle.stopping)
    ⊎ (l ≡ some ActionLifecycle.result_pending)

-- The worker of a slot has its unit and its deadline.
abbrev pub HasWorker : State → Slot → Type 0
HasWorker s Slot.probe =
    (a : ProbeAction) × (s.probe ≡ some a) × (a.unit ≢ none) × (a.worker_deadline_ms ≢ none)
HasWorker s Slot.application =
    (a : ApplicationAction) × (s.application ≡ some a)
    × (a.unit ≢ none)
    × (a.worker_deadline_ms ≢ none)
HasWorker s Slot.preparation =
    (a : PreparationAction) × (s.preparation ≡ some a)
    × (a.unit ≢ none)
    × (a.worker_deadline_ms ≢ none)
HasWorker s Slot.finalization =
    (a : FinalizationAction) × (s.finalization ≡ some a)
    × (a.unit ≢ none)
    × (a.worker_deadline_ms ≢ none)

-- A source of the topology reports external hardware.
abbrev pub SeesExternal : CanonicalObservation → Type 0
SeesExternal o = (o.kernel_external_outputs ≢ []) ⊎ (o.x_external_outputs ≢ [])

-- Rules 1 and 5: external hardware forbids an internal-only target.
pub record NoLaptopFallback (s : State) : Type 0 where
  pub candidate :
      (o : CanonicalObservation) (c : CandidateSelection)
      → s.latest_observation ≡ some o
      → SeesExternal o
      → s.candidate ≡ some c
      → c.scope ≢ ProfileScope.internal_only
  pub application :
      (o : CanonicalObservation) (a : ApplicationAction)
      → s.latest_observation ≡ some o
      → SeesExternal o
      → s.application ≡ some a
      → a.scope ≢ ProfileScope.internal_only

-- Rule 2: a probe selects no profile and authorizes no desktop work.
abbrev pub ProbeAlone : State → Type 0
ProbeAlone s =
    s.phase ≢ ControllerPhase.recovering
    → s.probe ≢ none
    → (s.candidate ≡ none) × (s.planning ≡ none) × (s.preparation ≡ none) × (s.finalization ≡ none)

-- Rule 3: an application loads the profile of its key and of its mapping.
abbrev pub ExplicitApplication : State → Type 0
ExplicitApplication s =
    (a : ApplicationAction)
    → s.application ≡ some a
    → (a.mapping.profile ≡ a.profile) × (a.key.profile ≡ a.profile)

-- Rule 4: no probe and no application is attempted twice. No attempted key is recorded twice, and the
-- key of an acknowledged action is recorded, so that it is not admitted again.
pub record NoDuplicate (s : State) : Type 0 where
  pub probe_keys : unique s.attempted_probe_keys ≡ true
  pub application_keys : unique s.attempted_application_keys ≡ true
  pub probe :
      (a : ProbeAction)
      → s.probe ≡ some a
      → a.lifecycle ≢ ActionLifecycle.admitted
      → a.unit ≢ none
      → elem a.key s.attempted_probe_keys ≡ true
  pub application :
      (a : ApplicationAction)
      → s.application ≡ some a
      → a.lifecycle ≢ ActionLifecycle.admitted
      → a.unit ≢ none
      → elem a.key s.attempted_application_keys ≡ true

-- Rule 6: a running verification rests on the latest, valid, exact and current evidence.
abbrev pub ContinuousProof : State → Type 0
ContinuousProof s =
    s.phase ≡ ControllerPhase.verifying
    → s.verify_since_ms ≢ none
    → (o : CanonicalObservation) × (c : CandidateSelection) × (s.latest_observation ≡ some o)
      × (s.candidate ≡ some c)
      × (o.validity ≡ ObservationValidity.valid)
      × (o.exact_profile ≡ some c.profile)
      × (elem c.profile o.current_profiles ≡ true)
      × (o.observation_key ≡ c.observation_key)

-- Rule 8: the state of the desktop is its own. Outside recovery, whatever the phase of the displays,
-- there is a plan or a preparation exactly when the desktop's own states say so, and while the
-- baseline of the startup is adopted, there is neither.
pub record IndependentDesktop (s : State) : Type 0 where
  pub planning :
      s.phase ≢ ControllerPhase.recovering
      → (s.planning ≡ none) ↔ (s.planning_state ≡ PlanningState.plan_idle)
  pub preparation :
      s.phase ≢ ControllerPhase.recovering
      → (s.preparation ≡ none) ↔ (s.preparation_state ≡ PreparationState.prepare_idle)
  pub baseline :
      s.phase ≢ ControllerPhase.recovering
      → s.baseline_adoption ≡ true
      → (s.planning ≡ none) × (s.preparation ≡ none)

-- Rule 9: the profile being finalized is not the finalized one.
abbrev pub NewFinalization : State → Type 0
NewFinalization s =
    (a : FinalizationAction)
    → s.finalization ≡ some a
    → s.desktop_finalized_profile ≢ some a.profile

-- Rule 10: an unfinished unplug proof keeps the external intent.
abbrev pub ExplicitUnplug : State → Type 0
ExplicitUnplug s =
    (p : UnplugProof)
    → s.unplug_proof ≡ some p
    → (s.external_intent ≡ true) × (1 ≤ p.observation_count)

-- Rule 11: an external topology that is not yet resolved has its next timer.
abbrev pub NoAbandonment : State → Type 0
NoAbandonment s =
    (o : CanonicalObservation)
    → s.latest_observation ≡ some o
    → o.validity ≡ ObservationValidity.valid
    → SeesExternal o
    → o.exact_profile ≡ none
    → (s.phase ≡ ControllerPhase.discover_fast)
      ⊎ (s.phase ≡ ControllerPhase.wait_slow)
      ⊎ (s.phase ≡ ControllerPhase.probe_failed)
      ⊎ (s.phase ≡ ControllerPhase.apply_failed)
    → s.next_timer_ms ≢ none

-- Rule 12: desktop preparation is keyed by the plan that is ready, and finalization by the
-- preparation that is done.
pub record KeyedDesktop (s : State) : Type 0 where
  pub preparation :
      (a : PreparationAction)
      → s.phase ≢ ControllerPhase.recovering
      → s.preparation ≡ some a
      → (p : PlanningAction) × (s.planning ≡ some p)
        × (s.planning_state ≡ PlanningState.plan_ready)
        × (p.plan_hash ≡ some a.plan_hash)
        × (p.transition_id ≡ a.transition_id)
        × (p.profile ≡ a.profile)
  pub finalization :
      (a : FinalizationAction)
      → s.finalization ≡ some a
      → (p : PreparationAction) × (s.preparation ≡ some p)
        × (p.lifecycle ≡ ActionLifecycle.completed)
        × (p.plan_hash ≡ a.plan_hash)
        × (p.transition_id ≡ a.transition_id)
        × (p.transition_key ≡ a.transition_key)
        × (p.profile ≡ a.profile)

pub record IsSafe (s : State) : Type 0 where
  pub no_laptop_fallback : NoLaptopFallback s
  pub probe_alone : ProbeAlone s
  pub explicit_application : ExplicitApplication s
  pub no_duplicate : NoDuplicate s
  pub continuous_proof : ContinuousProof s
  -- Rule 7: durable dispatch.
  pub durable_dispatch : (k : Slot) → Flying (lifecycle_at s k) → HasWorker s k
  pub independent_desktop : IndependentDesktop s
  pub new_finalization : NewFinalization s
  pub explicit_unplug : ExplicitUnplug s
  pub no_abandonment : NoAbandonment s
  pub keyed_desktop : KeyedDesktop s
  -- Rule 13: one mutation at a time.
  pub one_mutation : (j k : Slot) → Flying (lifecycle_at s j) → Flying (lifecycle_at s k) → j ≡ k
