-- ===== src/Once/Admit.antt =====
-- What the admission of a probe and of an application takes, from
-- .local/lib/monitor-controller/monitor_controller/reducer.py.
use desktop_config.Prelude.{
  List, Result, [], any, elem, false, inl, inr, none, ok, refl, some, true, ℕ, ◌++◌, ◌∷◌, ◌≡◌, ◌⊎◌,
}
use desktop_config.Model.Action.{ActionRecord, PlanningAction, ProbeAction}
use desktop_config.Model.Effect.{Decision, Effect}
use desktop_config.Model.Enums.{ActionKind, ActionLifecycle}
use desktop_config.Model.Identity.{application_attempt_key_eq, probe_attempt_key_eq}
use desktop_config.Model.Observation.{CanonicalObservation, ProbeCandidate}
use desktop_config.Model.State.{State}
use desktop_config.Reducer.Admission.{admit_new_probe, admit_probe, probe_key}
use desktop_config.Reducer.Epochs.{bury_planning, discard_planning, enter_wait}
use desktop_config.Reducer.Outcome.{allocate_action, decision}
use desktop_config.Reducer.Tombstones.{append_tombstone, clear_recovery_unit}
use desktop_config.Safety.Checked.Checks.{assert-Returns}
use desktop_config.Safety.Checked.States.{bound-Returns}
use desktop_config.Safety.Returns.{
  Returns, Returns-bind, Returns-if, Returns-maybe, Returns-ok, Returns-then, Returns-weaken,
}
use desktop_config.Sleep.Classified.{enter_wait-KeepsDark}
use desktop_config.Sleep.Quiet.{KeepsDark, lights}

-- Discarding a plan allocates nothing and attempts nothing.
pub record SameHistory (s t : State) : Type 0 where
  pub probes : t.attempted_probe_keys ≡ s.attempted_probe_keys
  pub instance_id : t.controller_instance ≡ s.controller_instance
  pub actions : t.action_sequence_high_water ≡ s.action_sequence_high_water

abbrev AfterDiscard : State → State × List Effect → Type 0
AfterDiscard s x = SameHistory s x.0

same : (s : State) → SameHistory s s
same s = record { probes = refl; instance_id = refl; actions = refl }

append-SameHistory :
    (s : State) (a : ActionRecord) (l : ActionLifecycle)
    → Returns (SameHistory s) (append_tombstone s a l)
unfolding append_tombstone clear_recovery_unit
append-SameHistory s a l =
    Returns-then _ _ (bound-Returns _ _)
      (λ r. Returns-ok _ (record { probes = refl; instance_id = refl; actions = refl }))

bury-SameHistory : (s : State) (p : PlanningAction) → Returns (SameHistory s) (bury_planning s p)
unfolding bury_planning
bury-SameHistory s p = search (Returns-if, Returns-ok, append-SameHistory, same)

discard-SameHistory : (s : State) → Returns (AfterDiscard s) (discard_planning s)
unfolding discard_planning
discard-SameHistory s =
    Returns-maybe s.planning _ _
      (λ e. Returns-ok _ (record { probes = refl; instance_id = refl; actions = refl }))
      λ planning e. Returns-bind (SameHistory s) _ _ (bury-SameHistory s planning) (λ t k.
        Returns-ok _
          (record { probes = k.probes; instance_id = k.instance_id; actions = k.actions }))

-- The probe that a decision admits: the candidate of the observation, which the one lit effect
-- activates as it stands in the slot.
pub record ProbeAdmitted (s : State) (o : CanonicalObservation) (d : Decision) : Type 0 where
  pub action : ProbeAction
  pub candidate : ProbeCandidate
  pub offered : o.probe_candidate ≡ some candidate
  pub chosen :
      (action.output ≡ candidate.output)
      × (action.internal_output ≡ candidate.internal_output)
      × (action.preferred_mode ≡ candidate.preferred_mode)
  pub key :
      (action.key.physical_epoch ≡ s.physical_epoch)
      × (action.key.profile ≡ candidate.profile)
      × (action.key.observation_key ≡ o.observation_key)
  pub before : List Effect
  pub dark_before : any lights before ≡ false
  pub effects :
      d.effects
      ≡ before
        ++ Effect.activate_probe (record {
          action_id = action.action_id;
          key = action.key;
          output = action.output;
          internal_output = action.internal_output;
          preferred_mode = action.preferred_mode;
          admitted_event_generation = action.admitted_event_generation;
          observation_key = o.observation_key;
        })
          ∷ []
  pub in_slot : d.state.probe ≡ some action
  pub admitted : action.lifecycle ≡ ActionLifecycle.admitted
  pub unattempted : elem action.key s.attempted_probe_keys ≡ false
  pub identity : action.action_id ≡ (allocate_action s ActionKind.probe).1
  pub alone : (d.state.candidate ≡ none) × (d.state.planning ≡ none)

-- A probe is admitted as it should be, or nothing is started.
abbrev ProbeOutcome : State → CanonicalObservation → Decision → Type 0
ProbeOutcome s o d = KeepsDark d ⊎ ProbeAdmitted s o d

decision-ProbeOutcome :
    (s t : State) (o : CanonicalObservation) (effects : List Effect)
    → ProbeAdmitted s o (record { state = t; effects = effects })
    → Returns (ProbeOutcome s o) (decision t effects)
unfolding decision
decision-ProbeOutcome s t o effects h =
    Returns-then _ _ (assert-Returns t) (λ _. Returns-ok _ (inr h))

wait-ProbeOutcome :
    (s : State) (o : CanonicalObservation) (t : ℕ) → Returns (ProbeOutcome s o) (enter_wait s t)
wait-ProbeOutcome s o t = record {
  at = λ d e. inl ((enter_wait-KeepsDark s t).at d e);
  ends = (enter_wait-KeepsDark s t).ends;
}

discard-NoPlanning :
    (s : State) → Returns (λ (x : State × List Effect). x.0.planning ≡ none) (discard_planning s)
unfolding discard_planning
discard-NoPlanning s =
    Returns-maybe s.planning _ _ (λ e. Returns-ok _ refl)
      λ planning e.
        Returns-then _ _ (Returns-weaken _ (bury-SameHistory s planning)) (λ t. Returns-ok _ refl)

discard-IsQuiet :
    (s : State) → Returns (λ (x : State × List Effect). any lights x.1 ≡ false) (discard_planning s)
unfolding discard_planning
discard-IsQuiet s =
    Returns-maybe s.planning _ _ (λ e. Returns-ok _ refl)
      λ planning e.
        Returns-then _ _ (Returns-weaken _ (bury-SameHistory s planning)) (λ t. Returns-ok _ refl)

both :
    {A : Type 0} {P Q : A → Type 0} (r : Result A)
    → Returns P r
    → Returns Q r
    → Returns (λ a. P a × Q a) r
both r p q = record { at = λ a e. (p.at a e, q.at a e); ends = p.ends }

admit_new-ProbeOutcome :
    (s : State) (o : CanonicalObservation) (c : ProbeCandidate)
    → o.probe_candidate ≡ some c
    → elem (probe_key s o c) s.attempted_probe_keys ≡ false
    → Returns (ProbeOutcome s o) (admit_new_probe s o c)
unfolding admit_new_probe allocate_action
admit_new-ProbeOutcome s o c e h =
    Returns-bind (λ x. AfterDiscard s x × ((x.0.planning ≡ none) × (any lights x.1 ≡ false)))
      (discard_planning s) _
      (both _ (discard-SameHistory s) (both _ (discard-NoPlanning s) (discard-IsQuiet s)))
      λ x (k, (n, q)). decision-ProbeOutcome s _ o _ (record {
        action = _;
        candidate = c;
        offered = e;
        chosen = (refl, refl, refl);
        key = (refl, refl, refl);
        before = x.1;
        dark_before = q;
        effects = refl;
        in_slot = refl;
        admitted = refl;
        unattempted = h;
        identity = rw (k.instance_id, k.actions) refl;
        alone = (refl, n);
      })

admit-ProbeOutcome :
    (s : State) (o : CanonicalObservation) → Returns (ProbeOutcome s o) (admit_probe s o)
unfolding admit_probe
admit-ProbeOutcome s o =
    search (Returns-maybe, Returns-if, wait-ProbeOutcome, admit_new-ProbeOutcome)

-- When the admission of a probe lights an output, one effect does, the last one: it activates the
-- probe that the new state holds, with its identity, key, output and mode. That probe is of the
-- candidate of the observation, admitted under a fresh identity and under a key of the present epoch
-- that was not attempted before, and the state has no candidate and no plan beside it.
pub admit_probe-once :
    (s : State) (o : CanonicalObservation) (d : Decision)
    → admit_probe s o ≡ ok d
    → any lights d.effects ≡ true
    → ProbeAdmitted s o d
admit_probe-once s o d h l = elim ((admit-ProbeOutcome s o).at d h) [
  | inl q ↦ absurd (cc)
  | inr p ↦ p
]
