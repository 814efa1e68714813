-- ===== src/Guards/Timers.antt =====
-- The answers of `reduce` to a timer and to an observation that could not be made.
use desktop_config.Prelude.{
  List, Option-cases, [], arith, false, inl, inr, ok, refl, some, ℕ, ◌++◌, ◌+◌, ◌∙◌, ◌∷◌, ◌≡◌, ◌≢◌,
  ◌≤◌, ◌⊎◌,
}
use desktop_config.Invariants.Authority.{
  check_action_authorization, check_application, check_candidate, check_finalization,
  check_latest_observation, check_observation_authority, check_preparation, check_probe,
}
use desktop_config.Invariants.Checks.{assert_controller_invariants}
use desktop_config.Invariants.Identities.{
  check_action_id, check_action_identities, check_recovery_unit, check_tombstone,
  check_transition_id, check_worker_acknowledgements,
}
use desktop_config.Invariants.Phases.{
  check_phase_relationships, check_planning_relationships, check_prepared_plan,
}
use desktop_config.Invariants.Safety.{
  check_attempt_history, check_continuous_proof, check_no_laptop_fallback,
  check_numbered_safety_rules, check_probe_is_not_authorization, check_unplug_proof,
}
use desktop_config.Model.Effect.{Effect}
use desktop_config.Model.Enums.{ControllerPhase, WakeReason}
use desktop_config.Model.Event.{Event, EventMetadata, ObservationFailed, TimerFired, event_metadata}
use desktop_config.Model.Observation.{CanonicalObservation}
use desktop_config.Model.State.{State}
use desktop_config.Reducer.Observe.{stop_effects}
use desktop_config.Reducer.Outcome.{decision, request_observation, schedule}
use desktop_config.Reducer.Reduce.{
  admit_event, handle, is_boot_changed, observation_failed, reduce, timer_fired,
}
use desktop_config.Safety.Rules.{Passes, join_checks, split_checks}

-- The event concerns the state: it is of its boot, and the state is not in recovery with workers left
-- to recover.
pub record IsCurrent (s : State) (m : EventMetadata) : Type 0 where
  pub boot : m.boot_id ≡ s.boot_id
  pub recovered : (s.phase ≢ ControllerPhase.recovering) ⊎ (s.recovery_units ≡ [])

abbrev pub at_timer : State → ℕ → State
at_timer s t = record s { next_timer_ms = some t }

module _ (s : State) (valid_state : assert_controller_invariants s ≡ ok tt) where
  at_timer-latest :
      (t : ℕ) (o : CanonicalObservation)
      → check_latest_observation s o ≡ ok tt
      → check_latest_observation (at_timer s t) o ≡ ok tt
  unfolding check_latest_observation check_candidate
  at_timer-latest t o h = ground arith

  at_timer-authority :
      (t : ℕ)
      → check_observation_authority s ≡ ok tt
      → check_observation_authority (at_timer s t) ≡ ok tt
  unfolding check_observation_authority
  at_timer-authority t h = elim (Option-cases s.latest_observation) [
    | inl e ↦ ground arith
    | inr (o, e) ↦
        let here : check_latest_observation s o ≡ ok tt = ground arith in
        let there = at_timer-latest t o here in ground arith
  ]

  -- No check asks more of the next timer than that there is one.
  at_timer-Passes : (t : ℕ) → Passes s → Passes (at_timer s t)
  unfolding check_phase_relationships check_planning_relationships check_prepared_plan
      check_action_identities check_action_id check_transition_id check_tombstone
      check_recovery_unit check_worker_acknowledgements check_action_authorization check_application
      check_probe check_preparation check_finalization check_numbered_safety_rules
      check_no_laptop_fallback check_probe_is_not_authorization check_continuous_proof
      check_unplug_proof check_attempt_history
  at_timer-Passes t p = record {
    phases = p.phases;
    planning = p.planning;
    identities = p.identities;
    workers = p.workers;
    observation = at_timer-authority t p.observation;
    authorization = p.authorization;
    safety = p.safety;
    attempts = p.attempts;
  }

  at_timer-passes : (t : ℕ) → assert_controller_invariants (at_timer s t) ≡ ok tt
  at_timer-passes t = join_checks (at_timer s t) (at_timer-Passes t (split_checks s valid_state))

  pub schedule-ok :
      (t : ℕ) (effects : List Effect)
      → schedule s t effects
        ≡ ok (record {
          state = at_timer s t;
          effects = effects ++ Effect.schedule (record { deadline_ms = t }) ∷ [];
        })
  unfolding schedule decision
  schedule-ok t effects = rw (at_timer-passes t)

  pub handle-current :
      (e : Event)
      → is_boot_changed e ≡ false
      → IsCurrent s (event_metadata e)
      → reduce s e ≡ handle s e
  unfolding reduce admit_event
  handle-current e b c = ground (arith, valid_state, c.boot, c.recovered)

  pub observation_failed-schedules :
      (e : ObservationFailed)
      → IsCurrent s e.metadata
      → reduce s (Event.observation_failed e)
        ≡ ok (record {
          state = at_timer s (e.metadata.processed_at_ms + 1000);
          effects =
              stop_effects s
              ++ Effect.schedule (record { deadline_ms = e.metadata.processed_at_ms + 1000 }) ∷ [];
        })
  unfolding handle observation_failed
  observation_failed-schedules e c =
      handle-current (Event.observation_failed e) refl c ∙ schedule-ok _ _

  -- In a state that passes the invariants and does not wait in recovery for workers, a timer that
  -- is due, and that was set for the state's deadline or later, is always answered by a request
  -- for an observation; the deadline moves to the present, and nothing else changes.
  pub timer_fired-observes :
      (e : TimerFired) (t : ℕ)
      → IsCurrent s e.metadata
      → s.next_timer_ms ≡ some t
      → t ≤ e.deadline_ms
      → e.deadline_ms ≤ e.metadata.processed_at_ms
      → reduce s (Event.timer_fired e)
        ≡ ok (record {
          state = at_timer s e.metadata.processed_at_ms;
          effects =
              request_observation WakeReason.timer
              ∷ Effect.schedule (record { deadline_ms = e.metadata.processed_at_ms })
              ∷ [];
        })
  unfolding handle timer_fired decision
  timer_fired-observes e t c h before due =
      handle-current (Event.timer_fired e) refl c
      ∙ ground (arith, at_timer-passes e.metadata.processed_at_ms)
