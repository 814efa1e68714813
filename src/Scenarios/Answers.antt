-- ===== src/Scenarios/Answers.antt =====
-- The theorems on the answers of `reduce`, at the scenarios.
use desktop_config.Prelude.{
  List, List-discrete, Option-discrete, String-discrete, [], arith, ok, refl, ℕ_discrete, ◌++◌, ◌∷◌,
  ◌≡◌,
}
use desktop_config.Guards.Boots.{Forgotten, boot_changed-forgets}
use desktop_config.Guards.Results.{EndsStopping, reduce-stops_again}
use desktop_config.Guards.Retries.{StopsAgain, observation_failed-retries}
use desktop_config.Guards.Stopping.{observe-stops}
use desktop_config.Guards.Timers.{at_timer, timer_fired-observes}
use desktop_config.Invariants.Authority.{
  check_action_authorization, check_application, check_candidate, check_finalization,
  check_latest_observation, check_observation_authority, check_preparation, check_probe,
}
use desktop_config.Invariants.Checks.{assert_controller_invariants}
use desktop_config.Invariants.Identities.{
  check_acknowledged, check_action_id, check_action_identities, check_recovery_unit,
  check_tombstone, check_transition_id, check_worker_acknowledgements,
}
use desktop_config.Invariants.Phases.{
  check_phase_relationships, check_planning_relationships, check_planning_slot,
  check_preparation_slot, check_prepared_plan, check_slot,
}
use desktop_config.Invariants.Safety.{
  check_attempt_history, check_continuous_proof, check_durable_dispatch, check_no_laptop_fallback,
  check_numbered_safety_rules, check_probe_is_not_authorization, check_unplug_proof,
}
use desktop_config.Model.Action.{ActionRecord}
use desktop_config.Model.Effect.{Effect}
use desktop_config.Model.Enums.{
  ActionKind, ActionKind-discrete, ActionLifecycle-discrete, ControllerPhase-discrete,
  DisplayPower-discrete, ObservationValidity-discrete, PlanningState-discrete,
  PreparationState-discrete, ProfileScope-discrete, WakeReason,
}
use desktop_config.Model.Event.{Event}
use desktop_config.Model.Identity.{
  ActionId-discrete, ApplicationAttemptKey-discrete, BootId-discrete, ControllerInstanceId-discrete,
  EventGeneration-discrete, ObservationKey-discrete, PhysicalToken-discrete, PlanHash-discrete,
  ProbeAttemptKey-discrete, TransitionId-discrete, TransitionKey-discrete, WorkerUnit-discrete,
  action_id_eq, transition_id_eq,
}
use desktop_config.Model.State.{State}
use desktop_config.Reducer.Observe.{observe, observe_valid, record_observation}
use desktop_config.Reducer.Outcome.{decision, request_observation, schedule, stop_action}
use desktop_config.Reducer.Reduce.{admit_event, handle, reduce}
use desktop_config.Reducer.Tombstones.{stopping_mutator}
use desktop_config.Scenarios.Checks.{application_stops-passes, application_waits-passes}
use desktop_config.Scenarios.Data.{
  action_of, application_stops, application_waits, at, docked_sample, stopped_application,
}
use desktop_config.Scenarios.Decisions.{
  application_ends, current, failure, fresh_sample, new_boot, stops_again,
}

observation_failed-retries_example :
    (asked : List Effect) × (reduce application_stops (Event.observation_failed failure)
      ≡ ok (record {
        state = at_timer application_stops 6000;
        effects = asked ++ Effect.schedule (record { deadline_ms = 6000 }) ∷ [];
      }))
    × StopsAgain application_stops asked
observation_failed-retries_example =
    observation_failed-retries application_stops application_stops-passes failure
      (current application_stops 5000 refl refl)

timer_fired-observes_example :
    reduce application_waits (Event.timer_fired (record { metadata = at 1500; deadline_ms = 1000 }))
    ≡ ok (record {
      state = at_timer application_waits 1500;
      effects =
          request_observation WakeReason.timer
          ∷ Effect.schedule (record { deadline_ms = 1500 })
          ∷ [];
    })
timer_fired-observes_example =
    timer_fired-observes application_waits application_waits-passes
      (record { metadata = at 1500; deadline_ms = 1000 }) 1000
      (current application_waits 1500 refl refl) refl (omega arith) (omega arith)

observe-stops_example : stops_again ≡ record {
  state = at_timer (record_observation application_stops (docked_sample 2000 2)) 3000;
  effects =
      stop_action (action_of ActionKind.application 1)
      ∷ Effect.schedule (record { deadline_ms = 3000 })
      ∷ [];
}
unfolding check_candidate check_latest_observation check_observation_authority check_application
    check_probe check_preparation check_finalization check_action_authorization
    assert_controller_invariants check_slot check_phase_relationships check_planning_slot
    check_preparation_slot check_prepared_plan check_planning_relationships check_no_laptop_fallback
    check_probe_is_not_authorization check_continuous_proof check_durable_dispatch
    check_unplug_proof check_numbered_safety_rules check_attempt_history check_action_id
    check_transition_id check_tombstone check_recovery_unit check_action_identities
    check_acknowledged check_worker_acknowledgements reduce admit_event handle observe observe_valid
    record_observation stopping_mutator schedule decision BootId-discrete
    ControllerInstanceId-discrete EventGeneration-discrete ObservationKey-discrete
    PhysicalToken-discrete PlanHash-discrete TransitionKey-discrete ActionId-discrete
    TransitionId-discrete ProbeAttemptKey-discrete ApplicationAttemptKey-discrete
    WorkerUnit-discrete ControllerPhase-discrete PlanningState-discrete PreparationState-discrete
    ProfileScope-discrete ObservationValidity-discrete DisplayPower-discrete ActionKind-discrete
    ActionLifecycle-discrete String-discrete Option-discrete List-discrete ℕ_discrete
observe-stops_example =
    observe-stops application_stops application_stops-passes fresh_sample
      (ActionRecord.application stopped_application) stops_again
      (current application_stops 2000 refl refl) refl refl refl refl

boot_changed-forgets_example :
    (t : State) × (reduce application_stops (Event.boot_changed new_boot)
      ≡ ok (record {
        state = t;
        effects =
            request_observation WakeReason.recovery
            ∷ Effect.schedule (record { deadline_ms = 9000 })
            ∷ [];
      }))
    × Forgotten application_stops new_boot t
boot_changed-forgets_example =
    boot_changed-forgets application_stops application_stops-passes new_boot refl

reduce-stops_again_example :
    reduce application_stops (Event.application_finished application_ends)
    ≡ ok (record {
      state = at_timer application_stops 4000;
      effects =
          stop_action (action_of ActionKind.application 1)
          ∷ Effect.schedule (record { deadline_ms = 4000 })
          ∷ [];
    })
reduce-stops_again_example =
    reduce-stops_again application_stops application_stops-passes (λ h. cc)
      (Event.application_finished application_ends) (action_of ActionKind.application 1) (at 3000)
      (current application_stops 3000 refl refl)
      (EndsStopping.application application_ends stopped_application refl refl refl refl)
