-- ===== src/Scenarios/Runs.antt =====
-- The theorems on runs, counters, tombstones and proofs, at the scenarios.
use desktop_config.Prelude.{
  List, List-discrete, Option-discrete, String-discrete, [], any, arith, elem, err, false, ok,
  out_of_rounds, refl, suc, true, unique, zero, ℕ, ℕ_discrete, ◌∷◌, ◌≡◌, ◌≢◌, ◌≤◌,
}
use desktop_config.Counters.Ahead.{Ahead, counters}
use desktop_config.Counters.Handled.{reduce-Ahead}
use desktop_config.Guards.Timers.{observation_failed-schedules}
use desktop_config.Invariants.Authority.{
  check_action_authorization, check_application, check_candidate, check_finalization,
  check_latest_observation, check_observation_authority, check_preparation, check_probe,
}
use desktop_config.Invariants.Checks.{assert_controller_invariants}
use desktop_config.Invariants.Identities.{
  check_acknowledged, check_action_id, check_action_identities, check_recovery_unit,
  check_tombstone, check_transition_id, check_worker_acknowledgements, transitions,
}
use desktop_config.Invariants.Phases.{
  check_phase_relationships, check_planning_relationships, check_planning_slot,
  check_preparation_slot, check_prepared_plan, check_slot,
}
use desktop_config.Invariants.Safety.{
  check_attempt_history, check_continuous_proof, check_durable_dispatch, check_no_laptop_fallback,
  check_numbered_safety_rules, check_probe_is_not_authorization, check_unplug_proof,
}
use desktop_config.Model.Action.{ActionRecord, ActionTombstone}
use desktop_config.Model.Enums.{
  ActionKind, ActionKind-discrete, ActionLifecycle, ActionLifecycle-discrete,
  ControllerPhase-discrete, DisplayPower-discrete, ObservationValidity-discrete,
  PlanningState-discrete, PreparationState-discrete, ProfileScope-discrete,
}
use desktop_config.Model.Event.{Event}
use desktop_config.Model.Identity.{
  ActionId-discrete, ApplicationAttemptKey-discrete, BootId-discrete, ControllerInstanceId-discrete,
  EventGeneration-discrete, ObservationKey-discrete, PhysicalToken-discrete, PlanHash-discrete,
  ProbeAttemptKey-discrete, TransitionId-discrete, TransitionKey-discrete, WorkerUnit-discrete,
  action_id_eq, transition_id_eq,
}
use desktop_config.Model.State.{State}
use desktop_config.Once.Fresh.{IsNew, allocated_fresh}
use desktop_config.Reducer.Classify.{handle_unplug}
use desktop_config.Reducer.Outcome.{allocate_action, allocate_transition, decision}
use desktop_config.Reducer.Reduce.{admit_event, handle, reduce}
use desktop_config.Reducer.Timing.{worker_deadline_ms}
use desktop_config.Reducer.Tombstones.{append_tombstone, bound_action_tombstones, stopping_mutator}
use desktop_config.Reducer.Workers.{dispatched, dispatched_application}
use desktop_config.Retention.Append.{Appended, append_tombstone_total}
use desktop_config.Retention.Bound.{Bounded, bound_action_tombstones_total, ids}
use desktop_config.Safety.Reachable.{Reachable, Reachable-IsSafe, reduce-IsSafe, reduce_ends}
use desktop_config.Safety.Spec.{IsSafe}
use desktop_config.Scenarios.Checks.{desktop_prepared-passes, idle-passes}
use desktop_config.Scenarios.Data.{
  action_of, application_waits, bare_sample, desktop_prepared, docked_sample, idle, plan,
  probe_waits, seeing,
}
use desktop_config.Scenarios.Decisions.{
  after_failure, application_started, application_starts, current, decided, failure, fresh_sample,
  tombstones,
}
use desktop_config.Unplug.{is_late, unplug_needs_two}

failure_decided : reduce idle (Event.observation_failed failure) ≡ ok after_failure
unfolding stopping_mutator
failure_decided =
    observation_failed-schedules idle idle-passes failure (current idle 5000 refl refl)

reduce-IsSafe_example : IsSafe idle × IsSafe after_failure.state
reduce-IsSafe_example =
    reduce-IsSafe idle (Event.observation_failed failure) after_failure failure_decided

Reachable-IsSafe_example : IsSafe after_failure.state
Reachable-IsSafe_example = Reachable-IsSafe idle after_failure.state idle-passes (
    Reachable.step idle (Event.observation_failed failure) after_failure Reachable.start
      failure_decided)

reduce_ends_example :
    reduce probe_waits (Event.observation_completed fresh_sample) ≢ err out_of_rounds
reduce_ends_example = reduce_ends probe_waits (Event.observation_completed fresh_sample)

below-tombstones :
    (n m : ℕ) → n ≤ m → elem (action_of ActionKind.probe m) (ids (tombstones n)) ≡ false
below-tombstones zero m h = refl
below-tombstones (suc n) m h =
    let later = below-tombstones n m (omega arith) in
    let other : n ≢ m = omega arith in ground arith

unique-tombstones : (n : ℕ) → unique (ids (tombstones n)) ≡ true
unique-tombstones zero = refl
unique-tombstones (suc n) =
    let later = unique-tombstones n in
    let fresh = below-tombstones n n (omega arith) in ground arith

bound_action_tombstones_total_example :
    (r : List ActionTombstone) × (bound_action_tombstones
        (tombstones 900)
        (action_of ActionKind.probe 899 ∷ [])
      ≡ ok r)
    × Bounded (action_of ActionKind.probe 899 ∷ []) (tombstones 900) r
bound_action_tombstones_total_example =
    bound_action_tombstones_total (tombstones 900) (action_of ActionKind.probe 899 ∷ [])
      (unique-tombstones 900) (omega arith)

append_tombstone_total_example :
    (t : State) × (append_tombstone desktop_prepared
        (ActionRecord.planning plan)
        ActionLifecycle.cancelled
      ≡ ok t)
    × Appended desktop_prepared (ActionRecord.planning plan) ActionLifecycle.cancelled t
unfolding ActionId-discrete ActionKind-discrete ControllerInstanceId-discrete ℕ_discrete
append_tombstone_total_example =
    append_tombstone_total desktop_prepared (ActionRecord.planning plan) ActionLifecycle.cancelled
      refl

allocated_fresh_example :
    IsNew desktop_prepared (allocate_action desktop_prepared ActionKind.finalization).1
    × (elem (allocate_transition desktop_prepared).1 (transitions desktop_prepared) ≡ false)
allocated_fresh_example =
    allocated_fresh desktop_prepared ActionKind.finalization desktop_prepared-passes

unplug_needs_two_example : any (is_late 1000) (bare_sample 2000 2 ∷ bare_sample 4000 3 ∷ []) ≡ true
unfolding handle_unplug BootId-discrete ControllerInstanceId-discrete EventGeneration-discrete
    ObservationKey-discrete PhysicalToken-discrete PlanHash-discrete TransitionKey-discrete
    ActionId-discrete TransitionId-discrete ProbeAttemptKey-discrete ApplicationAttemptKey-discrete
    WorkerUnit-discrete ControllerPhase-discrete PlanningState-discrete PreparationState-discrete
    ProfileScope-discrete ObservationValidity-discrete DisplayPower-discrete ActionKind-discrete
    ActionLifecycle-discrete String-discrete Option-discrete List-discrete ℕ_discrete
unplug_needs_two_example =
    unplug_needs_two (seeing (docked_sample 500 1)) (bare_sample 1000 1)
      (bare_sample 2000 2 ∷ bare_sample 4000 3 ∷ []) refl refl refl

reduce-Ahead_example : Ahead (counters application_waits) (decided application_started).state
unfolding check_candidate check_latest_observation check_observation_authority check_application
    check_probe check_preparation check_finalization check_action_authorization
    assert_controller_invariants check_slot check_phase_relationships check_planning_slot
    check_preparation_slot check_prepared_plan check_planning_relationships check_no_laptop_fallback
    check_probe_is_not_authorization check_continuous_proof check_durable_dispatch
    check_unplug_proof check_numbered_safety_rules check_attempt_history check_action_id
    check_transition_id check_tombstone check_recovery_unit check_action_identities
    check_acknowledged check_worker_acknowledgements reduce admit_event handle dispatched
    dispatched_application worker_deadline_ms decision BootId-discrete ControllerInstanceId-discrete
    EventGeneration-discrete ObservationKey-discrete PhysicalToken-discrete PlanHash-discrete
    TransitionKey-discrete ActionId-discrete TransitionId-discrete ProbeAttemptKey-discrete
    ApplicationAttemptKey-discrete WorkerUnit-discrete ControllerPhase-discrete
    PlanningState-discrete PreparationState-discrete ProfileScope-discrete
    ObservationValidity-discrete DisplayPower-discrete ActionKind-discrete ActionLifecycle-discrete
    String-discrete Option-discrete List-discrete ℕ_discrete
reduce-Ahead_example =
    reduce-Ahead application_waits (Event.application_dispatched application_starts)
      (decided application_started) refl
