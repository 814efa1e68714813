-- ===== src/Invariants/Phases.antt =====
-- `_check_phase_relationships` and `_check_planning_relationships` of
-- .local/lib/monitor-controller/monitor_controller/invariants.py.
use mathlib.Core.Option
use desktop_config.Prelude.{
  List, Option, Result, String, [], elem, false, if◌then◌else◌, is_none, is_some, maybe, none, ok,
  option_eq, some, string_eq, ◌&&◌, ◌<>◌, ◌==◌, ◌>>◌, ◌∷◌,
}
use desktop_config.Invariants.Rules.{failed_lifecycles, given, mutating_in_flight, require, when}
use desktop_config.Model.Action.{
  ApplicationAction, FinalizationAction, PlanningAction, PreparationAction, ProbeAction,
}
use desktop_config.Model.Enums.{
  ActionLifecycle, ControllerPhase, PlanningState, PreparationState, action_lifecycle_eq,
  controller_phase_eq, planning_state_eq, preparation_state_eq,
}
use desktop_config.Model.Identity.{plan_hash_eq, transition_id_eq}
use desktop_config.Model.State.{State}

-- The three tables of expected lifecycles; `none` stands for a phase that is no key.
abbrev pub expected_probe_lifecycles : ControllerPhase → Option (List ActionLifecycle)
expected_probe_lifecycles ControllerPhase.probe_pending = some (ActionLifecycle.admitted ∷ [])
expected_probe_lifecycles ControllerPhase.probing = some mutating_in_flight
expected_probe_lifecycles ControllerPhase.probe_failed = some failed_lifecycles
expected_probe_lifecycles _ = none

abbrev pub expected_application_lifecycles : ControllerPhase → Option (List ActionLifecycle)
expected_application_lifecycles ControllerPhase.apply_pending = some (ActionLifecycle.admitted ∷ [])
expected_application_lifecycles ControllerPhase.applying = some mutating_in_flight
expected_application_lifecycles ControllerPhase.apply_failed = some failed_lifecycles
expected_application_lifecycles _ = none

abbrev pub expected_finalization_lifecycles : ControllerPhase → Option (List ActionLifecycle)
expected_finalization_lifecycles ControllerPhase.finalize_pending =
    some (ActionLifecycle.admitted ∷ [])
expected_finalization_lifecycles ControllerPhase.finalizing =
    some (ActionLifecycle.dispatched ∷ ActionLifecycle.result_pending ∷ [])
expected_finalization_lifecycles ControllerPhase.finalize_stopping =
    some (ActionLifecycle.stopping ∷ [])
expected_finalization_lifecycles ControllerPhase.finalize_failed = some failed_lifecycles
expected_finalization_lifecycles _ = none

-- One round of the loop over the three actions, on the lifecycle of the action that is present.
unfoldable pub check_slot :
    Option ActionLifecycle → Option (List ActionLifecycle) → String → Result (Unit {0})
check_slot lifecycle none label =
    require (is_none lifecycle) (label <> " identity requires its matching phase")
check_slot lifecycle (some expected) label = do
  require (is_some lifecycle) (label <> " phase requires a persisted identity")
  require (maybe lifecycle false (λ l. elem l expected))
      (label <> " lifecycle does not match controller phase")

unfoldable pub check_phase_relationships : State → Result (Unit {0})
check_phase_relationships s = if s.phase == ControllerPhase.recovering then ok tt else do
  check_slot (Option.map (λ (a : ProbeAction). a.lifecycle) s.probe)
      (expected_probe_lifecycles s.phase) "probe"
  check_slot (Option.map (λ (a : ApplicationAction). a.lifecycle) s.application)
      (expected_application_lifecycles s.phase) "application"
  check_slot (Option.map (λ (a : FinalizationAction). a.lifecycle) s.finalization)
      (expected_finalization_lifecycles s.phase) "finalization"

abbrev pub expected_planning : PlanningState → Option (List ActionLifecycle)
expected_planning PlanningState.plan_pending = some (ActionLifecycle.admitted ∷ [])
expected_planning PlanningState.planning = some (ActionLifecycle.dispatched ∷ [])
expected_planning PlanningState.plan_ready = some (ActionLifecycle.completed ∷ [])
expected_planning PlanningState.plan_failed = some failed_lifecycles
expected_planning PlanningState.plan_idle = none

abbrev pub expected_preparation : PreparationState → Option (List ActionLifecycle)
expected_preparation PreparationState.prepare_pending = some (ActionLifecycle.admitted ∷ [])
expected_preparation PreparationState.preparing =
    some (ActionLifecycle.dispatched ∷ ActionLifecycle.result_pending ∷ [])
expected_preparation PreparationState.prepared = some (ActionLifecycle.completed ∷ [])
expected_preparation PreparationState.prepare_stopping = some (ActionLifecycle.stopping ∷ [])
expected_preparation PreparationState.prepare_failed = some failed_lifecycles
expected_preparation PreparationState.prepare_idle = none

unfoldable pub check_planning_slot :
    Option ActionLifecycle → Option (List ActionLifecycle) → Result (Unit {0})
check_planning_slot lifecycle none =
    require (is_none lifecycle) "idle planning state cannot retain an action"
check_planning_slot lifecycle (some expected) = do
  require (is_some lifecycle) "non-idle planning state requires a persisted planning identity"
  require (maybe lifecycle false (λ l. elem l expected))
      "planning lifecycle does not match planning state"

unfoldable pub check_preparation_slot :
    Option ActionLifecycle → Option (List ActionLifecycle) → Result (Unit {0})
check_preparation_slot lifecycle none =
    require (is_none lifecycle) "idle preparation state cannot retain an action"
check_preparation_slot lifecycle (some expected) = do
  require (is_some lifecycle) "non-idle preparation state requires a persisted identity"
  require (maybe lifecycle false (λ l. elem l expected))
      "preparation lifecycle does not match preparation state"

-- The block under `if state.preparation is not None`.
unfoldable pub check_prepared_plan : State → PreparationAction → Result (Unit {0})
check_prepared_plan s preparation = do
  require (is_some s.planning && s.planning_state == PlanningState.plan_ready)
      "preparation requires a ready persisted plan"
  require
      (maybe s.planning false
        (λ (planning : PlanningAction). some preparation.plan_hash == planning.plan_hash))
      "preparation must use the currently completed plan hash"
  require
      (maybe s.planning false (λ (planning : PlanningAction).
        preparation.transition_id == planning.transition_id
        && preparation.profile == planning.profile))
      "preparation and planning transition identities must match"

unfoldable pub check_planning_relationships : State → Result (Unit {0})
check_planning_relationships s = if s.phase == ControllerPhase.recovering then ok tt else do
  check_planning_slot (Option.map (λ (a : PlanningAction). a.lifecycle) s.planning)
      (expected_planning s.planning_state)
  when (s.planning_state == PlanningState.plan_ready) (
      require (maybe s.planning false (λ (planning : PlanningAction). is_some planning.plan_hash))
        "ready planning state requires a staged plan hash")
  check_preparation_slot (Option.map (λ (a : PreparationAction). a.lifecycle) s.preparation)
      (expected_preparation s.preparation_state)
  given s.preparation (check_prepared_plan s)
  when s.baseline_adoption (
      require
        (s.planning_state == PlanningState.plan_idle
          && s.preparation_state == PreparationState.prepare_idle)
        "startup baseline adoption forbids planning and preparation")
