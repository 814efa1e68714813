-- ===== src/Invariants/Identities.antt =====
-- `_check_action_identities`, `_check_action_id`, `_check_transition_id` and
-- `_check_worker_acknowledgements` of
-- .local/lib/monitor-controller/monitor_controller/invariants.py.
use mathlib.Core.Option
use desktop_config.Prelude.{
  List, Option, Result, [], any, elem, false, find, is_some, keep, leb, length, map, maybe, not,
  option_eq, some, somes, unique, ◌!=◌, ◌&&◌, ◌==◌, ◌>>◌, ◌∷◌,
}
use desktop_config.Invariants.Rules.{
  actions, each, given, in_flight, is_terminal, mutators, require, when,
}
use desktop_config.Model.Action.{
  ActionRecord, ActionTombstone, FinalizationAction, PlanningAction, PreparationAction, is_planning,
  record_deadline, record_id, record_lifecycle, record_unit,
}
use desktop_config.Model.Enums.{
  ActionLifecycle, ControllerPhase, action_lifecycle_eq, controller_phase_eq,
}
use desktop_config.Model.Identity.{
  ActionId, TransitionId, WorkerUnit, action_id_eq, controller_instance_id_eq, worker_unit_eq,
}
use desktop_config.Model.State.{State}

unfoldable pub check_action_id : State → ActionId → Result (Unit {0})
check_action_id s action_id = when (action_id.controller_instance == s.controller_instance) (
    require (leb action_id.sequence s.action_sequence_high_water)
      "current-instance action ID exceeds its sequence high-water mark")

unfoldable pub check_transition_id : State → TransitionId → Result (Unit {0})
check_transition_id s transition_id =
    when (transition_id.controller_instance == s.controller_instance) (
      require (leb transition_id.sequence s.transition_sequence_high_water)
        "current-instance transition ID exceeds its sequence high-water mark")

-- The dictionaries `tombstones_by_id` and `actions_by_id`; the checks above each one's construction
-- have its keys unique, so the first entry of a key is its last.
abbrev pub tombstone_for : State → ActionId → Option ActionTombstone
tombstone_for s action_id = find (λ t. t.action_id == action_id) s.action_tombstones

abbrev pub action_for : State → ActionId → Option ActionRecord
action_for s action_id = find (λ a. record_id a == action_id) (actions s)

-- One round of the loop over the retained actions.
unfoldable pub check_tombstone : State → ActionRecord → Result (Unit {0})
check_tombstone s action =
    let tombstone = tombstone_for s (record_id action) in
    do
      when (is_terminal action) (
          require
            (maybe tombstone false
              (λ (t : ActionTombstone). t.lifecycle == record_lifecycle action))
            "retained terminal action requires a matching terminal tombstone")
      given tombstone (λ t.
          require (is_terminal action && t.lifecycle == record_lifecycle action)
            "retained action and tombstone lifecycles must match")

-- One round of the loop over the possibly live workers.
unfoldable pub check_recovery_unit : State → WorkerUnit → Result (Unit {0})
check_recovery_unit s unit =
    require
      (maybe (action_for s unit.action_id) false (λ action.
        not (is_planning action)
        && elem (record_lifecycle action)
            (ActionLifecycle.dispatched ∷ ActionLifecycle.stopping ∷ [])
        && record_unit action == some unit))
      "possibly-live recovery worker requires its matching exclusion"

abbrev pub transitions : State → List TransitionId
transitions s = somes (
    Option.map (λ (a : PlanningAction). a.transition_id) s.planning
    ∷ Option.map (λ (a : PreparationAction). a.transition_id) s.preparation
    ∷ Option.map (λ (a : FinalizationAction). a.transition_id) s.finalization
    ∷ [])

unfoldable pub check_action_identities : State → Result (Unit {0})
check_action_identities s =
    let action_ids = map record_id (actions s) in
    let tombstone_ids = map (λ (t : ActionTombstone). t.action_id) s.action_tombstones in
    let unit_ids = map (λ (u : WorkerUnit). u.action_id) s.recovery_units in
    do
      require (unique action_ids) "active action IDs must be unique"
      each (check_action_id s) action_ids
      require (unique tombstone_ids) "action tombstone IDs must be unique"
      each (check_action_id s) tombstone_ids
      each (check_tombstone s) (actions s)
      require (unique unit_ids) "recovery worker unit action IDs must be unique"
      each (check_action_id s) unit_ids
      require (not (any (λ i. elem i tombstone_ids) unit_ids))
          "possibly-live recovery worker cannot have terminal evidence"
      when (s.phase != ControllerPhase.recovering) (each (check_recovery_unit s) s.recovery_units)
      each (check_transition_id s) (transitions s)

-- One round of the loop over the actions; a planning action is passed over.
unfoldable pub check_acknowledged : ActionRecord → Result (Unit {0})
check_acknowledged action = when (not (is_planning action) && in_flight action) (do
  require (is_some (record_unit action)) "acknowledged worker must retain its unit identity"
  require (is_some (record_deadline action))
      "acknowledged worker must retain its absolute deadline")

unfoldable pub check_worker_acknowledgements : State → Result (Unit {0})
check_worker_acknowledgements s = do
  require (leb (length (keep in_flight (mutators s))) 1)
      "more than one display mutation is acknowledged in flight"
  each check_acknowledged (actions s)
