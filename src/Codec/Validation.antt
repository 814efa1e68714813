-- ===== src/Codec/Validation.antt =====
-- The bounds and relations of a stored state: `validate_state` and what it calls in
-- .local/lib/monitor-controller/monitor_controller/codec.py.
use desktop_config.Prelude.{
  Bool, List, Option, Result, String, [], ambiguous_bijection, any, controller_invariant, elem, err,
  false, find, if◌then◌else◌, is_none, is_some, length, ltb, map, maybe, nat_eq, none, not, ok,
  out_of_rounds, some, true, value_error, ℕ, ◌!=◌, ◌&&◌, ◌++◌, ◌<>◌, ◌==◌, ◌>>◌, ◌||◌, ◌∷◌,
}
use desktop_config.Invariants.Checks.{assert_controller_invariants}
use desktop_config.Invariants.Rules.{actions, each, is_terminal, when}
use desktop_config.Model.Action.{
  ActionRecord, ActionTombstone, ApplicationAction, ProbeAction, is_planning, record_deadline,
  record_id, record_lifecycle, record_unit,
}
use desktop_config.Model.Enums.{
  ActionLifecycle, ControllerPhase, PlanningState, PreparationState, action_kind_eq,
  action_lifecycle_eq, controller_phase_eq, planning_state_eq, preparation_state_eq,
}
use desktop_config.Model.Identity.{
  ActionId, ApplicationAttemptKey, ProbeAttemptKey, WorkerUnit, action_id_eq,
  application_attempt_key_eq, controller_instance_id_eq, probe_attempt_key_eq,
}
use desktop_config.Model.Observation.{nonempty}
use desktop_config.Model.State.{State}

-- `MAX_TOMBSTONES`, `MAX_RECOVERY_UNITS` and `MAX_ATTEMPT_KEYS`
abbrev pub max_tombstones : ℕ
max_tombstones = 1024

abbrev pub max_recovery_units : ℕ
max_recovery_units = 256

abbrev pub max_attempt_keys : ℕ
max_attempt_keys = 4096

-- `if failing: _fail(message)`; a `StateCodecError` is a `ValueError`.
abbrev pub refuse : Bool → String → Result (Unit {0})
refuse true message = err (value_error message)
refuse false message = ok tt

-- `action.exit_status`
abbrev pub record_exit_status : ActionRecord → Option ℕ
record_exit_status (ActionRecord.probe a) = a.exit_status
record_exit_status (ActionRecord.application a) = a.exit_status
record_exit_status (ActionRecord.planning a) = a.exit_status
record_exit_status (ActionRecord.preparation a) = a.exit_status
record_exit_status (ActionRecord.finalization a) = a.exit_status

-- `_validate_action_record`
unfoldable pub validate_action_record : ActionRecord → Result (Unit {0})
validate_action_record action = when (not (is_planning action)) (do
  refuse
      (record_lifecycle action == ActionLifecycle.admitted
        && (is_some (record_unit action)
            || is_some (record_deadline action)
            || is_some (record_exit_status action)))
      "admitted action cannot have dispatch or result data"
  refuse
      (record_lifecycle action == ActionLifecycle.dispatched
        && (is_none (record_unit action)
            || is_none (record_deadline action)
            || is_some (record_exit_status action)))
      "dispatched action requires its worker unit and deadline")

-- `_validate_recovering_relationships`
unfoldable pub validate_recovering_relationships : State → Result (Unit {0})
validate_recovering_relationships s = when (s.phase == ControllerPhase.recovering) (do
  refuse (nonempty (actions s)) "recovering state cannot retain action identities"
  refuse (s.planning_state != PlanningState.plan_idle) "recovering state requires idle planning"
  refuse (s.preparation_state != PreparationState.prepare_idle)
      "recovering state requires idle preparation")

-- `tombstones_by_id.get(action_id)`: of two tombstones with one ID, the dictionary has the last.
unfoldable pub last_tombstone : List ActionTombstone → ActionId → Option ActionTombstone
last_tombstone [] action_id = none
last_tombstone (t ∷ ts) action_id =
    let later = last_tombstone ts action_id in
    maybe later (if t.action_id == action_id then some t else none) some

-- One round of `_validate_terminal_evidence`
unfoldable pub validate_evidence : State → ActionRecord → Result (Unit {0})
unfolding last_tombstone
validate_evidence s action =
    let tombstone = last_tombstone s.action_tombstones (record_id action) in
    let matches =
      maybe tombstone false (λ (t : ActionTombstone). t.lifecycle == record_lifecycle action) in
    do
      refuse (is_terminal action && not matches)
          "retained terminal action requires a matching terminal tombstone"
      refuse (is_some tombstone && (not (is_terminal action) || not matches))
          "retained action and terminal tombstone lifecycles must match"

-- `_validate_terminal_evidence`
unfoldable pub validate_terminal_evidence : State → Result (Unit {0})
unfolding validate_evidence
validate_terminal_evidence s = each (validate_evidence s) (actions s)

-- The keys of `sequence_kinds`
same_sequence : ActionId → ActionId → Bool
same_sequence a b = a.controller_instance == b.controller_instance && a.sequence == b.sequence

-- The loop over `identities`, with the identities seen so far, the latest first.
unfoldable pub validate_sequence_kinds : List ActionId → List ActionId → Result (Unit {0})
unfolding same_sequence
validate_sequence_kinds seen [] = ok tt
validate_sequence_kinds seen (action_id ∷ rest) = do
  refuse
      (maybe (find (same_sequence action_id) seen) false
        (λ (previous : ActionId). previous.kind != action_id.kind))
      "one controller sequence is assigned to multiple action kinds"
  validate_sequence_kinds (action_id ∷ seen) rest

abbrev pub ended_ids : State → List ActionId
ended_ids s = map (λ (t : ActionTombstone). t.action_id) s.action_tombstones

abbrev pub recovery_unit_ids : State → List ActionId
recovery_unit_ids s = map (λ (u : WorkerUnit). u.action_id) s.recovery_units

-- The checks of the attempt keys at the end of `_validate_persistence_relationships`
unfoldable pub validate_attempts : State → Result (Unit {0})
validate_attempts s = do
  refuse
      (maybe s.probe false (λ (probe : ProbeAction).
        probe.lifecycle == ActionLifecycle.admitted && elem probe.key s.attempted_probe_keys))
      "admitted probe key cannot already be attempted"
  refuse
      (maybe s.application false (λ (application : ApplicationAction).
        application.lifecycle == ActionLifecycle.admitted
        && elem application.key s.attempted_application_keys))
      "admitted application key cannot already be attempted"
  refuse
      (any (λ (key : ProbeAttemptKey). key.physical_epoch != s.physical_epoch)
          s.attempted_probe_keys
        || any (λ (key : ApplicationAttemptKey). key.physical_epoch != s.physical_epoch)
            s.attempted_application_keys)
      "attempt history belongs to another physical epoch"

-- `_validate_persistence_relationships`
unfoldable pub validate_persistence_relationships : State → Result (Unit {0})
unfolding validate_terminal_evidence validate_recovering_relationships validate_sequence_kinds
    validate_action_record validate_attempts
validate_persistence_relationships s = do
  validate_terminal_evidence s
  refuse (any (λ i. elem i (ended_ids s)) (recovery_unit_ids s))
      "possibly-live worker cannot also have terminal evidence"
  validate_recovering_relationships s
  validate_sequence_kinds [] (map record_id (actions s) ++ ended_ids s ++ recovery_unit_ids s)
  each validate_action_record (actions s)
  validate_attempts s

-- `except (TypeError, ValueError)` around the invariants
abbrev pub relationship_error : Result (Unit {0}) → Result (Unit {0})
relationship_error (err (controller_invariant message)) =
    err (value_error ("state relationships are invalid: " <> message))
relationship_error (err (value_error message)) =
    err (value_error ("state relationships are invalid: " <> message))
relationship_error (err ambiguous_bijection) = err (value_error "state relationships are invalid: ")
relationship_error (err out_of_rounds) = err out_of_rounds
relationship_error (ok u) = ok u

-- `validate_state`, with `_validate_bounded_state`
unfoldable pub validate_state : State → Result (Unit {0})
unfolding validate_persistence_relationships
validate_state s = do
  refuse (ltb max_tombstones (length s.action_tombstones))
      "state contains too many action tombstones"
  refuse (ltb max_recovery_units (length s.recovery_units))
      "state contains too many recovery worker units"
  refuse (ltb max_attempt_keys (length s.attempted_probe_keys))
      "state contains too many attempted probe keys"
  refuse (ltb max_attempt_keys (length s.attempted_application_keys))
      "state contains too many attempted application keys"
  validate_persistence_relationships s
  relationship_error (assert_controller_invariants s)
