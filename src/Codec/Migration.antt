-- ===== src/Codec/Migration.antt =====
-- What becomes of a stored state of an older schema: `_migration_recovery_state` and
-- `_decode_state_document` of .local/lib/monitor-controller/monitor_controller/codec.py.
use desktop_config.Prelude.{
  Bool, List, Option, Result, String, [], elem, false, if◌then◌else◌, is_none, is_some, maybe, none,
  not, ok, ◌&&◌, ◌++◌, ◌>>=◌, ◌>>◌, ◌∷◌,
}
use desktop_config.Codec.Validation.{refuse, validate_state}
use desktop_config.Invariants.Rules.{actions, is_terminal, mutating_in_flight, when}
use desktop_config.Model.Action.{
  ActionRecord, ActionTombstone, is_planning, record_id, record_lifecycle, record_unit,
}
use desktop_config.Model.Enums.{
  ActionLifecycle, ControllerPhase, PlanningState, PreparationState, action_lifecycle_eq,
}
use desktop_config.Model.Identity.{ActionId, WorkerUnit, worker_unit_eq}
use desktop_config.Model.State.{State}
use desktop_config.Reducer.Tombstones.{bound_action_tombstones}

-- The local variables of `_migration_recovery_state`; `seen_units` is the set of `recovery_units`.
pub record Exclusions : Type 0 where
  pub tombstones : List ActionTombstone
  pub protected_ids : List ActionId
  pub units : List WorkerUnit

abbrev pub cancelled : ActionRecord → ActionTombstone
cancelled action = record { action_id = record_id action; lifecycle = ActionLifecycle.cancelled }

-- The unit of a worker that may be alive; `_IN_FLIGHT_LIFECYCLE_VALUES` is the set of the invariants.
abbrev pub possibly_live : ActionRecord → Option WorkerUnit
possibly_live action =
    if not (is_planning action) && elem (record_lifecycle action) mutating_in_flight
    then record_unit action
    else none

-- One round of the loop over the actions
unfoldable pub exclude : Exclusions → ActionRecord → Exclusions
exclude x action =
    if is_terminal action
    then x
    else maybe (possibly_live action)
        (record x {
          tombstones = x.tombstones ++ cancelled action ∷ [];
          protected_ids = x.protected_ids ++ record_id action ∷ [];
        })
        (λ unit. if elem unit x.units then x else record x { units = x.units ++ unit ∷ [] })

unfoldable pub exclude_all : Exclusions → List ActionRecord → Exclusions
unfolding exclude
exclude_all x [] = x
exclude_all x (action ∷ rest) = exclude_all (exclude x action) rest

-- `_validate_desktop_finalization_requirement`, which the construction of a state calls
unfoldable pub validate_desktop_finalization_requirement :
    Bool → Option String → Bool → Result (Unit {0})
validate_desktop_finalization_requirement required finalized_profile baseline_adoption =
    when required (do
      refuse (is_some finalized_profile)
          "required desktop finalization cannot retain completed proof"
      refuse baseline_adoption "required desktop finalization forbids baseline adoption")

-- The fields of the `replace` at the end
abbrev pub revoked : State → List ActionTombstone → List WorkerUnit → State
revoked s retained units = record s {
  latest_observation = none;
  phase = ControllerPhase.recovering;
  planning_state = PlanningState.plan_idle;
  preparation_state = PreparationState.prepare_idle;
  physical_token = none;
  candidate = none;
  aggressive_deadline_ms = none;
  next_timer_ms = none;
  backoff_index = 0;
  verify_since_ms = none;
  last_drm_at_ms = none;
  stable_x_profile = none;
  external_intent = false;
  baseline_adoption = is_none s.desktop_finalized_profile;
  probe = none;
  application = none;
  planning = none;
  preparation = none;
  finalization = none;
  unknown_key = none;
  unknown_since_ms = none;
  unplug_proof = none;
  action_tombstones = retained;
  recovery_units = units;
}

-- The `replace`, whose `__post_init__` checks the new fields: of them, it is the baseline adoption that
-- it may refuse.
unfoldable pub revoke : State → List ActionTombstone → List WorkerUnit → Result State
unfolding validate_desktop_finalization_requirement
revoke s retained units = do
  validate_desktop_finalization_requirement s.desktop_finalization_required
      s.desktop_finalized_profile (is_none s.desktop_finalized_profile)
  ok (revoked s retained units)

-- `_migration_recovery_state`
unfoldable pub migration_recovery_state : State → Result State
unfolding exclude_all revoke
migration_recovery_state s =
    let x =
      exclude_all
        (record { tombstones = s.action_tombstones; protected_ids = []; units = s.recovery_units })
        (actions s) in
    do retained ← bound_action_tombstones x.tombstones x.protected_ids; revoke s retained x.units

-- `_decode_state_document` from the decoded value on
unfoldable pub accept_state : Bool → Bool → State → Result State
unfolding migration_recovery_state
accept_state authoritative had_unproven_plan decoded = do
  validate_state decoded
  if authoritative && had_unproven_plan
      then (do recovered ← migration_recovery_state decoded; validate_state recovered; ok recovered)
      else ok decoded
