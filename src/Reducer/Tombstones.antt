-- ===== src/Reducer/Tombstones.antt =====
-- Terminal action identities: `bound_action_tombstones` of
-- .local/lib/monitor-controller/monitor_controller/model.py, and `_clear_recovery_unit`,
-- `_append_tombstone`, `_stopping_mutator` and `_action_for_id` of reducer.py beside it.
use desktop_config.Prelude.{
  List, Option, Result, [], elem, err, find, if◌then◌else◌, keep, leb, length, map, nat_eq, not, ok,
  value_error, ℕ, ◌!=◌, ◌&&◌, ◌++◌, ◌-◌, ◌==◌, ◌>>=◌, ◌∷◌,
}
use desktop_config.Invariants.Rules.{actions, mutators}
use desktop_config.Model.Action.{ActionRecord, ActionTombstone, record_id, record_lifecycle}
use desktop_config.Model.Enums.{ActionLifecycle, action_lifecycle_eq}
use desktop_config.Model.Identity.{ActionId, WorkerUnit, action_id_eq}
use desktop_config.Model.State.{State}

-- `ACTION_TOMBSTONE_RETENTION_LIMIT`
abbrev pub action_tombstone_retention_limit : ℕ
action_tombstone_retention_limit = 768

-- The loop: `excess` counts what is still to be dropped; the result has what is left of it.
unfoldable pub drop_excess : List ActionId → ℕ → List ActionTombstone → List ActionTombstone × ℕ
drop_excess protected_ids excess [] = ([], excess)
drop_excess protected_ids excess (t ∷ ts) =
    let dropped = excess != 0 && not (elem t.action_id protected_ids) in
    let (retained, left) = drop_excess protected_ids (if dropped then excess - 1 else excess) ts in
    (if dropped then retained else t ∷ retained, left)

-- `bound_action_tombstones`
unfoldable pub bound_action_tombstones :
    List ActionTombstone → List ActionId → Result (List ActionTombstone)
unfolding drop_excess
bound_action_tombstones tombstones protected_ids =
    if leb (length tombstones) action_tombstone_retention_limit
    then ok tombstones
    else (let (retained, left) =
          drop_excess protected_ids (length tombstones - action_tombstone_retention_limit)
            tombstones in
        if left == 0
        then ok retained
        else err (value_error "protected action tombstones exceed the retention limit"))

-- `_clear_recovery_unit`
unfoldable pub clear_recovery_unit : State → ActionId → State
clear_recovery_unit s action_id = record s {
  recovery_units = keep (λ (u : WorkerUnit). u.action_id != action_id) s.recovery_units;
}

-- `_append_tombstone`
unfoldable pub append_tombstone : State → ActionRecord → ActionLifecycle → Result State
unfolding clear_recovery_unit
append_tombstone s action lifecycle =
    let retained =
      keep (λ (t : ActionTombstone). t.action_id != record_id action) s.action_tombstones in
    do
      bounded ←
          bound_action_tombstones
            (retained ++ record { action_id = record_id action; lifecycle = lifecycle } ∷ [])
            (map record_id (actions s))
      ok (record (clear_recovery_unit s (record_id action)) { action_tombstones = bounded })

-- `_stopping_mutator`
unfoldable pub stopping_mutator : State → Option ActionRecord
stopping_mutator s = find (λ a. record_lifecycle a == ActionLifecycle.stopping) (mutators s)

-- `_action_for_id`
unfoldable pub action_for_id : State → ActionId → Option ActionRecord
action_for_id s action_id = find (λ a. record_id a == action_id) (actions s)
