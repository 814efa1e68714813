-- ===== src/Once/Fresh.antt =====
-- The identities that the reducer allocates.
use desktop_config.Prelude.{
  >>-left, >>-right, List, Result, [], any, arith, elem, false, map, not, ok, refl, unique, ◌!=◌,
  ◌<◌, ◌>>◌, ◌∷◌, ◌≡◌, ◌≢◌,
}
use desktop_config.Invariants.Checks.{assert_controller_invariants}
use desktop_config.Invariants.Identities.{
  check_action_id, check_action_identities, check_recovery_unit, check_tombstone,
  check_transition_id, transitions,
}
use desktop_config.Invariants.Rules.{actions, each, require, when}
use desktop_config.Model.Action.{ActionTombstone, record_id}
use desktop_config.Model.Enums.{ActionKind, ControllerPhase, controller_phase_eq}
use desktop_config.Model.Identity.{
  ActionId, TransitionId, WorkerUnit, action_id_eq, transition_id_eq,
}
use desktop_config.Model.State.{State}
use desktop_config.Reducer.Outcome.{allocate_action, allocate_transition}
use desktop_config.Safety.Rules.{split_checks}

abbrev pub action_ids : State → List ActionId
action_ids s = map record_id (actions s)

abbrev pub tombstone_ids : State → List ActionId
tombstone_ids s = map (λ (t : ActionTombstone). t.action_id) s.action_tombstones

-- The action and transition identities that a state knows.
pub record IsNew (s : State) (i : ActionId) : Type 0 where
  pub action : elem i (action_ids s) ≡ false
  pub tombstone : elem i (tombstone_ids s) ≡ false

-- The last of ten checks in sequence.
tenth :
    (a b c d e f g h i j : Result (Unit {0}))
    → (a >> (b >> (c >> (d >> (e >> (f >> (g >> (h >> (i >> j))))))))) ≡ ok tt
    → j ≡ ok tt
tenth a b c d e f g h i j q = ground arith

module _ (s : State) where
  above :
      (i : ActionId) (xs : List ActionId)
      → i.controller_instance ≡ s.controller_instance
      → s.action_sequence_high_water < i.sequence
      → each (check_action_id s) xs ≡ ok tt
      → elem i xs ≡ false
  unfolding check_action_id
  above i [] e l h = refl
  above i (x ∷ xs) e l h =
      let p = >>-left (check_action_id s x) _ h in
      let q = above i xs e l (>>-right (check_action_id s x) _ h) in
      let n : i ≢ x = λ (k : i ≡ x). absurd (ground arith) in ground arith

  above_transition :
      (i : TransitionId) (xs : List TransitionId)
      → i.controller_instance ≡ s.controller_instance
      → s.transition_sequence_high_water < i.sequence
      → each (check_transition_id s) xs ≡ ok tt
      → elem i xs ≡ false
  unfolding check_transition_id
  above_transition i [] e l h = refl
  above_transition i (x ∷ xs) e l h =
      let p = >>-left (check_transition_id s x) _ h in
      let q = above_transition i xs e l (>>-right (check_transition_id s x) _ h) in
      let n : i ≢ x = λ (k : i ≡ x). absurd (ground arith) in ground arith

  action_ids-checked :
      check_action_identities s ≡ ok tt → each (check_action_id s) (action_ids s) ≡ ok tt
  unfolding check_action_identities
  action_ids-checked h = ground arith

  tombstone_ids-checked :
      check_action_identities s ≡ ok tt → each (check_action_id s) (tombstone_ids s) ≡ ok tt
  unfolding check_action_identities
  tombstone_ids-checked h = ground arith

  transitions-checked :
      check_action_identities s ≡ ok tt → each (check_transition_id s) (transitions s) ≡ ok tt
  unfolding check_action_identities
  transitions-checked h =
      let units = map (λ (u : WorkerUnit). u.action_id) s.recovery_units in
      tenth (require (unique (action_ids s)) "active action IDs must be unique")
        (each (check_action_id s) (action_ids s))
        (require (unique (tombstone_ids s)) "action tombstone IDs must be unique")
        (each (check_action_id s) (tombstone_ids s)) (each (check_tombstone s) (actions s))
        (require (unique units) "recovery worker unit action IDs must be unique")
        (each (check_action_id s) units)
        (require (not (any (λ i. elem i (tombstone_ids s)) units))
          "possibly-live recovery worker cannot have terminal evidence")
        (when (s.phase != ControllerPhase.recovering)
          (each (check_recovery_unit s) s.recovery_units))
        (each (check_transition_id s) (transitions s)) h

  -- In a state that passes the invariants, the identities that the reducer allocates for an action
  -- and for a transition belong to no action, no tombstone and no transition of the state.
  pub allocated_fresh :
      (k : ActionKind)
      → assert_controller_invariants s ≡ ok tt
      → IsNew s (allocate_action s k).1 × (elem (allocate_transition s).1 (transitions s) ≡ false)
  unfolding allocate_action allocate_transition
  allocated_fresh k h =
      let p = (split_checks s h).identities in
      (
        record {
          action = above _ (action_ids s) refl (omega arith) (action_ids-checked p);
          tombstone = above _ (tombstone_ids s) refl (omega arith) (tombstone_ids-checked p);
        },
        above_transition _ (transitions s) refl (omega arith) (transitions-checked p),
      )
