-- ===== src/Retention/Append.antt =====
-- `_append_tombstone` never raises on a state with distinct tombstones, and records the action.
use mathlib.Core.List.{map-append}
use desktop_config.Prelude.{
  List, Option, [], arith, elem, false, keep, length, map, none, ok, refl, some, somes, true,
  unique, ◌!=◌, ◌++◌, ◌∷◌, ◌≡◌, ◌≤◌,
}
use desktop_config.Invariants.Rules.{actions}
use desktop_config.Model.Action.{ActionRecord, ActionTombstone, record_id}
use desktop_config.Model.Enums.{ActionLifecycle}
use desktop_config.Model.Identity.{ActionId, action_id_eq}
use desktop_config.Model.State.{State}
use desktop_config.Reducer.Tombstones.{
  action_tombstone_retention_limit, append_tombstone, clear_recovery_unit,
}
use desktop_config.Retention.Bound.{Bounded, bound_action_tombstones_total, ids}
use desktop_config.Retention.Sets.{unique-append_one}

abbrev entry : ActionRecord → ActionLifecycle → ActionTombstone
entry a l = record { action_id = record_id a; lifecycle = l }

-- The tombstones of other actions.
abbrev others : List ActionTombstone → ActionId → List ActionTombstone
others ts i = keep (λ (t : ActionTombstone). t.action_id != i) ts

elem-others :
    (i j : ActionId) (ts : List ActionTombstone)
    → elem j (ids ts) ≡ false
    → elem j (ids (others ts i)) ≡ false
elem-others i j [] h = refl
elem-others i j (t ∷ ts) h = ground (arith, elem-others i j ts)

elem_self-others : (i : ActionId) (ts : List ActionTombstone) → elem i (ids (others ts i)) ≡ false
elem_self-others i [] = refl
elem_self-others i (t ∷ ts) = ground (arith, elem_self-others i ts)

unique-others :
    (i : ActionId) (ts : List ActionTombstone)
    → unique (ids ts) ≡ true
    → unique (ids (others ts i)) ≡ true
unique-others i [] h = refl
unique-others i (t ∷ ts) h = ground (arith, unique-others i ts, elem-others i t.action_id ts)

unique_after :
    (a : ActionRecord) (l : ActionLifecycle) (ts : List ActionTombstone)
    → unique (ids ts) ≡ true
    → unique (ids (others ts (record_id a) ++ entry a l ∷ [])) ≡ true
unique_after a l ts h = rw map-append (
    unique-append_one (ids (others ts (record_id a))) (record_id a)
      (unique-others (record_id a) ts h) (elem_self-others (record_id a) ts))

pub length-somes_le : {A : Type 0} (os : List (Option A)) → length (somes os) ≤ length os
length-somes_le [] = omega arith
length-somes_le (none ∷ os) = omega (arith, length-somes_le os)
length-somes_le (some a ∷ os) = omega (arith, length-somes_le os)

length-map : {A B : Type 0} (f : A → B) (xs : List A) → length (map f xs) ≡ length xs
length-map f [] = omega arith
length-map f (x ∷ xs) = omega (arith, length-map f xs)

few_protected : (s : State) → length (map record_id (actions s)) ≤ action_tombstone_retention_limit
few_protected s =
    rw (length-map record_id (actions s)) (omega (arith, length-somes_le {A = ActionRecord} _))

-- What `_append_tombstone` returns of a state.
pub record Appended (s : State) (a : ActionRecord) (l : ActionLifecycle) (t : State) : Type 0 where
  -- Only the tombstones and the recovery units change, and the action's unit is cleared.
  pub frame :
      t ≡ record (clear_recovery_unit s (record_id a)) { action_tombstones = t.action_tombstones }
  pub bounded :
      Bounded
        (map record_id (actions s))
        (others s.action_tombstones (record_id a) ++ entry a l ∷ [])
        t.action_tombstones

-- Where the state's tombstones are distinct, the reducer can always record the end of an action: only
-- the tombstones and the action's recovery unit change, and at most 768 distinct tombstones remain,
-- with those of every action of the state among them in their order.
pub append_tombstone_total :
    (s : State) (a : ActionRecord) (l : ActionLifecycle)
    → unique (ids s.action_tombstones) ≡ true
    → (t : State) × (append_tombstone s a l ≡ ok t) × Appended s a l t
unfolding append_tombstone
append_tombstone_total s a l h =
    let (r, e, b) =
      bound_action_tombstones_total (others s.action_tombstones (record_id a) ++ entry a l ∷ [])
        (map record_id (actions s)) (unique_after a l s.action_tombstones h) (few_protected s) in
    (
      record (clear_recovery_unit s (record_id a)) { action_tombstones = r },
      rw e refl,
      record { frame = refl; bounded = b },
    )
