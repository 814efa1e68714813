-- ===== src/Codec/Recovered.antt =====
-- The recovery of a stored state of an older schema, `_migration_recovery_state` of
-- .local/lib/monitor-controller/monitor_controller/codec.py, gives up no exclusion.
use desktop_config.Prelude.{
  >>-left, >>-right, Bool, Bool-cases, List, Option-cases, String, [], arith, elem, err, false,
  find, inl, inr, keep, length, map, none, ok, refl, some, true, unique, value_error, ◌==◌, ◌∷◌,
  ◌≡◌, ◌≤◌, ◌⊎◌,
}
use desktop_config.Codec.Accepted.{six_checks, validate_state-Valid}
use desktop_config.Codec.Excluded.{
  All, Recorded, Waiting, action_tombstone_eq, exclude_all-Keeps, exclude_all-Recorded,
  exclude_all-unique, length-protected,
}
use desktop_config.Codec.Migration.{
  Exclusions, cancelled, exclude_all, migration_recovery_state, possibly_live, revoke, revoked,
  validate_desktop_finalization_requirement,
}
use desktop_config.Codec.Validation.{validate_state}
use desktop_config.Invariants.Identities.{check_action_identities, check_tombstone, tombstone_for}
use desktop_config.Invariants.Rules.{actions, each, is_terminal, require}
use desktop_config.Model.Action.{ActionRecord, ActionTombstone, record_id}
use desktop_config.Model.Enums.{ControllerPhase, action_lifecycle_eq}
use desktop_config.Model.Identity.{ActionId, WorkerUnit, action_id_eq, worker_unit_eq}
use desktop_config.Model.State.{State}
use desktop_config.Reducer.Tombstones.{action_tombstone_retention_limit}
use desktop_config.Retention.Append.{length-somes_le}
use desktop_config.Retention.Bound.{Bounded, bound_action_tombstones_total, ids, is_protected}
use desktop_config.Safety.Rules.{split_checks}

-- What is kept of an action: the unit of a worker that may be alive, and the tombstone of an action
-- that is given up; one that has ended has its tombstone already.
pub record Accounted (tombstones : List ActionTombstone) (units : List WorkerUnit)
    (action : ActionRecord) : Type 0 where
  pub live :
      (unit : WorkerUnit)
      → is_terminal action ≡ false
      → possibly_live action ≡ some unit
      → elem unit units ≡ true
  pub dead :
      is_terminal action ≡ false
      → possibly_live action ≡ none
      → elem (cancelled action) tombstones ≡ true

untombed :
    (i : ActionId) (ts : List ActionTombstone)
    → find (λ (t : ActionTombstone). t.action_id == i) ts ≡ none
    → elem i (ids ts) ≡ false
untombed i [] h = refl
untombed i (t ∷ ts) h = ground (arith, untombed i ts)

first_apart : (i : ActionId) (js : List ActionId) → unique (i ∷ js) ≡ true → elem i js ≡ false
first_apart i js u = ground arith

module _ (s : State) where
  checked_tombstone :
      (a : ActionRecord)
      → check_tombstone s a ≡ ok tt
      → is_terminal a ≡ false
      → elem (record_id a) (ids s.action_tombstones) ≡ false
  unfolding check_tombstone
  checked_tombstone a h n = elim (Option-cases (tombstone_for s (record_id a))) [
    | inl e ↦ untombed (record_id a) s.action_tombstones e
    | inr (t, e) ↦ absurd (let q = rw (e, n) at h in cc)
  ]

  Waiting-of :
      (rest : List ActionRecord)
      → each (check_tombstone s) rest ≡ ok tt
      → unique (map record_id rest) ≡ true
      → Waiting s.action_tombstones rest
  Waiting-of [] h u = tt
  Waiting-of (a ∷ rest) h u = (
    checked_tombstone a (>>-left (check_tombstone s a) _ h),
    first_apart (record_id a) (map record_id rest) u,
    Waiting-of rest (>>-right (check_tombstone s a) _ h) (ground arith),
  )

-- A protected tombstone is among those that the bounding keeps.
elem-keep :
    (p : List ActionId) (t : ActionTombstone) (ts : List ActionTombstone)
    → elem t.action_id p ≡ true
    → elem t ts ≡ true
    → elem t (keep (is_protected p) ts) ≡ true
elem-keep p t [] m h = h
elem-keep p t (u ∷ us) m h = ground (arith, elem-keep p t us)

elem_of-keep :
    (p : List ActionId) (t : ActionTombstone) (ts : List ActionTombstone)
    → elem t (keep (is_protected p) ts) ≡ true
    → elem t ts ≡ true
elem_of-keep p t [] h = h
elem_of-keep p t (u ∷ us) h = ground (arith, elem_of-keep p t us)

protected-kept :
    (p : List ActionId) (ts r : List ActionTombstone) (t : ActionTombstone)
    → Bounded p ts r
    → elem t.action_id p ≡ true
    → elem t ts ≡ true
    → elem t r ≡ true
protected-kept p ts r t b m h = elem_of-keep p t r (rw b.protected_kept (elem-keep p t ts m h))

Accounted-of :
    (y : Exclusions) (r : List ActionTombstone) (rest : List ActionRecord)
    → Bounded y.protected_ids y.tombstones r
    → All (Recorded y) rest
    → All (Accounted r y.units) rest
Accounted-of y r [] b h = tt
Accounted-of y r (a ∷ rest) b h = (
  record {
    live = h.0.live;
    dead = λ n e.
        protected-kept y.protected_ids y.tombstones r (cancelled a) b (h.0.dead n e).1
          (h.0.dead n e).0;
  },
  Accounted-of y r rest b h.1,
)

-- What the recovery makes of a state.
pub record Recovered (s r : State) : Type 0 where
  pub no_actions : actions r ≡ []
  pub recovering : r.phase ≡ ControllerPhase.recovering
  pub accounted : All (Accounted r.action_tombstones r.recovery_units) (actions s)
  pub units_kept :
      (u : WorkerUnit) → elem u s.recovery_units ≡ true → elem u r.recovery_units ≡ true
  pub tombstones_bounded : length r.action_tombstones ≤ action_tombstone_retention_limit
  pub tombstones_distinct : unique (ids r.action_tombstones) ≡ true

few_actions : (s : State) → length (actions s) ≤ 5
few_actions s = omega (arith, length-somes_le {A = ActionRecord} _)

require-ok : (b : Bool) (message : String) → require b message ≡ ok tt → b ≡ true
require-ok true message h = refl
require-ok false message h = absurd (cc)

identities_checked :
    (s : State)
    → check_action_identities s ≡ ok tt
    → (unique (map record_id (actions s)) ≡ true)
      × (unique (ids s.action_tombstones) ≡ true)
      × (each (check_tombstone s) (actions s) ≡ ok tt)
unfolding check_action_identities
identities_checked s h =
    let (a, b, c, d, e, f) = six_checks _ _ _ _ _ _ h in (require-ok _ _ a, require-ok _ _ c, e)

-- The check of `State.__post_init__` on the required finalization, which every state has passed.
unfoldable pub IsConstructed : State → Type 0
IsConstructed s =
    validate_desktop_finalization_requirement s.desktop_finalization_required
      s.desktop_finalized_profile s.baseline_adoption
    ≡ ok tt

-- The construction of the recovered state lets a state pass exactly when no finalization is required.
revoke-ok :
    (s : State) (retained : List ActionTombstone) (units : List WorkerUnit)
    → s.desktop_finalization_required ≡ false
    → revoke s retained units ≡ ok (revoked s retained units)
unfolding revoke validate_desktop_finalization_requirement
revoke-ok s retained units h = ground arith

revoke-err :
    (s : State) (retained : List ActionTombstone) (units : List WorkerUnit)
    → IsConstructed s
    → s.desktop_finalization_required ≡ true
    → revoke s retained units
      ≡ err (value_error "required desktop finalization forbids baseline adoption")
unfolding revoke validate_desktop_finalization_requirement IsConstructed
revoke-err s retained units c h = ground arith

-- The recovery of a state that the validation lets pass has exactly two ends. Where no finalization of
-- the desktop is required, it returns: it takes every action away, but keeps the unit of each worker
-- that may still be alive, beside the units already kept, and the cancelled tombstone of each other
-- action that has not ended; the tombstones stay distinct and at most 768. Where a finalization is
-- required, it always raises, since the recovered state would adopt a baseline besides.
pub migration_recovery_state-Recovered :
    (s : State)
    → validate_state s ≡ ok tt
    → IsConstructed s
    → ((s.desktop_finalization_required ≡ false)
        × ((r : State) × (migration_recovery_state s ≡ ok r) × Recovered s r))
      ⊎ ((s.desktop_finalization_required ≡ true)
          × (migration_recovery_state s
              ≡ err (value_error "required desktop finalization forbids baseline adoption")))
unfolding migration_recovery_state
migration_recovery_state-Recovered s v c =
    let (unique_ids, unique_tombs, checked) =
      identities_checked s (split_checks s (validate_state-Valid s v).invariants).identities in
    let x : Exclusions = record {
      tombstones = s.action_tombstones;
      protected_ids = [];
      units = s.recovery_units;
    } in
    let y = exclude_all x (actions s) in
    let (r, e, b) =
      bound_action_tombstones_total y.tombstones y.protected_ids
        (exclude_all-unique x (actions s) unique_tombs
          (Waiting-of s (actions s) checked unique_ids))
        (omega (arith, length-protected x (actions s), few_actions s)) in
    elim (Bool-cases s.desktop_finalization_required) [
      | inl h ↦ inr (h, rw e (revoke-err s r y.units c h))
      | inr h ↦ inl (
        h,
        (
          revoked s r y.units,
          rw e (revoke-ok s r y.units h),
          record {
            no_actions = refl;
            recovering = refl;
            accounted = Accounted-of y r (actions s) b (exclude_all-Recorded x (actions s));
            units_kept = (exclude_all-Keeps x (actions s)).units;
            tombstones_bounded = b.short;
            tombstones_distinct = b.still_unique;
          },
        ),
      )
    ]
