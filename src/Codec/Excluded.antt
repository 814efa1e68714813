-- ===== src/Codec/Excluded.antt =====
-- What `_migration_recovery_state` of .local/lib/monitor-controller/monitor_controller/codec.py
-- keeps of the actions of a stored state.
use mathlib.Core.List.{map-append}
use desktop_config.Prelude.{
  ==-refl, Bool-cases, Eq, List, Option-cases, [], arith, elem, false, inl, inr, length, map, none,
  refl, some, true, unique, ◌++◌, ◌+◌, ◌==◌, ◌∙◌, ◌∷◌, ◌≡◌, ◌≤◌, ◌⊎◌,
}
use desktop_config.Codec.Migration.{Exclusions, cancelled, exclude, exclude_all, possibly_live}
use desktop_config.Invariants.Rules.{is_terminal}
use desktop_config.Model.Action.{ActionRecord, ActionTombstone, record_id}
use desktop_config.Model.Enums.{ActionLifecycle-discrete, action_lifecycle_eq}
use desktop_config.Model.Identity.{
  ActionId, ActionId-discrete, WorkerUnit, action_id_eq, worker_unit_eq,
}
use desktop_config.Retention.Bound.{ids}
use desktop_config.Retention.Sets.{elem-append, unique-append_one}

ActionTombstone-discrete : Discrete ActionTombstone
ActionTombstone-discrete = hlevel (ActionId-discrete, ActionLifecycle-discrete)

instance abbrev pub action_tombstone_eq : Eq ActionTombstone
unfolding ActionTombstone-discrete
action_tombstone_eq = record { dec = ActionTombstone-discrete }

tombstones-exclude :
    (x : Exclusions) (a : ActionRecord) (t : ActionTombstone)
    → elem t x.tombstones ≡ true
    → elem t (exclude x a).tombstones ≡ true
unfolding exclude
tombstones-exclude x a t h = ground (arith, elem-append t x.tombstones (cancelled a ∷ []))

units-exclude :
    (x : Exclusions) (a : ActionRecord) (u : WorkerUnit)
    → elem u x.units ≡ true
    → elem u (exclude x a).units ≡ true
unfolding exclude
units-exclude x a u h = elim (Option-cases (possibly_live a)) [
  | inl e ↦ ground arith
  | inr (v, e) ↦ ground (arith, elem-append u x.units (v ∷ []))
]

protected-exclude :
    (x : Exclusions) (a : ActionRecord) (i : ActionId)
    → elem i x.protected_ids ≡ true
    → elem i (exclude x a).protected_ids ≡ true
unfolding exclude
protected-exclude x a i h = ground (arith, elem-append i x.protected_ids (record_id a ∷ []))

-- One round accounts for its action.
exclude-live :
    (x : Exclusions) (a : ActionRecord) (u : WorkerUnit)
    → is_terminal a ≡ false
    → possibly_live a ≡ some u
    → elem u (exclude x a).units ≡ true
unfolding exclude
exclude-live x a u n e = rw (n, e) (ground (arith, elem-append u x.units (u ∷ []), ==-refl u))

exclude-dead :
    (x : Exclusions) (a : ActionRecord)
    → is_terminal a ≡ false
    → possibly_live a ≡ none
    → (elem (cancelled a) (exclude x a).tombstones ≡ true)
      × (elem (record_id a) (exclude x a).protected_ids ≡ true)
unfolding exclude
exclude-dead x a n e =
    rw (n, e)
      (
        ground (
          arith,
          elem-append (cancelled a) x.tombstones (cancelled a ∷ []),
          ==-refl (cancelled a),
        ),
        ground (
          arith,
          elem-append (record_id a) x.protected_ids (record_id a ∷ []),
          ==-refl (record_id a),
        ),
      )

length-append_one : {A : Type 0} (xs : List A) (y : A) → length (xs ++ y ∷ []) ≡ length xs + 1
length-append_one [] y = omega arith
length-append_one (x ∷ xs) y = omega (arith, length-append_one xs y)

length-protected_one :
    (x : Exclusions) (a : ActionRecord)
    → length (exclude x a).protected_ids ≤ length x.protected_ids + 1
unfolding exclude
length-protected_one x a = elim (Bool-cases (is_terminal a)) [
  | inl e ↦ rw e (omega arith)
  | inr e ↦ elim (Option-cases (possibly_live a)) [
    | inl n ↦ rw (e, n) (omega (arith, length-append_one x.protected_ids (record_id a)))
    | inr (v, n) ↦ elim (Bool-cases (elem v x.units)) [
      | inl k ↦ rw (e, n, k) (omega arith)
      | inr k ↦ rw (e, n, k) (omega arith)
    ]
  ]
]

-- The actions that are still to be looked at have distinct identities, and tombstones only if they
-- have ended.
abbrev pub Waiting : List ActionTombstone → List ActionRecord → Type 0
Waiting tombstones [] = Unit
Waiting tombstones (a ∷ rest) =
    (is_terminal a ≡ false → elem (record_id a) (ids tombstones) ≡ false)
    × (elem (record_id a) (map record_id rest) ≡ false)
    × Waiting tombstones rest

-- A round leaves the tombstones as they are, or adds the one of its action.
exclude-tombstones :
    (x : Exclusions) (a : ActionRecord)
    → ((exclude x a).tombstones ≡ x.tombstones)
      ⊎ ((is_terminal a ≡ false) × ((exclude x a).tombstones ≡ x.tombstones ++ cancelled a ∷ []))
unfolding exclude
exclude-tombstones x a = elim (Bool-cases (is_terminal a)) [
  | inl e ↦ rw e (inl refl)
  | inr e ↦ elim (Option-cases (possibly_live a)) [
    | inl n ↦ rw (e, n) (inr (refl, refl))
    | inr (v, n) ↦ elim (Bool-cases (elem v x.units)) [
      | inl k ↦ rw (e, n, k) (inl refl)
      | inr k ↦ rw (e, n, k) (inl refl)
    ]
  ]
]

exclude-unique :
    (x : Exclusions) (a : ActionRecord) (rest : List ActionRecord)
    → unique (ids x.tombstones) ≡ true
    → Waiting x.tombstones (a ∷ rest)
    → unique (ids (exclude x a).tombstones) ≡ true
exclude-unique x a rest u w = elim (exclude-tombstones x a) [
  | inl e ↦ rw e u
  | inr (n, e) ↦ rw (e, map-append) (unique-append_one (ids x.tombstones) (record_id a) u (w.0 n))
]

elem-exclude :
    (x : Exclusions) (a : ActionRecord) (i : ActionId)
    → (record_id a == i) ≡ false
    → elem i (ids x.tombstones) ≡ false
    → elem i (ids (exclude x a).tombstones) ≡ false
elem-exclude x a i n h = elim (exclude-tombstones x a) [
  | inl e ↦ rw e h
  | inr (t, e) ↦
      rw (e, map-append) (elem-append i (ids x.tombstones) (record_id a ∷ []) ∙ rw (h, n) refl)
]

-- The head of a sequence that an identity is not in.
not-elem-head :
    (i j : ActionId) (js : List ActionId)
    → elem i (j ∷ js) ≡ false
    → ((i == j) ≡ false) × (elem i js ≡ false)
not-elem-head i j js h = ground arith

exclude-Waiting :
    (x : Exclusions) (a : ActionRecord) (rest : List ActionRecord)
    → Waiting x.tombstones rest
    → elem (record_id a) (map record_id rest) ≡ false
    → Waiting (exclude x a).tombstones rest
exclude-Waiting x a [] w n = tt
exclude-Waiting x a (b ∷ rest) w n =
    let (apart, later) = not-elem-head (record_id a) (record_id b) (map record_id rest) n in
    (λ t. elem-exclude x a (record_id b) apart (w.0 t), w.1, exclude-Waiting x a rest w.2 later)

-- What the loop keeps of what it has.
pub record Keeps (x y : Exclusions) : Type 0 where
  pub tombstones : (t : ActionTombstone) → elem t x.tombstones ≡ true → elem t y.tombstones ≡ true
  pub protected_ids : (i : ActionId) → elem i x.protected_ids ≡ true → elem i y.protected_ids ≡ true
  pub units : (u : WorkerUnit) → elem u x.units ≡ true → elem u y.units ≡ true

pub exclude_all-Keeps :
    (x : Exclusions) (actions : List ActionRecord) → Keeps x (exclude_all x actions)
unfolding exclude_all
exclude_all-Keeps x [] = record {
  tombstones = λ t h. h;
  protected_ids = λ i h. h;
  units = λ u h. h;
}
exclude_all-Keeps x (a ∷ rest) =
    let k = exclude_all-Keeps (exclude x a) rest in
    record {
      tombstones = λ t h. k.tombstones t (tombstones-exclude x a t h);
      protected_ids = λ i h. k.protected_ids i (protected-exclude x a i h);
      units = λ u h. k.units u (units-exclude x a u h);
    }

pub exclude_all-unique :
    (x : Exclusions) (actions : List ActionRecord)
    → unique (ids x.tombstones) ≡ true
    → Waiting x.tombstones actions
    → unique (ids (exclude_all x actions).tombstones) ≡ true
unfolding exclude_all
exclude_all-unique x [] u w = u
exclude_all-unique x (a ∷ rest) u w =
    exclude_all-unique (exclude x a) rest (exclude-unique x a rest u w)
      (exclude-Waiting x a rest w.2 w.1)

pub length-protected :
    (x : Exclusions) (actions : List ActionRecord)
    → length (exclude_all x actions).protected_ids ≤ length x.protected_ids + length actions
unfolding exclude_all
length-protected x [] = omega arith
length-protected x (a ∷ rest) =
    omega (arith, length-protected (exclude x a) rest, length-protected_one x a)

-- What is recorded of every action of a sequence.
abbrev pub All : (ActionRecord → Type 0) → List ActionRecord → Type 0
All P [] = Unit
All P (a ∷ rest) = P a × All P rest

-- An action is accounted for before the tombstones are bounded.
pub record Recorded (y : Exclusions) (action : ActionRecord) : Type 0 where
  pub live :
      (unit : WorkerUnit)
      → is_terminal action ≡ false
      → possibly_live action ≡ some unit
      → elem unit y.units ≡ true
  pub dead :
      is_terminal action ≡ false
      → possibly_live action ≡ none
      → (elem (cancelled action) y.tombstones ≡ true)
        × (elem (record_id action) y.protected_ids ≡ true)

pub exclude_all-Recorded :
    (x : Exclusions) (actions : List ActionRecord) → All (Recorded (exclude_all x actions)) actions
unfolding exclude_all
exclude_all-Recorded x [] = tt
exclude_all-Recorded x (a ∷ rest) =
    let k = exclude_all-Keeps (exclude x a) rest in
    (
      record {
        live = λ u n e. k.units u (exclude-live x a u n e);
        dead = λ n e. (
          k.tombstones (cancelled a) (exclude-dead x a n e).0,
          k.protected_ids (record_id a) (exclude-dead x a n e).1,
        );
      },
      exclude_all-Recorded (exclude x a) rest,
    )
