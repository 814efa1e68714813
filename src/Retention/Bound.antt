-- ===== src/Retention/Bound.antt =====
-- `bound_action_tombstones` never raises as the reducer calls it, and forgets nothing that is
-- protected.
use desktop_config.Prelude.{
  Bool, Bool-cases, List, [], arith, elem, false, inl, inr, keep, leb, leb→le, length, map, ok,
  refl, subset, suc, true, unique, zero, ℕ, ℕ_discrete, ◌+◌, ◌-◌, ◌<◌, ◌∷◌, ◌≡◌, ◌≢◌, ◌≤◌,
}
use desktop_config.Model.Action.{ActionTombstone}
use desktop_config.Model.Identity.{ActionId, action_id_eq}
use desktop_config.Reducer.Tombstones.{
  action_tombstone_retention_limit, bound_action_tombstones, drop_excess,
}
use desktop_config.Retention.Sets.{length-le_of_subset}

abbrev pub ids : List ActionTombstone → List ActionId
ids = map (λ (t : ActionTombstone). t.action_id)

abbrev pub is_protected : List ActionId → ActionTombstone → Bool
is_protected p t = elem t.action_id p

module _ (p : List ActionId) where
  -- Each dropped entry is one of the excess.
  length-drop_excess :
      (n : ℕ) (ts : List ActionTombstone)
      → length (drop_excess p n ts).0 + n ≡ length ts + (drop_excess p n ts).1
  unfolding drop_excess
  length-drop_excess n [] = omega arith
  length-drop_excess zero (t ∷ ts) = ground (arith, length-drop_excess zero ts)
  length-drop_excess (suc n) (t ∷ ts) =
      ground (arith, length-drop_excess n ts, length-drop_excess (suc n) ts)

  protected-drop_excess :
      (n : ℕ) (ts : List ActionTombstone)
      → keep (is_protected p) (drop_excess p n ts).0 ≡ keep (is_protected p) ts
  unfolding drop_excess
  protected-drop_excess n [] = refl
  protected-drop_excess zero (t ∷ ts) = ground (arith, protected-drop_excess zero ts)
  protected-drop_excess (suc n) (t ∷ ts) =
      ground (arith, protected-drop_excess n ts, protected-drop_excess (suc n) ts)

  -- What excess is left over shows that everything retained is protected.
  subset-drop_excess :
      (n : ℕ) (ts : List ActionTombstone)
      → (drop_excess p n ts).1 ≢ 0
      → subset (ids (drop_excess p n ts).0) p ≡ true
  unfolding drop_excess ℕ_discrete
  subset-drop_excess n [] h = refl
  subset-drop_excess zero (t ∷ ts) h = absurd (h (none_left ts))
    where
      none_left : (ts : List ActionTombstone) → (drop_excess p zero ts).1 ≡ 0
      none_left [] = refl
      none_left (t ∷ ts) = ground (arith, none_left ts)
  subset-drop_excess (suc n) (t ∷ ts) h =
      ground (arith, subset-drop_excess n ts, subset-drop_excess (suc n) ts)

  -- Dropping entries repeats none.
  elem-drop_excess :
      (i : ActionId) (n : ℕ) (ts : List ActionTombstone)
      → elem i (ids ts) ≡ false
      → elem i (ids (drop_excess p n ts).0) ≡ false
  unfolding drop_excess
  elem-drop_excess i n [] h = refl
  elem-drop_excess i zero (t ∷ ts) h = ground (arith, elem-drop_excess i zero ts)
  elem-drop_excess i (suc n) (t ∷ ts) h =
      ground (arith, elem-drop_excess i n ts, elem-drop_excess i (suc n) ts)

  unique-drop_excess :
      (n : ℕ) (ts : List ActionTombstone)
      → unique (ids ts) ≡ true
      → unique (ids (drop_excess p n ts).0) ≡ true
  unfolding drop_excess
  unique-drop_excess n [] h = refl
  unique-drop_excess zero (t ∷ ts) h =
      ground (arith, unique-drop_excess zero ts, elem-drop_excess t.action_id zero ts)
  unique-drop_excess (suc n) (t ∷ ts) h = ground (
    arith,
    unique-drop_excess n ts,
    unique-drop_excess (suc n) ts,
    elem-drop_excess t.action_id (suc n) ts,
  )

length-ids : (ts : List ActionTombstone) → length (ids ts) ≡ length ts
length-ids [] = omega arith
length-ids (t ∷ ts) = omega (arith, length-ids ts)

-- The excess over the limit is dropped to the last, when no more than the limit are protected.
nothing_left :
    (p : List ActionId) (ts : List ActionTombstone)
    → unique (ids ts) ≡ true
    → length p ≤ action_tombstone_retention_limit
    → action_tombstone_retention_limit < length ts
    → (drop_excess p (length ts - action_tombstone_retention_limit) ts).1 ≡ 0
nothing_left p ts u h k = elim (ℕ_discrete left 0) [
  | yes e ↦ e
  | no n ↦ absurd (
      omega (
        arith,
        length-drop_excess p excess ts,
        length-ids retained,
        length-le_of_subset (ids retained) p (unique-drop_excess p excess ts u)
            (subset-drop_excess p excess ts n),
        left_pos left n,
      ))
]
  where
    excess : ℕ
    excess = length ts - action_tombstone_retention_limit

    retained : List ActionTombstone
    retained = (drop_excess p excess ts).0

    left : ℕ
    left = (drop_excess p excess ts).1

    left_pos : (n : ℕ) → n ≢ 0 → 0 < n
    left_pos n h = omega arith

-- What a bounded sequence of tombstones keeps of the given one.
pub record Bounded (p : List ActionId) (ts r : List ActionTombstone) : Type 0 where
  pub short : length r ≤ action_tombstone_retention_limit
  pub protected_kept : keep (is_protected p) r ≡ keep (is_protected p) ts
  pub still_unique : unique (ids r) ≡ true

-- With distinct tombstones and at most as many protected actions as the limit, the bounding never
-- raises: it returns at most 768 distinct tombstones, with every protected one among them in its
-- order.
pub bound_action_tombstones_total :
    (ts : List ActionTombstone) (p : List ActionId)
    → unique (ids ts) ≡ true
    → length p ≤ action_tombstone_retention_limit
    → (r : List ActionTombstone) × (bound_action_tombstones ts p ≡ ok r) × Bounded p ts r
unfolding bound_action_tombstones ℕ_discrete
bound_action_tombstones_total ts p u h =
    elim (Bool-cases (leb (length ts) action_tombstone_retention_limit)) [
      | inl e ↦ (ts, rw e, record { short = leb→le _ _ e; protected_kept = refl; still_unique = u })
      | inr e ↦ (
        (drop_excess p (length ts - action_tombstone_retention_limit) ts).0,
        rw e (rw (nothing_left p ts u h (ground arith)) refl),
        record {
          short = omega (
            arith,
            nothing_left p ts u h (ground arith),
            length-drop_excess p (length ts - action_tombstone_retention_limit) ts,
          );
          protected_kept =
              protected-drop_excess p (length ts - action_tombstone_retention_limit) ts;
          still_unique = unique-drop_excess p (length ts - action_tombstone_retention_limit) ts u;
        },
      )
    ]
