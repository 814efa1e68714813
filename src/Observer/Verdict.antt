-- ===== src/Observer/Verdict.antt =====
-- What `unique_bijection` of .local/lib/monitor-controller/monitor_controller/observer/mapping.py
-- returns or raises, by the number of bijections that there are.
use mathlib.Core.List.{Perm}
use mathlib.Core.List.Perm
use desktop_config.Prelude.{
  ==-refl, Bool-cases, List, String, [], ambiguous_bijection, arith, elem, err, inl, inr, list_eq,
  none, ok, refl, some, string_eq, true, unique, ◌↔◌, ◌∷◌, ◌≡◌, ◌≢◌,
}
use desktop_config.Model.Identity.{output_mapping_eq}
use desktop_config.Observer.Bijection.{
  Candidates, Mapping, comes_first, ordered, place, sole_solution, unique_bijection,
}
use desktop_config.Observer.Enumerated.{first_two, search_outputs_lem}
use desktop_config.Observer.Sole.{
  IsBijection, IsBijection-found, IsDistinct, found, found-IsBijection, unique-completions,
}

unfoldable pub Sole : (Mapping → Type 0) → Mapping → Type 0
Sole P m = P m × ((other : Mapping) → P other → other ≡ m)

pub Several : (Mapping → Type 0) → Type 0
Several P = (m : Mapping) × (other : Mapping) × P m × P other × (m ≢ other)

Sole-found :
    (P : Mapping → Type 0) (xs : List Mapping)
    → unique xs ≡ true
    → ((m : Mapping) → elem m xs ≡ true → P m)
    → ((m : Mapping) → P m → elem m xs ≡ true)
    → (m : Mapping) → (sole_solution (first_two xs) ≡ ok (some m)) ↔ Sole P m
unfolding sole_solution first_two Sole
Sole-found P [] u sound complete m = (λ h. absurd (cc), λ (h, _). absurd (cc (complete m h)))
Sole-found P (x ∷ []) u sound complete m = (
  λ h.
      let e : x ≡ m = cc in
      rw (← e) (sound x (ground (arith, ==-refl x)), λ other p. ground (arith, complete other p)),
  λ (h, only). ground (arith, complete m h),
)
Sole-found P (x ∷ y ∷ zs) u sound complete m = (
  λ h. absurd (cc),
  λ (h, only). absurd (
      ground (
        arith,
        only x (sound x (ground (arith, ==-refl x))),
        only y (sound y (ground (arith, ==-refl y))),
      )),
)

none-found :
    (P : Mapping → Type 0) (xs : List Mapping)
    → ((m : Mapping) → elem m xs ≡ true → P m)
    → ((m : Mapping) → P m → elem m xs ≡ true)
    → (sole_solution (first_two xs) ≡ ok none) ↔ ((m : Mapping) → ¬ P m)
unfolding sole_solution first_two
none-found P [] sound complete = (λ h m p. cc (complete m p), λ h. refl)
none-found P (x ∷ []) sound complete =
    (λ h. absurd (cc), λ none. absurd (none x (sound x (ground (arith, ==-refl x)))))
none-found P (x ∷ y ∷ zs) sound complete =
    (λ h. absurd (cc), λ none. absurd (none x (sound x (ground (arith, ==-refl x)))))

several-found :
    (P : Mapping → Type 0) (xs : List Mapping)
    → unique xs ≡ true
    → ((m : Mapping) → elem m xs ≡ true → P m)
    → ((m : Mapping) → P m → elem m xs ≡ true)
    → (sole_solution (first_two xs) ≡ err ambiguous_bijection) ↔ Several P
unfolding sole_solution first_two Several
several-found P [] u sound complete =
    (λ h. absurd (cc), λ (m, other, p, q, n). absurd (cc (complete m p)))
several-found P (x ∷ []) u sound complete = (
  λ h. absurd (cc),
  λ (m, other, p, q, n). absurd (ground (arith, complete m p, complete other q)),
)
several-found P (x ∷ y ∷ zs) u sound complete = (
  λ h. (
    x,
    y,
    sound x (ground (arith, ==-refl x)),
    sound y (ground (arith, ==-refl y)),
    λ (e : x ≡ y). ground arith,
  ),
  λ h. refl,
)

place-IsDistinct :
    (c : Candidates) (cs : List Candidates)
    → unique c.live_outputs ≡ true
    → IsDistinct cs
    → IsDistinct (place c cs)
unfolding place
place-IsDistinct c [] u d = (u, tt)
place-IsDistinct c (e ∷ es) u d = elim (Bool-cases (comes_first c e)) [
  | inl h ↦ rw h (u, d)
  | inr h ↦ rw h (d.0, place-IsDistinct c es u d.1)
]

ordered-IsDistinct : (cs : List Candidates) → IsDistinct cs → IsDistinct (ordered cs)
unfolding ordered
ordered-IsDistinct [] d = tt
ordered-IsDistinct (c ∷ cs) d = place-IsDistinct c (ordered cs) d.0 (ordered-IsDistinct cs d.1)

module _ (candidates : List Candidates) (required : List String)
    (distinct : IsDistinct candidates) where
  -- Where no candidate lists a live output twice, the search gives the one bijection exactly when
  -- there is one and no other, gives nothing exactly when there is none, and reports ambiguity
  -- exactly when there are two different ones.
  pub unique_bijection-decides :
      ((m : Mapping)
        → (unique_bijection candidates required ≡ ok (some m))
          ↔ Sole (IsBijection candidates required) m)
      × ((unique_bijection candidates required ≡ ok none)
          ↔ ((m : Mapping) → ¬ IsBijection candidates required m))
      × ((unique_bijection candidates required ≡ err ambiguous_bijection)
          ↔ Several (IsBijection candidates required))
  unfolding unique_bijection found
  unique_bijection-decides =
      let all = found candidates required in
      let u =
        unique-completions required (ordered candidates) []
          (ordered-IsDistinct candidates distinct) in
      let sound = found-IsBijection candidates required in
      let complete = IsBijection-found candidates required in
      rw (search_outputs_lem required (ordered candidates)) (
        Sole-found (IsBijection candidates required) all u sound complete,
        none-found (IsBijection candidates required) all sound complete,
        several-found (IsBijection candidates required) all u sound complete,
      )

-- The search order has the same candidates.
place-Perm : (c : Candidates) (cs : List Candidates) → Perm (place c cs) (c ∷ cs)
unfolding place
place-Perm c [] = Perm.refl _
place-Perm c (d ∷ ds) = elim (Bool-cases (comes_first c d)) [
  | inl h ↦ rw h (Perm.refl _)
  | inr h ↦ rw h (Perm.trans (Perm.cons d (place-Perm c ds)) (Perm.swap c d ds))
]

pub ordered-Perm : (cs : List Candidates) → Perm (ordered cs) cs
unfolding ordered
ordered-Perm [] = Perm.refl []
ordered-Perm (c ∷ cs) = Perm.trans (place-Perm c (ordered cs)) (Perm.cons c (ordered-Perm cs))
