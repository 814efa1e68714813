-- ===== src/Observer/Enumerated.antt =====
-- `unique_bijection` of .local/lib/monitor-controller/monitor_controller/observer/mapping.py
-- against the plain enumeration of all complete mappings, without a cap.
use mathlib.Core.List.{append_assoc, append-nil, map-append, map-id}
use desktop_config.Prelude.{
  Bool-cases, List, String, [], ap, elem, false, if◌then◌else◌, inl, inr, leb, length, map, refl,
  same_set, string_eq, true, ◌++◌, ◌∙◌, ◌∷◌, ◌≡◌,
}
use desktop_config.Model.Identity.{OutputMapping}
use desktop_config.Observer.Bijection.{Candidates, Mapping, search_outputs, try_outputs}

-- Every way to give the live outputs of one saved output; `next` enumerates the later ones.
unfoldable pub choices :
    (List String → List Mapping) → String → List String → List String → List Mapping
choices next saved [] used = []
choices next saved (live ∷ lives) used =
    (if elem live used
      then []
      else map (λ (m : Mapping). record { saved_output = saved; live_output = live } ∷ m)
          (next (used ++ live ∷ [])))
    ++ choices next saved lives used

-- The ways to complete a mapping whose live outputs so far are `used`.
unfoldable pub completions : List String → List Candidates → List String → List Mapping
unfolding choices
completions required [] used = if same_set used required then [] ∷ [] else []
completions required (c ∷ cs) used =
    choices (completions required cs) c.saved_output c.live_outputs used

module _ {A : Type 0} where
  unfoldable pub first_two : List A → List A
  first_two [] = []
  first_two (x ∷ []) = x ∷ []
  first_two (x ∷ y ∷ zs) = x ∷ y ∷ []

  first_two-full :
      (xs ys : List A) → leb 2 (length (first_two xs)) ≡ true → first_two xs ≡ first_two (xs ++ ys)
  unfolding first_two
  first_two-full [] ys h = cc
  first_two-full (x ∷ []) ys h = cc
  first_two-full (x ∷ y ∷ zs) ys h = refl

  first_two-short :
      (xs : List A) (y : A)
      → leb 2 (length (first_two xs)) ≡ false
      → first_two xs ++ y ∷ [] ≡ first_two (xs ++ y ∷ [])
  unfolding first_two
  first_two-short [] y h = refl
  first_two-short (x ∷ []) y h = refl
  first_two-short (x ∷ z ∷ zs) y h = cc

-- The mappings that continue `m`.
abbrev continue : Mapping → List Mapping → List Mapping
continue m = map (λ (tail : Mapping). m ++ tail)

continue-map :
    (m : Mapping) (p : OutputMapping) (tails : List Mapping)
    → continue (m ++ p ∷ []) tails ≡ continue m (map (λ (t : Mapping). p ∷ t) tails)
continue-map m p [] = refl
continue-map m p (t ∷ ts) = simp (append_assoc, continue-map m p ts)

-- What a search that starts with two solutions at most has found.
Finds :
    (List String → Mapping → List Mapping → List Mapping) → (List String → List Mapping) → Type 0
Finds next plain =
    (used : List String) (m : Mapping) (found : List Mapping)
    → next used m (first_two found) ≡ first_two (found ++ continue m (plain used))

module _ (next : List String → Mapping → List Mapping → List Mapping)
    (plain : List String → List Mapping) (finds : Finds next plain) (saved : String) where
  next-Finds :
      (live : String) (used : List String) (m : Mapping) (found : List Mapping)
      → next
          (used ++ live ∷ [])
          (m ++ record { saved_output = saved; live_output = live } ∷ [])
          (first_two found)
        ≡ first_two (
            found
            ++ continue m (
                map
                  (λ (t : Mapping). record { saved_output = saved; live_output = live } ∷ t)
                  (plain (used ++ live ∷ []))))
  unfolding Finds
  next-Finds live used m found =
      rw
        (← (
          continue-map m (record { saved_output = saved; live_output = live })
            (plain (used ++ live ∷ []))))
        (finds (used ++ live ∷ []) _ found)

  try_outputs-Finds :
      (lives used : List String) (m : Mapping) (found : List Mapping)
      → try_outputs next saved lives used m (first_two found)
        ≡ first_two (found ++ continue m (choices plain saved lives used))
  unfolding try_outputs choices
  try_outputs-Finds [] used m found = rw (append-nil found) refl
  try_outputs-Finds (live ∷ lives) used m found = elim (Bool-cases (elem live used)) [
    | inl h ↦ rw h (try_outputs-Finds lives used m found)
    | inr h ↦
        rw (h, next-Finds live used m found)
          (try_outputs-Finds lives used m _ ∙ ap first_two (simp (map-append, append_assoc)))
  ]

-- Where two solutions are known, the search adds nothing, and nor does what it would have found.
search_outputs-Finds :
    (required : List String) (cs : List Candidates)
    → Finds (search_outputs required cs) (completions required cs)
unfolding Finds search_outputs completions
search_outputs-Finds required [] used m found =
    elim (Bool-cases (leb 2 (length (first_two found)))) [
      | inl full ↦ rw full (first_two-full found _ full)
      | inr short ↦ elim (Bool-cases (same_set used required)) [
        | inl h ↦ rw (short, h) (rw (append-nil m) (first_two-short found m short))
        | inr h ↦ rw (short, h) (rw (append-nil found) refl)
      ]
    ]
search_outputs-Finds required (c ∷ cs) used m found =
    elim (Bool-cases (leb 2 (length (first_two found)))) [
      | inl full ↦ rw full (first_two-full found _ full)
      | inr short ↦ rw short (
          try_outputs-Finds (search_outputs required cs) (completions required cs)
            (search_outputs-Finds required cs) c.saved_output c.live_outputs used m found)
    ]

-- The capped search finds the first two complete mappings, if there are as many.
pub search_outputs_lem :
    (required : List String) (cs : List Candidates)
    → search_outputs required cs [] [] [] ≡ first_two (completions required cs [])
unfolding Finds first_two
search_outputs_lem required cs = search_outputs-Finds required cs [] [] [] ∙ ap first_two (map-id _)
