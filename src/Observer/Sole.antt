-- ===== src/Observer/Sole.antt =====
-- What `unique_bijection` of .local/lib/monitor-controller/monitor_controller/observer/mapping.py
-- means: the one bijection, none, or several.
use mathlib.Core.List.{append_assoc, append-nil}
use desktop_config.Prelude.{
  &&-right, Bool, Bool-cases, List, String, [], arith, elem, false, if◌then◌else◌, inl, inr,
  list_eq, map, not, refl, same_set, string_eq, subst, sym, true, unique, ◌&&◌, ◌++◌, ◌==◌, ◌∙◌,
  ◌∷◌, ◌≡◌,
}
use desktop_config.Model.Identity.{OutputMapping, output_mapping_eq}
use desktop_config.Observer.Bijection.{Candidates, Mapping, ordered}
use desktop_config.Observer.Enumerated.{choices, completions}
use desktop_config.Retention.Sets.{
  elem-append, unique-append, unique-append_apart, unique-append_one,
}

-- One entry for each candidate, in their order, with a live output that the candidate allows.
pub chosen_from : List Candidates → Mapping → Bool
chosen_from [] [] = true
chosen_from (c ∷ cs) (p ∷ m) =
    c.saved_output == p.saved_output && elem p.live_output c.live_outputs && chosen_from cs m
chosen_from [] (p ∷ m) = false
chosen_from (c ∷ cs) [] = false

abbrev pub lives_of : Mapping → List String
lives_of = map (λ (p : OutputMapping). p.live_output)

-- A bijection from the candidates, in the order in which they are searched, onto `required`.
pub record IsBijection (candidates : List Candidates) (required : List String) (m : Mapping)
    : Type 0 where
  pub chosen : chosen_from (ordered candidates) m ≡ true
  pub distinct : unique (lives_of m) ≡ true
  pub onto : same_set (lives_of m) required ≡ true

completes : List String → List Candidates → List String → Mapping → Bool
completes required [] used [] = same_set used required
completes required (c ∷ cs) used (p ∷ m) =
    c.saved_output == p.saved_output
    && (elem p.live_output c.live_outputs
        && (not (elem p.live_output used) && completes required cs (used ++ p.live_output ∷ []) m))
completes required [] used (p ∷ m) = false
completes required (c ∷ cs) used [] = false

elem-map_cons :
    (p q : OutputMapping) (m : Mapping) (ms : List Mapping)
    → elem (q ∷ m) (map (λ (t : Mapping). p ∷ t) ms) ≡ (p == q && elem m ms)
elem-map_cons p q m [] = ground arith
elem-map_cons p q m (t ∷ ts) = ground (arith, elem-map_cons p q m ts)

elem-map_cons_empty :
    (p : OutputMapping) (ms : List Mapping) → elem [] (map (λ (t : Mapping). p ∷ t) ms) ≡ false
elem-map_cons_empty p [] = refl
elem-map_cons_empty p (t ∷ ts) = ground (arith, elem-map_cons_empty p ts)

unique-map_cons :
    (p : OutputMapping) (ms : List Mapping) → unique (map (λ (t : Mapping). p ∷ t) ms) ≡ unique ms
unique-map_cons p [] = refl
unique-map_cons p (t ∷ ts) = ground (arith, unique-map_cons p ts, elem-map_cons p p t ts)

same_pair :
    (saved live : String) (q : OutputMapping)
    → (◌==◌ {A = OutputMapping} (record { saved_output = saved; live_output = live }) q)
      ≡ (saved == q.saved_output && live == q.live_output)
same_pair saved live q = ground arith

module _ (next : List String → List Mapping) (saved : String) (used : List String) where
  -- The mappings that go on from `live`.
  prefixed : String → List Mapping
  prefixed live =
      map (λ (t : Mapping). record { saved_output = saved; live_output = live } ∷ t)
        (next (used ++ live ∷ []))

  elem-prefixed :
      (live : String) (q : OutputMapping) (m : Mapping)
      → elem (q ∷ m) (prefixed live) ≡ (
          saved == q.saved_output
          && (live == q.live_output && elem m (next (used ++ q.live_output ∷ []))))
  unfolding prefixed
  elem-prefixed live q m = ground (
    arith,
    elem-map_cons (record { saved_output = saved; live_output = live }) q m
        (next (used ++ live ∷ [])),
    same_pair saved live q,
  )

  elem-prefixed_empty : (live : String) → elem [] (prefixed live) ≡ false
  unfolding prefixed
  elem-prefixed_empty live = elem-map_cons_empty _ _

  choices-step :
      (live : String) (ls : List String)
      → choices next saved (live ∷ ls) used
        ≡ (if elem live used then [] else prefixed live) ++ choices next saved ls used
  unfolding choices prefixed
  choices-step live ls = refl

  elem-choices :
      (q : OutputMapping) (m : Mapping) (ls : List String)
      → elem (q ∷ m) (choices next saved ls used) ≡ (
          saved == q.saved_output
          && (elem q.live_output ls
              && (not (elem q.live_output used) && elem m (next (used ++ q.live_output ∷ [])))))
  unfolding choices
  elem-choices q m [] = ground arith
  elem-choices q m (live ∷ ls) = rw (choices-step live ls) (
      elem-append (q ∷ m) (if elem live used then [] else prefixed live)
        (choices next saved ls used)
      ∙ ground (arith, elem-choices q m ls, elem-prefixed live q m))

  elem-choices_empty : (ls : List String) → elem [] (choices next saved ls used) ≡ false
  unfolding choices
  elem-choices_empty [] = refl
  elem-choices_empty (live ∷ ls) = elim (Bool-cases (elem live used)) [
    | inl h ↦ rw (choices-step live ls, h) (elem-choices_empty ls)
    | inr h ↦
        rw (choices-step live ls, h)
          (elem-append {A = Mapping} [] (prefixed live) (choices next saved ls used)
            ∙ ground (arith, elem-choices_empty ls, elem-prefixed_empty live))
  ]

  prefixed-apart :
      (live : String) (ls : List String) (m : Mapping)
      → elem live ls ≡ false
      → elem m (prefixed live) ≡ true
      → elem m (choices next saved ls used) ≡ false
  prefixed-apart live ls [] n h = elem-choices_empty ls
  prefixed-apart live ls (q ∷ m) n h = ground (arith, elem-prefixed live q m, elem-choices q m ls)

  -- With distinct live outputs, and distinct mappings after each, no mapping is listed twice.
  unique-choices :
      (ls : List String)
      → ((live : String) → unique (next (used ++ live ∷ [])) ≡ true)
      → unique ls ≡ true
      → unique (choices next saved ls used) ≡ true
  unfolding choices
  unique-choices [] after u = refl
  unique-choices (live ∷ ls) after u = elim (Bool-cases (elem live used)) [
    | inl h ↦ rw (choices-step live ls, h) (unique-choices ls after (&&-right _ _ u))
    | inr h ↦
        rw (choices-step live ls, h)
          (unique-append (prefixed live) (choices next saved ls used)
            (unfold prefixed in unique-map_cons _ _ ∙ after live)
            (unique-choices ls after (&&-right _ _ u))
            (λ (m : Mapping) h. prefixed-apart live ls m (ground arith) h))
  ]

elem-completions :
    (required : List String) (cs : List Candidates) (used : List String) (m : Mapping)
    → elem m (completions required cs used) ≡ completes required cs used m
unfolding completions completes
elem-completions required [] used [] = ground arith
elem-completions required [] used (p ∷ m) = ground arith
elem-completions required (c ∷ cs) used [] =
    elem-choices_empty (completions required cs) c.saved_output used c.live_outputs
elem-completions required (c ∷ cs) used (p ∷ m) =
    rw (← (elem-completions required cs (used ++ p.live_output ∷ []) m))
      (elem-choices (completions required cs) c.saved_output used p m c.live_outputs)

abbrev pub IsDistinct : List Candidates → Type 0
IsDistinct [] = Unit
IsDistinct (c ∷ cs) = (unique c.live_outputs ≡ true) × IsDistinct cs

pub unique-completions :
    (required : List String) (cs : List Candidates) (used : List String)
    → IsDistinct cs
    → unique (completions required cs used) ≡ true
unfolding completions
unique-completions required [] used d = ground arith
unique-completions required (c ∷ cs) used d =
    unique-choices (completions required cs) c.saved_output used c.live_outputs
      (λ live. unique-completions required cs (used ++ live ∷ []) d.1) d.0

-- What is completed is what is chosen from the candidates, without repetition, onto `required`.
completes-chosen :
    (required : List String) (cs : List Candidates) (used : List String) (m : Mapping)
    → completes required cs used m ≡ true
    → unique used ≡ true
    → (chosen_from cs m ≡ true)
      × (unique (used ++ lives_of m) ≡ true)
      × (same_set (used ++ lives_of m) required ≡ true)
unfolding completes chosen_from
completes-chosen required [] used [] h u = rw (append-nil used) (refl, u, h)
completes-chosen required [] used (p ∷ m) h u = absurd (cc)
completes-chosen required (c ∷ cs) used [] h u = absurd (cc)
completes-chosen required (c ∷ cs) used (p ∷ m) h u =
    let (chosen, distinct, onto) =
      completes-chosen required cs (used ++ p.live_output ∷ []) m (ground arith)
        (unique-append_one used p.live_output u (ground arith)) in
    (
      ground arith,
      subst (λ l. unique l ≡ true) (append_assoc used _ _) distinct,
      subst (λ l. same_set l required ≡ true) (append_assoc used _ _) onto,
    )

chosen-completes :
    (required : List String) (cs : List Candidates) (used : List String) (m : Mapping)
    → chosen_from cs m ≡ true
    → unique (used ++ lives_of m) ≡ true
    → same_set (used ++ lives_of m) required ≡ true
    → completes required cs used m ≡ true
unfolding completes chosen_from
chosen-completes required [] used [] h u o =
    subst (λ l. same_set l required ≡ true) (append-nil used) o
chosen-completes required [] used (p ∷ m) h u o = h
chosen-completes required (c ∷ cs) used [] h u o = h
chosen-completes required (c ∷ cs) used (p ∷ m) h u o =
    let rest =
      chosen-completes required cs (used ++ p.live_output ∷ []) m (ground arith)
        (subst (λ l. unique l ≡ true) (sym (append_assoc used (p.live_output ∷ []) (lives_of m))) u)
        (subst (λ l. same_set l required ≡ true)
          (sym (append_assoc used (p.live_output ∷ []) (lives_of m))) o) in
    ground (arith, unique-append_apart used (lives_of m) p.live_output)

module _ (candidates : List Candidates) (required : List String) where
  unfoldable pub found : List Mapping
  found = completions required (ordered candidates) []

  pub found-IsBijection : (m : Mapping) → elem m found ≡ true → IsBijection candidates required m
  unfolding found
  found-IsBijection m h =
      let (chosen, distinct, onto) =
        completes-chosen required (ordered candidates) [] m
          (sym (elem-completions required (ordered candidates) [] m) ∙ h) refl in
      record { chosen = chosen; distinct = distinct; onto = onto }

  pub IsBijection-found : (m : Mapping) → IsBijection candidates required m → elem m found ≡ true
  unfolding found
  IsBijection-found m b =
      elem-completions required (ordered candidates) [] m
      ∙ chosen-completes required (ordered candidates) [] m b.chosen b.distinct b.onto
