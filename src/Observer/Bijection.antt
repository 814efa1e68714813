-- ===== src/Observer/Bijection.antt =====
-- The search for an output bijection:
-- .local/lib/monitor-controller/monitor_controller/observer/mapping.py.
use Prim.Native.String.{compare as compare_text}
use Prim.Native.Nat.{Ordering}
use desktop_config.Prelude.{
  Bool, List, Option, Result, String, [], ambiguous_bijection, elem, err, false, if◌then◌else◌, leb,
  length, ltb, nat_eq, none, ok, same_set, some, string_eq, true, ℕ, ◌&&◌, ◌++◌, ◌==◌, ◌||◌, ◌∷◌,
}
use desktop_config.Model.Identity.{OutputMapping}

-- `MAX_MAPPING_SOLUTIONS`
abbrev pub max_mapping_solutions : ℕ
max_mapping_solutions = 2

-- One entry of the dictionary `candidates`: a saved output and the live ones it may be.
pub record Candidates : Type 0 where
  pub saved_output : String
  pub live_outputs : List String

-- A dictionary from saved to live outputs, as its entries in the order of insertion.
abbrev pub Mapping : Type 0
Mapping = List OutputMapping

-- Python's `<=` on strings
text_leb : String → String → Bool
text_leb s t = elim (compare_text s t) [ Ordering.gt ↦ false | _ ↦ true ]

-- `(len(candidates[output]), output)`, compared as pairs
unfoldable pub comes_first : Candidates → Candidates → Bool
unfolding text_leb
comes_first a b =
    ltb (length a.live_outputs) (length b.live_outputs)
    || length a.live_outputs == length b.live_outputs && text_leb a.saved_output b.saved_output

unfoldable pub place : Candidates → List Candidates → List Candidates
place c [] = c ∷ []
place c (d ∷ ds) = let later = place c ds in if comes_first c d then c ∷ d ∷ ds else d ∷ later

-- `sorted(candidates, key=...)`: a stable sort
unfoldable pub ordered : List Candidates → List Candidates
unfolding place comes_first
ordered [] = []
ordered (c ∷ cs) = place c (ordered cs)

-- The loop over the live outputs of one saved output; `next` is the search of the later ones.
unfoldable pub try_outputs :
    (List String → Mapping → List Mapping → List Mapping)
    → String
    → List String
    → List String
    → Mapping
    → List Mapping
    → List Mapping
try_outputs next saved [] used mapping solutions = solutions
try_outputs next saved (live ∷ lives) used mapping solutions =
    try_outputs next saved lives used mapping (
      if elem live used
      then solutions
      else next (used ++ live ∷ [])
          (mapping ++ record { saved_output = saved; live_output = live } ∷ []) solutions)

-- `search`: the solutions found so far go in and out.
unfoldable pub search_outputs :
    List String → List Candidates → List String → Mapping → List Mapping → List Mapping
unfolding try_outputs
search_outputs required [] used mapping solutions =
    if leb max_mapping_solutions (length solutions)
    then solutions
    else if same_set used required
    then solutions ++ mapping ∷ []
    else solutions
search_outputs required (c ∷ cs) used mapping solutions =
    let found =
      try_outputs (search_outputs required cs) c.saved_output c.live_outputs used mapping
        solutions in
    if leb max_mapping_solutions (length solutions) then solutions else found

-- What is raised or returned once the search is over.
unfoldable pub sole_solution : List Mapping → Result (Option Mapping)
sole_solution [] = ok none
sole_solution (mapping ∷ []) = ok (some mapping)
sole_solution (mapping ∷ another ∷ more) = err ambiguous_bijection

-- `unique_bijection`
unfoldable pub unique_bijection : List Candidates → List String → Result (Option Mapping)
unfolding search_outputs ordered sole_solution
unique_bijection candidates required =
    sole_solution (search_outputs required (ordered candidates) [] [] [])
