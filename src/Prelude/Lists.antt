-- ===== src/Prelude/Lists.antt =====
-- Sequences, and sets as sequences: what the program takes from `tuple` and `frozenset`.
use Prim.Native.Nat.{ℕ, suc}
use mathlib.Core.Bool.{Bool, true, false, not, ◌&&◌, ◌||◌}
use mathlib.Core.Option.{Option, none, some}
use mathlib.Core.List.{List, [], ◌∷◌, ◌++◌}
use desktop_config.Prelude.Tests.{if◌then◌else◌}
use desktop_config.Prelude.Equality.{Eq, ◌==◌}

module _ {ℓ} {A : Type ℓ} where
  abbrev pub length : List A → ℕ
  length [] = 0
  length (x ∷ xs) = suc (length xs)

  -- `any(p(x) for x in xs)` and `all(p(x) for x in xs)`
  abbrev pub any : (A → Bool) → List A → Bool
  any p [] = false
  any p (x ∷ xs) = p x || any p xs

  abbrev pub all : (A → Bool) → List A → Bool
  all p [] = true
  all p (x ∷ xs) = p x && all p xs

  -- `tuple(x for x in xs if p(x))`
  abbrev pub keep : (A → Bool) → List A → List A
  keep p [] = []
  keep p (x ∷ xs) = let rest = keep p xs in if p x then x ∷ rest else rest

  -- `next((x for x in xs if p(x)), None)`
  abbrev pub find : (A → Bool) → List A → Option A
  find p [] = none
  find p (x ∷ xs) = let rest = find p xs in if p x then some x else rest

  -- the present values of a sequence of optional ones
  abbrev pub somes : List (Option A) → List A
  somes [] = []
  somes (none ∷ xs) = somes xs
  somes (some x ∷ xs) = x ∷ somes xs

module _ {A : Type 0} ⦃e : Eq A⦄ where
  abbrev pub elem : A → List A → Bool
  elem x xs = any (λ y. y == x) xs

  abbrev pub subset : List A → List A → Bool
  subset xs ys = all (λ x. elem x ys) xs

  abbrev pub same_set : List A → List A → Bool
  same_set xs ys = subset xs ys && subset ys xs

  -- `len(set(xs)) == len(xs)`
  abbrev pub unique : List A → Bool
  unique [] = true
  unique (x ∷ xs) = not (elem x xs) && unique xs

  -- `xs | {x}` and `xs - {x}` on sets
  abbrev pub add : List A → A → List A
  add xs x = if elem x xs then xs else xs ++ x ∷ []

  abbrev pub discard : List A → A → List A
  discard xs x = keep (λ y. not (y == x)) xs
