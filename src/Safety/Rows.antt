-- ===== src/Safety/Rows.antt =====
-- Checks and counts over a row of optional actions, entry by entry.
use desktop_config.Prelude.{
  >>-left, >>-right, Bool, List, Option, Result, arith, if◌then◌else◌, keep, length, none, ok, refl,
  some, somes, ℕ, ◌+◌, ◌∷◌, ◌≡◌,
}
use desktop_config.Invariants.Rules.{each, given}

module _ {A : Type 0} where
  pub each-somes :
      (check : A → Result (Unit {0})) (o : Option A) (os : List (Option A))
      → each check (somes (o ∷ os)) ≡ ok tt
      → (given o check ≡ ok tt) × (each check (somes os) ≡ ok tt)
  each-somes check none os h = (refl, h)
  each-somes check (some a) os h = (>>-left (check a) _ h, >>-right (check a) _ h)

  pub somes-each :
      (check : A → Result (Unit {0})) (o : Option A) (os : List (Option A))
      → given o check ≡ ok tt
      → each check (somes os) ≡ ok tt
      → each check (somes (o ∷ os)) ≡ ok tt
  somes-each check none os h k = k
  somes-each check (some a) os h k = rw h k

  -- 1 for an entry that is there and satisfies the test.
  abbrev pub weight : (A → Bool) → Option A → ℕ
  weight p none = 0
  weight p (some a) = if p a then 1 else 0

  pub length-keep-somes :
      (p : A → Bool) (o : Option A) (os : List (Option A))
      → length (keep p (somes (o ∷ os))) ≡ weight p o + length (keep p (somes os))
  length-keep-somes p none os = omega arith
  length-keep-somes p (some a) os = ground arith
