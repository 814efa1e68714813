-- ===== src/Retention/Sets.antt =====
-- Sequences without repetition: how many entries they have within a given set.
use desktop_config.Prelude.{
  Eq, List, [], arith, discard, elem, ==-refl, false, length, refl, subset, true, unique, ◌++◌, ◌<◌,
  ◌||◌, ◌∷◌, ◌≡◌, ◌≢◌, ◌≤◌,
}

module _ {A : Type 0} ⦃e : Eq A⦄ where
  elem-discard : (x y : A) (ys : List A) → elem x ys ≡ true → x ≢ y → elem x (discard ys y) ≡ true
  elem-discard x y [] h n = cc
  elem-discard x y (z ∷ zs) h n = ground (arith, elem-discard x y zs)

  length-discard-le : (y : A) (ys : List A) → length (discard ys y) ≤ length ys
  length-discard-le y [] = omega arith
  length-discard-le y (z ∷ zs) = ground (arith, length-discard-le y zs)

  length-discard : (y : A) (ys : List A) → elem y ys ≡ true → length (discard ys y) < length ys
  length-discard y [] h = cc
  length-discard y (z ∷ zs) h = ground (arith, length-discard y zs, length-discard-le y zs)

  all-elem-discard :
      (y : A) (xs ys : List A)
      → elem y xs ≡ false
      → subset xs ys ≡ true
      → subset xs (discard ys y) ≡ true
  all-elem-discard y [] ys n h = refl
  all-elem-discard y (x ∷ xs) ys n h = ground (arith, all-elem-discard y xs ys, elem-discard x y ys)

  -- A sequence without repetition is no longer than a set that contains it.
  pub length-le_of_subset :
      (xs ys : List A) → unique xs ≡ true → subset xs ys ≡ true → length xs ≤ length ys
  length-le_of_subset [] ys u h = omega arith
  length-le_of_subset (x ∷ xs) ys u h =
      ground (
        arith,
        length-le_of_subset xs (discard ys x),
        all-elem-discard x xs ys,
        length-discard x ys,
      )

  pub elem-append : (x : A) (xs ys : List A) → elem x (xs ++ ys) ≡ (elem x xs || elem x ys)
  elem-append x [] ys = refl
  elem-append x (z ∷ zs) ys = ground (arith, elem-append x zs ys)

  -- A new entry at the end of a sequence without repetition leaves it so.
  pub unique-append_one :
      (xs : List A) (y : A) → unique xs ≡ true → elem y xs ≡ false → unique (xs ++ y ∷ []) ≡ true
  unique-append_one [] y u n = refl
  unique-append_one (x ∷ xs) y u n =
      ground (arith, unique-append_one xs y, elem-append x xs (y ∷ []))

  -- Two sequences without repetition, with no entry in common, make one without repetition.
  pub unique-append :
      (xs ys : List A)
      → unique xs ≡ true
      → unique ys ≡ true
      → ((x : A) → elem x xs ≡ true → elem x ys ≡ false)
      → unique (xs ++ ys) ≡ true
  unique-append [] ys u v apart = v
  unique-append (x ∷ xs) ys u v apart = ground (
    arith,
    unique-append xs ys (ground arith) v (λ (z : A) h. apart z (ground arith)),
    elem-append x xs ys,
    apart x,
    ==-refl x,
  )

  -- An entry that is listed before another one is not listed with it.
  pub unique-append_apart :
      (xs ys : List A) (y : A) → unique (xs ++ y ∷ ys) ≡ true → elem y xs ≡ false
  unique-append_apart [] ys y u = refl
  unique-append_apart (x ∷ xs) ys y u =
      ground (arith, unique-append_apart xs ys y, elem-append x xs (y ∷ ys), ==-refl y)
