-- ===== src/Prelude/Raises.antt =====
-- Python functions that may raise: the value, or the exception with its message.
use Prim.Native.String.{String}
use mathlib.Core.Path.{◌≡◌, refl}

-- `ControllerInvariantError`, the `ValueError`s of the code, `AmbiguousBijectionError`, and a
-- recursion that does not end
pub data Error : Type 0 where
  controller_invariant : String → Error
  value_error : String → Error
  ambiguous_bijection : Error
  out_of_rounds : Error

-- What a call gives: the exception that it raises, or its value.
pub data Result {ℓ} (X : Type ℓ) : Type ℓ where
  err : Error → Result X
  ok : X → Result X

-- Sequencing: an exception ends the function.
infixl 5 ◌>>◌ ◌>>=◌
abbrev pub ◌>>=◌ {κ ℓ} : {X : Type κ} {Y : Type ℓ} → Result X → (X → Result Y) → Result Y
err raised >>= rest = err raised
ok x >>= rest = rest x

abbrev pub ◌>>◌ {ℓ} : {Y : Type ℓ} → Result (Unit {0}) → Result Y → Result Y
check >> rest = check >>= λ _. rest

-- Where a sequence succeeds, so do its first call and the rest.
pub >>-left {ℓ} :
    {Y : Type ℓ} (check : Result (Unit {0})) (rest : Result Y) {y : Y}
    → (check >> rest) ≡ ok y
    → check ≡ ok tt
>>-left (err raised) rest h = cc
>>-left (ok tt) rest h = refl

pub >>-right {ℓ} :
    {Y : Type ℓ} (check : Result (Unit {0})) (rest : Result Y) {y : Y}
    → (check >> rest) ≡ ok y
    → rest ≡ ok y
>>-right (err raised) rest h = cc
>>-right (ok tt) rest h = h

pub >>=-inverse {κ ℓ} :
    {X : Type κ} {Y : Type ℓ} (call : Result X) (rest : X → Result Y) {y : Y}
    → (call >>= rest) ≡ ok y
    → (x : X) × (call ≡ ok x) × (rest x ≡ ok y)
>>=-inverse (err raised) rest h = absurd (cc)
>>=-inverse (ok x) rest h = (x, refl, h)
