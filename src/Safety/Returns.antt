-- ===== src/Safety/Returns.antt =====
-- How a fallible function ends: what holds of the value that it returns, and that it does not run
-- out of rounds, with one rule for each way in which the handlers are built.
use desktop_config.Prelude.{
  Bool, Error, Option, Result, String, ap, err, false, if◌then◌else◌, maybe, none, ok,
  out_of_rounds, refl, some, subst, true, value_error, ◌>>=◌, ◌≡◌, ◌≢◌,
}
use desktop_config.Model.Enums.{ActionKind}
use desktop_config.Reducer.Outcome.{or_else, ◌<|>◌}
use desktop_config.Reducer.Workers.{by_kind}

pub record Returns {A : Type 0} (P : A → Type 0) (r : Result A) : Type 0 where
  pub at : (a : A) → r ≡ ok a → P a
  pub ends : r ≢ err out_of_rounds

-- The same of an early return, where there is one.
pub record Early {A : Type 0} (P : A → Type 0) (o : Option (Result A)) : Type 0 where
  pub early : (r : Result A) → o ≡ some r → Returns P r

module _ {A : Type 0} {P : A → Type 0} where
  pub Returns-ok : (a : A) → P a → Returns P (ok a)
  Returns-ok a h = record { at = λ b e. let p : a ≡ b = cc in subst P p h; ends = λ e. cc }

  pub Returns-err : (e : Error) → e ≢ out_of_rounds → Returns P (err e)
  Returns-err e n = record { at = λ b h. cc; ends = λ h. let p : e ≡ out_of_rounds = cc in n p }

  pub Returns-if :
      (b : Bool) (m n : Result A)
      → (b ≡ true → Returns P m)
      → (b ≡ false → Returns P n)
      → Returns P (if b then m else n)
  Returns-if true m n hm hn = hm refl
  Returns-if false m n hm hn = hn refl

  pub Returns-maybe :
      {B : Type 0} (o : Option B) (m : Result A) (f : B → Result A)
      → (o ≡ none → Returns P m)
      → ((b : B) → o ≡ some b → Returns P (f b))
      → Returns P (maybe o m f)
  Returns-maybe none m f hm hf = hm refl
  Returns-maybe (some b) m f hm hf = hf b refl

  pub Returns-bind :
      {B : Type 0} (Q : B → Type 0) (m : Result B) (f : B → Result A)
      → Returns Q m
      → ((b : B) → Q b → Returns P (f b))
      → Returns P (m >>= f)
  Returns-bind Q (ok b) f hm hf = hf b (hm.at b refl)
  Returns-bind Q (err e) f hm hf = record { at = λ b h. cc; ends = λ h. hm.ends (cc) }

  pub Returns-or_else :
      (o : Option (Result A)) (m : Result A) → Early P o → Returns P m → Returns P (or_else o m)
  Returns-or_else none m ho hm = hm
  Returns-or_else (some r) m ho hm = ho.early r refl

  pub Returns-by_kind :
      (k : ActionKind) (pl pr ap pp fi : Result A)
      → Returns P pl
      → Returns P pr
      → Returns P ap
      → Returns P pp
      → Returns P fi
      → Returns P (by_kind k pl pr ap pp fi)
  Returns-by_kind ActionKind.plan pl pr ap pp fi a b c d e = a
  Returns-by_kind ActionKind.probe pl pr ap pp fi a b c d e = b
  Returns-by_kind ActionKind.application pl pr ap pp fi a b c d e = c
  Returns-by_kind ActionKind.preparation pl pr ap pp fi a b c d e = d
  Returns-by_kind ActionKind.finalization pl pr ap pp fi a b c d e = e

  pub Early-none : Early P none
  Early-none = record { early = λ r e. cc }

  pub Early-some : (r : Result A) → Returns P r → Early P (some r)
  Early-some r h = record { early = λ q e. let p : r ≡ q = cc in subst (Returns P) p h }

  pub Early-if :
      (b : Bool) (m n : Option (Result A))
      → (b ≡ true → Early P m)
      → (b ≡ false → Early P n)
      → Early P (if b then m else n)
  Early-if true m n hm hn = hm refl
  Early-if false m n hm hn = hn refl

  pub Early-maybe :
      {B : Type 0} (o : Option B) (m : Option (Result A)) (f : B → Option (Result A))
      → (o ≡ none → Early P m)
      → ((b : B) → o ≡ some b → Early P (f b))
      → Early P (maybe o m f)
  Early-maybe none m f hm hf = hm refl
  Early-maybe (some b) m f hm hf = hf b refl

  pub Early-first : (o p : Option (Result A)) → Early P o → Early P p → Early P (o <|> p)
  Early-first none p ho hp = hp
  Early-first (some r) p ho hp = ho

-- Any value will do.
abbrev pub Anything : {B : Type 0} → B → Type 0
Anything b = Unit

pub Returns-value_error :
    {A : Type 0} {P : A → Type 0} (m : String) → Returns P (err (value_error m))
Returns-value_error m = Returns-err (value_error m) (λ h. cc)

pub Returns-then :
    {A B : Type 0} {P : A → Type 0} (m : Result B) (f : B → Result A)
    → Returns Anything m
    → ((b : B) → Returns P (f b))
    → Returns P (m >>= f)
Returns-then m f hm hf = Returns-bind Anything m f hm (λ b _. hf b)

pub Returns-weaken : {A : Type 0} {P : A → Type 0} (m : Result A) → Returns P m → Returns Anything m
Returns-weaken m h = record { at = λ a e. tt; ends = h.ends }

pub Returns-some_value : {A : Type 0} (a : A) → Returns Anything (ok a)
Returns-some_value a = record { at = λ b e. tt; ends = λ e. cc }

pub ruleset returns_rules = (
  Returns-ok, Returns-some_value, Returns-value_error, Returns-if, Returns-maybe, Returns-by_kind,
  Returns-or_else, Returns-then, Early-none, Early-some, Early-if, Early-maybe, Early-first,
)
