-- ===== src/Counters/Gives.antt =====
-- What holds of the value that a function returns, whether or not it raises.
use desktop_config.Prelude.{
  Bool, Error, Option, Result, ap, err, false, if◌then◌else◌, maybe, none, ok, refl, some, subst,
  true, ◌>>=◌, ◌≡◌,
}
use desktop_config.Model.Enums.{ActionKind}
use desktop_config.Model.Identity.{probe_attempt_key_eq}
use desktop_config.Reducer.Outcome.{or_else, ◌<|>◌}
use desktop_config.Reducer.Workers.{by_kind}

pub record Gives {A : Type 0} (P : A → Type 0) (r : Result A) : Type 0 where
  pub at : (a : A) → r ≡ ok a → P a

-- The same of an early return, where there is one.
pub record GivesEarly {A : Type 0} (P : A → Type 0) (o : Option (Result A)) : Type 0 where
  pub early : (r : Result A) → o ≡ some r → Gives P r

module _ {A : Type 0} {P : A → Type 0} where
  pub Gives-ok : (a : A) → P a → Gives P (ok a)
  Gives-ok a h = record { at = λ b e. let p : a ≡ b = cc in subst P p h }

  pub Gives-err : (e : Error) → Gives P (err e)
  Gives-err e = record { at = λ b h. cc }

  pub Gives-if : (b : Bool) (m n : Result A) → Gives P m → Gives P n → Gives P (if b then m else n)
  Gives-if true m n hm hn = hm
  Gives-if false m n hm hn = hn

  -- The same, where a branch rests on the value of its test.
  pub Gives-test :
      (b : Bool) (m n : Result A)
      → (b ≡ true → Gives P m)
      → (b ≡ false → Gives P n)
      → Gives P (if b then m else n)
  Gives-test true m n hm hn = hm refl
  Gives-test false m n hm hn = hn refl

  pub Gives-maybe :
      {B : Type 0} (o : Option B) (m : Result A) (f : B → Result A)
      → Gives P m
      → ((b : B) → Gives P (f b))
      → Gives P (maybe o m f)
  Gives-maybe none m f hm hf = hm
  Gives-maybe (some b) m f hm hf = hf b

  pub Gives-bind :
      {B : Type 0} (Q : B → Type 0) (m : Result B) (f : B → Result A)
      → Gives Q m
      → ((b : B) → Q b → Gives P (f b))
      → Gives P (m >>= f)
  Gives-bind Q (ok b) f hm hf = hf b (hm.at b refl)
  Gives-bind Q (err e) f hm hf = Gives-err e

  pub Gives-or_else :
      (o : Option (Result A)) (m : Result A) → GivesEarly P o → Gives P m → Gives P (or_else o m)
  Gives-or_else none m ho hm = hm
  Gives-or_else (some r) m ho hm = ho.early r refl

  pub Gives-by_kind :
      (k : ActionKind) (pl pr ap pp fi : Result A)
      → Gives P pl
      → Gives P pr
      → Gives P ap
      → Gives P pp
      → Gives P fi
      → Gives P (by_kind k pl pr ap pp fi)
  Gives-by_kind ActionKind.plan pl pr ap pp fi a b c d e = a
  Gives-by_kind ActionKind.probe pl pr ap pp fi a b c d e = b
  Gives-by_kind ActionKind.application pl pr ap pp fi a b c d e = c
  Gives-by_kind ActionKind.preparation pl pr ap pp fi a b c d e = d
  Gives-by_kind ActionKind.finalization pl pr ap pp fi a b c d e = e

  pub GivesEarly-none : GivesEarly P none
  GivesEarly-none = record { early = λ r e. cc }

  pub GivesEarly-some : (r : Result A) → Gives P r → GivesEarly P (some r)
  GivesEarly-some r h = record { early = λ q e. let p : r ≡ q = cc in subst (Gives P) p h }

  pub GivesEarly-if :
      (b : Bool) (m n : Option (Result A))
      → GivesEarly P m
      → GivesEarly P n
      → GivesEarly P (if b then m else n)
  GivesEarly-if true m n hm hn = hm
  GivesEarly-if false m n hm hn = hn

  pub GivesEarly-maybe :
      {B : Type 0} (o : Option B) (m : Option (Result A)) (f : B → Option (Result A))
      → GivesEarly P m
      → ((b : B) → GivesEarly P (f b))
      → GivesEarly P (maybe o m f)
  GivesEarly-maybe none m f hm hf = hm
  GivesEarly-maybe (some b) m f hm hf = hf b

  pub GivesEarly-test :
      {B : Type 0} (o : Option B) (f : B → Option (Result A))
      → ((b : B) → o ≡ some b → GivesEarly P (f b))
      → GivesEarly P (maybe o none f)
  GivesEarly-test none f hf = GivesEarly-none
  GivesEarly-test (some b) f hf = hf b refl

  pub GivesEarly-first :
      (o p : Option (Result A)) → GivesEarly P o → GivesEarly P p → GivesEarly P (o <|> p)
  GivesEarly-first none p ho hp = hp
  GivesEarly-first (some r) p ho hp = ho
