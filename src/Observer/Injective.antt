-- ===== src/Observer/Injective.antt =====
-- The correspondence of `_connector_translations` in
-- .local/lib/monitor-controller/monitor_controller/observer/topology.py confuses no two connectors.
use desktop_config.Prelude.{
  ==-refl, Bool, Bool-cases, List, Option-cases, String, [], arith, elem, false, inl, inr, is_some,
  map, refl, some, string_eq, subset, subst, sym, true, unique, ◌++◌, ◌==◌, ◌∙◌, ◌∷◌, ◌≡◌,
}
use desktop_config.Observer.Topology.{
  ConnectorTranslation, Correspondence, DrmConnector, XrandrOutput, claim, connector_translations,
  is_passed_over, live_output_for, matches, put, translate_from,
}
use desktop_config.Retention.Sets.{elem-append}

abbrev pub live_outputs_of : List ConnectorTranslation → List String
live_outputs_of = map (λ (t : ConnectorTranslation). t.live_output)

elem-put :
    (x k v : String) (ts : List ConnectorTranslation)
    → (v == x) ≡ false
    → elem x (live_outputs_of ts) ≡ false
    → elem x (live_outputs_of (put ts k v)) ≡ false
unfolding put
elem-put x k v [] n h = ground arith
elem-put x k v (t ∷ ts) n h = ground (arith, elem-put x k v ts)

subset-put :
    (claimed : List String) (k v : String) (ts : List ConnectorTranslation)
    → subset (live_outputs_of ts) claimed ≡ true
    → elem v claimed ≡ true
    → subset (live_outputs_of (put ts k v)) claimed ≡ true
unfolding put
subset-put claimed k v [] h m = ground arith
subset-put claimed k v (t ∷ ts) h m = ground (arith, subset-put claimed k v ts)

unique-put :
    (k v : String) (ts : List ConnectorTranslation)
    → unique (live_outputs_of ts) ≡ true
    → elem v (live_outputs_of ts) ≡ false
    → unique (live_outputs_of (put ts k v)) ≡ true
unfolding put
unique-put k v [] u n = refl
unique-put k v (t ∷ ts) u n =
    ground (arith, unique-put k v ts, elem-put t.live_output k v ts, ==-refl v)

elem-subset :
    (v : String) (xs ys : List String) → subset xs ys ≡ true → elem v ys ≡ false → elem v xs ≡ false
elem-subset v [] ys h n = refl
elem-subset v (x ∷ xs) ys h n = ground (arith, elem-subset v xs ys)

subset-append :
    (xs ys : List String) (v : String) → subset xs ys ≡ true → subset xs (ys ++ v ∷ []) ≡ true
subset-append [] ys v h = refl
subset-append (x ∷ xs) ys v h = ground (arith, subset-append xs ys v, elem-append x ys (v ∷ []))

-- What holds of the loop's variables after every round
record Sound (x : Correspondence) : Type 0 where
  distinct : unique (live_outputs_of x.translations) ≡ true
  claimed : subset (live_outputs_of x.translations) x.claimed ≡ true

claim-Sound :
    (x : Correspondence) (c : DrmConnector) (os : List XrandrOutput)
    → Sound x
    → Sound (claim x c os)
unfolding claim
claim-Sound x c [] s = record { distinct = s.distinct; claimed = s.claimed }
claim-Sound x c (o ∷ []) s = elim (Bool-cases (elem o.name x.claimed)) [
  | inl h ↦ rw h (record { distinct = s.distinct; claimed = s.claimed })
  | inr h ↦ rw h (record {
    distinct =
        unique-put c.kernel_name o.name x.translations s.distinct
          (elem-subset o.name _ x.claimed s.claimed h);
    claimed =
        subset-put (x.claimed ++ o.name ∷ []) c.kernel_name o.name x.translations
          (subset-append _ x.claimed o.name s.claimed)
          (elem-append o.name x.claimed (o.name ∷ []) ∙ ground (arith, ==-refl o.name));
  })
]
claim-Sound x c (o ∷ o' ∷ os) s = record { distinct = s.distinct; claimed = s.claimed }

translate_from-Sound :
    (cs : List DrmConnector) (x : Correspondence) (os : List XrandrOutput)
    → Sound x
    → Sound (translate_from x cs os)
unfolding translate_from
translate_from-Sound [] x os s = s
translate_from-Sound (c ∷ cs) x os s = elim (Bool-cases (is_passed_over c)) [
  | inl h ↦ rw h (translate_from-Sound cs x os s)
  | inr h ↦
      rw h
        (translate_from-Sound cs (claim x c (matches c os)) os (claim-Sound x c (matches c os) s))
]

elem-live_output_for :
    (ts : List ConnectorTranslation) (k v : String)
    → live_output_for ts k ≡ some v
    → elem v (live_outputs_of ts) ≡ true
unfolding live_output_for
elem-live_output_for [] k v h = absurd (cc)
elem-live_output_for (t ∷ ts) k v h = ground (arith, elem-live_output_for ts k v)

live_output_for-injective :
    (ts : List ConnectorTranslation) (k k' v : String)
    → unique (live_outputs_of ts) ≡ true
    → live_output_for ts k ≡ some v
    → live_output_for ts k' ≡ some v
    → k ≡ k'
unfolding live_output_for
live_output_for-injective [] k k' v u h h' = absurd (cc)
live_output_for-injective (t ∷ ts) k k' v u h h' = ground (
  arith,
  live_output_for-injective ts k k' v,
  elem-live_output_for ts k v,
  elem-live_output_for ts k' v,
)

has_live : List ConnectorTranslation → String → Bool
has_live ts k = is_some (live_output_for ts k)

has_live-put :
    (ts : List ConnectorTranslation) (j k v : String)
    → has_live ts j ≡ true
    → has_live (put ts k v) j ≡ true
unfolding has_live live_output_for put
has_live-put [] j k v h = absurd (cc)
has_live-put (t ∷ ts) j k v h = ground (arith, has_live-put ts j k v)

has_live-put_self : (ts : List ConnectorTranslation) (k v : String) → has_live (put ts k v) k ≡ true
unfolding has_live live_output_for put
has_live-put_self [] k v = ground (arith, ==-refl k)
has_live-put_self (t ∷ ts) k v = ground (arith, has_live-put_self ts k v, ==-refl k)

-- A claim that leaves the flag down has found an output for its connector, and keeps the others'.
claim-translates :
    (x : Correspondence) (c : DrmConnector) (os : List XrandrOutput)
    → (claim x c os).inconsistent ≡ false
    → (x.inconsistent ≡ false) × (has_live (claim x c os).translations c.kernel_name ≡ true)
unfolding claim
claim-translates x c [] h = absurd (cc)
claim-translates x c (o ∷ []) h = elim (Bool-cases (elem o.name x.claimed)) [
  | inl e ↦ absurd (let q = rw e at h in cc)
  | inr e ↦ rw e (rw e at h, has_live-put_self x.translations c.kernel_name o.name)
]
claim-translates x c (o ∷ o' ∷ os) h = absurd (cc)

claim-keeps :
    (x : Correspondence) (c : DrmConnector) (os : List XrandrOutput) (j : String)
    → has_live x.translations j ≡ true
    → has_live (claim x c os).translations j ≡ true
unfolding claim
claim-keeps x c [] j h = h
claim-keeps x c (o ∷ []) j h = elim (Bool-cases (elem o.name x.claimed)) [
  | inl e ↦ rw e h
  | inr e ↦ rw e (has_live-put x.translations j c.kernel_name o.name h)
]
claim-keeps x c (o ∷ o' ∷ os) j h = h

-- The connectors that are not passed over have a live output.
abbrev pub Translated : List ConnectorTranslation → List DrmConnector → Type 0
Translated ts [] = Unit
Translated ts (c ∷ cs) =
    (is_passed_over c ≡ false → (v : String) × (live_output_for ts c.kernel_name ≡ some v))
    × Translated ts cs

translate_from-keeps :
    (cs : List DrmConnector) (x : Correspondence) (os : List XrandrOutput) (j : String)
    → has_live x.translations j ≡ true
    → has_live (translate_from x cs os).translations j ≡ true
unfolding translate_from
translate_from-keeps [] x os j h = h
translate_from-keeps (c ∷ cs) x os j h = elim (Bool-cases (is_passed_over c)) [
  | inl e ↦ rw (e, translate_from) (translate_from-keeps cs x os j h)
  | inr e ↦
      rw (e, translate_from)
        (translate_from-keeps cs (claim x c (matches c os)) os j
          (claim-keeps x c (matches c os) j h))
]

found_live :
    (ts : List ConnectorTranslation) (j : String)
    → has_live ts j ≡ true
    → (v : String) × (live_output_for ts j ≡ some v)
unfolding has_live
found_live ts j h = elim (Option-cases (live_output_for ts j)) [
  | inl e ↦ absurd (let q = rw e at h in cc)
  | inr (v, e) ↦ (v, e)
]

module _ (x : Correspondence) (c : DrmConnector) (cs : List DrmConnector)
    (os : List XrandrOutput) where
  pass_over : is_passed_over c ≡ true → translate_from x (c ∷ cs) os ≡ translate_from x cs os
  unfolding translate_from
  pass_over e = rw (e, translate_from) refl

  claim_first :
      is_passed_over c ≡ false
      → translate_from x (c ∷ cs) os ≡ translate_from (claim x c (matches c os)) cs os
  unfolding translate_from
  claim_first e = rw (e, translate_from) refl

translate_from-Translated :
    (cs : List DrmConnector) (x : Correspondence) (os : List XrandrOutput)
    → (translate_from x cs os).inconsistent ≡ false
    → (x.inconsistent ≡ false) × Translated (translate_from x cs os).translations cs
translate_from-Translated [] x os h = (unfold translate_from in h, tt)
translate_from-Translated (c ∷ cs) x os h = elim (Bool-cases (is_passed_over c)) [
  | inl e ↦
      let t = pass_over x c cs os e in
      let (flag, rest) = translate_from-Translated cs x os (rw t at h) in
      subst (λ (y : Correspondence). (x.inconsistent ≡ false) × Translated y.translations (c ∷ cs))
        (sym t) (flag, (λ q. absurd (cc), rest))
  | inr e ↦
      let t = claim_first x c cs os e in
      let y = claim x c (matches c os) in
      let (flag, rest) = translate_from-Translated cs y os (rw t at h) in
      let (before, live) = claim-translates x c (matches c os) flag in
      subst (λ (z : Correspondence). (x.inconsistent ≡ false) × Translated z.translations (c ∷ cs))
        (sym t)
        (
          before,
          (λ q. found_live _ c.kernel_name (translate_from-keeps cs y os c.kernel_name live), rest),
        )
]

-- No two kernel connectors are taken for one live output, whatever the samples are; and unless the
-- samples are reported as inconsistent, each connected connector that is not virtual has a live
-- output.
pub connector_translations-injective :
    (cs : List DrmConnector) (os : List XrandrOutput)
    → ((k k' v : String)
        → live_output_for (connector_translations cs os).0 k ≡ some v
        → live_output_for (connector_translations cs os).0 k' ≡ some v
        → k ≡ k')
      × ((connector_translations cs os).1 ≡ false → Translated (connector_translations cs os).0 cs)
unfolding connector_translations
connector_translations-injective cs os =
    let x : Correspondence = record { translations = []; claimed = []; inconsistent = false } in
    let s = translate_from-Sound cs x os (record { distinct = refl; claimed = refl }) in
    (
      λ k k' v h h'. live_output_for-injective _ k k' v s.distinct h h',
      λ h. (translate_from-Translated cs x os h).1,
    )
