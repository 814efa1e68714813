-- ===== src/Codec/Restored.antt =====
-- The round trip of every value of a type, by recursion on the type, for
-- .local/lib/monitor-controller/monitor_controller/codec.py.
use desktop_config.Codec.Values.{Value, Fields, FieldSchemas, Schema, Default, Json, Members}
use desktop_config.Prelude.{
  ==-refl, ==→≡, Bool, Bool-cases, List, String, all, ap, arith, elem, false, inl, inr, nat_eq,
  none, ok, refl, some, string_eq, true, unique, ◌<>◌, ◌==◌, ◌∙◌, ◌∷◌, ◌≡◌, ◌≢◌,
}
use desktop_config.Codec.Decode.{
  decode_fields, decode_value, has_unknown, lacks_required, lookup, names_of,
}
use desktop_config.Codec.Encode.{encode_fields, encode_value, is_omitted}
use desktop_config.Codec.RoundTrip.{
  Conforms, Matches, Restores, items_return, not_null, strict_string-ok,
}
use desktop_config.Codec.Values.{
  Default, FieldSchemas, Fields, Json, Members, Schema, Value, Value-discrete, value_eq,
}

unknown_more :
    (name : String) (names : List String) (ms : Members)
    → has_unknown names ms ≡ false
    → has_unknown (name ∷ names) ms ≡ false
unfolding has_unknown
unknown_more name names Members.end h = refl
unknown_more name names (Members.pair key j ms) h = ground (arith, unknown_more name names ms)

lookup-unknown :
    (name : String) (names : List String) (ms : Members)
    → has_unknown names ms ≡ false
    → elem name names ≡ false
    → lookup name ms ≡ none
unfolding has_unknown lookup
lookup-unknown name names Members.end h n = refl
lookup-unknown name names (Members.pair key j ms) h n = ground (arith, lookup-unknown name names ms)

-- `all` has what `ms` has under the names.
Covers : List String → Members → Members → Type 0
Covers names ms all = (name : String) → elem name names ≡ true → lookup name all ≡ lookup name ms

-- What the fields of an instance are encoded to, and what is decoded of any object that has that.
record FieldsRestore (fs : FieldSchemas) (vs : Fields) (path : String) : Type 0 where
  members : Members
  encoded : encode_fields vs path ≡ ok members
  known : has_unknown (names_of fs) members ≡ false
  decoded :
      (all : Members) (other : String)
      → Covers (names_of fs) members all
      → (decode_fields fs all other ≡ ok vs) × (lacks_required fs all ≡ false)

head_apart :
    (x : String) (xs : List String)
    → unique (x ∷ xs) ≡ true
    → (elem x xs ≡ false) × (unique xs ≡ true)
head_apart x xs h = ground arith

different :
    (name n : String) (names : List String)
    → elem name names ≡ false
    → elem n names ≡ true
    → (name == n) ≡ false
different name n names h k = elim (Bool-cases (name == n)) [
  | inl e ↦ absurd (let q : name ≡ n = ==→≡ name n e in cc)
  | inr e ↦ e
]

nothing_lacks :
    (name : String) (s : Schema) {j : Json} (default : Default) (fs : FieldSchemas)
    (object : Members)
    → lookup name object ≡ some j
    → lacks_required fs object ≡ false
    → lacks_required (FieldSchemas.field name s default fs) object ≡ false
unfolding lacks_required
nothing_lacks name s Default.required fs object there l = rw there l
nothing_lacks name s (Default.optional w) fs object there l = l

module _ (name : String) (s : Schema) (fs : FieldSchemas) (v : Value) (vs : Fields) (path : String)
    (apart : elem name (names_of fs) ≡ false) (rest : FieldsRestore fs vs path) where
  -- A field that is left out is the default of its class.
  field_omitted :
      FieldsRestore
        (FieldSchemas.field name s (Default.optional v) fs)
        (Fields.field name v (Default.optional v) vs)
        path
  unfolding encode_value is_omitted names_of decode_value lacks_required Covers
  field_omitted = record {
    members = rest.members;
    encoded = rw (==-refl v) rest.encoded;
    known = unknown_more name (names_of fs) rest.members rest.known;
    decoded = λ all other covers.
        let (d, l) = rest.decoded all other (λ n h. covers n (ground arith)) in
        let none_there : lookup name all ≡ none =
          covers name (ground (arith, ==-refl name))
          ∙ lookup-unknown name (names_of fs) rest.members rest.known apart in
        (rw (none_there, d) refl, l);
  }

  field_kept :
      (default : Default)
      → is_omitted v default ≡ false
      → Restores s v (path <> "." <> name)
      → FieldsRestore (FieldSchemas.field name s default fs) (Fields.field name v default vs) path
  unfolding encode_value names_of decode_value lacks_required Covers lookup has_unknown
  field_kept default o r = record {
    members = Members.pair name r.json rest.members;
    encoded = rw (o, r.encoded, rest.encoded) refl;
    known = ground (arith, ==-refl name, unknown_more name (names_of fs) rest.members rest.known);
    decoded = λ all other covers.
        let there : lookup name all ≡ some r.json =
          covers name (ground (arith, ==-refl name)) ∙ rw (==-refl name) refl in
        let (d, l) =
          rest.decoded all other
            (λ n h. covers n (ground arith) ∙ rw (different name n (names_of fs) apart h) refl) in
        (
          rw (there, r.decoded (other <> "." <> name), d) refl,
          nothing_lacks name s default fs all there l,
        );
  }

  field-Restores :
      (default : Default)
      → Restores s v (path <> "." <> name)
      → FieldsRestore (FieldSchemas.field name s default fs) (Fields.field name v default vs) path
  field-Restores Default.required r = field_kept Default.required (unfold is_omitted in refl) r
  field-Restores (Default.optional w) r = elim (Bool-cases (v == w)) [
    | inl e ↦ rw (← (==→≡ v w e)) field_omitted
    | inr e ↦ field_kept (Default.optional w) (unfold is_omitted in e) r
  ]

nothing_restores : (path : String) → FieldsRestore FieldSchemas.end Fields.end path
unfolding encode_value decode_value has_unknown lacks_required
nothing_restores path = record {
  members = Members.end;
  encoded = refl;
  known = refl;
  decoded = λ object other covers. (refl, refl);
}

Restores-instance :
    (fs : FieldSchemas) (check : Fields → Bool) (vs : Fields) (path : String)
    → check vs ≡ true
    → FieldsRestore fs vs path
    → Restores (Schema.dataclass fs check) (Value.instance_of vs) path
unfolding encode_value decode_value Covers
Restores-instance fs check vs path checked r = record {
  json = Json.object r.members;
  encoded = rw r.encoded refl;
  decoded = λ other.
      let (d, l) = r.decoded r.members other (λ n h. refl) in rw (r.known, l, d, checked) refl;
}

-- A value of `X` is decoded against `X | None` as against `X`.
Restores-optional :
    (s : Schema) (v : Value) (path : String)
    → v ≢ Value.none
    → Restores s v path
    → Restores (Schema.optional s) v path
unfolding decode_value
Restores-optional s v path n r = record {
  json = r.json;
  encoded = r.encoded;
  decoded = λ other.
      through r.json (λ e. n (not_null v path (r.encoded ∙ ap ok e))) other (r.decoded other);
}
  where
    through :
        (j : Json)
        → j ≢ Json.null
        → (other : String) → decode_value s j other ≡ ok v
        → decode_value (Schema.optional s) j other ≡ ok v
    through Json.null m other d = absurd (m refl)
    through (Json.bool b) m other d = rw d refl
    through (Json.int i) m other d = rw d refl
    through (Json.str t) m other d = rw d refl
    through (Json.array items) m other d = rw d refl
    through (Json.object ms) m other d = rw d refl

mutual
  unfolding Conforms encode_value decode_value names_of

  value-Restores : (s : Schema) (v : Value) (path : String) → Conforms s v → Restores s v path
  value-Restores Schema.str (Value.str t) path h = record {
    json = Json.str t;
    encoded = rw (strict_string-ok t path h) refl;
    decoded = λ other. rw (strict_string-ok t other h) refl;
  }
  value-Restores Schema.int (Value.int i) path h = record {
    json = Json.int i;
    encoded = rw h refl;
    decoded = λ other. rw h refl;
  }
  value-Restores Schema.bool (Value.bool b) path h = record {
    json = Json.bool b;
    encoded = refl;
    decoded = λ other. refl;
  }
  value-Restores Schema.uuid (Value.uuid t) path h = record {
    json = Json.str t;
    encoded = refl;
    decoded = λ other. rw (strict_string-ok t other h.0, h.1) refl;
  }
  value-Restores (Schema.enum names) (Value.member t) path h = record {
    json = Json.str t;
    encoded = refl;
    decoded = λ other. rw (strict_string-ok t other h.0, h.1) refl;
  }
  value-Restores (Schema.tuple s) (Value.tuple vs) path h =
      let (items, e, d) = items_return s (value-Restores s) vs path 0 h in
      record {
        json = Json.array items;
        encoded = rw e refl;
        decoded = λ other. rw (d other 0) refl;
      }
  value-Restores (Schema.frozenset s) (Value.frozenset vs) path h =
      let (items, e, d) = items_return s (value-Restores s) vs path 0 h.0 in
      record {
        json = Json.array items;
        encoded = rw e refl;
        decoded = λ other. rw (d other 0, h.1) refl;
      }
  value-Restores (Schema.optional s) v path h = elim (Value-discrete v Value.none) [
    | yes e ↦ rw e (record { json = Json.null; encoded = refl; decoded = λ other. refl })
    | no n ↦ elim h [
      | inl e ↦ absurd (n e)
      | inr c ↦ Restores-optional s v path n (value-Restores s v path c)
    ]
  ]
  value-Restores (Schema.dataclass fs check) (Value.instance_of vs) path h =
      Restores-instance fs check vs path h.2 (fields_restore fs vs path h.0 h.1)
  value-Restores _ _ path h = absurd h

  fields_restore :
      (fs : FieldSchemas) (vs : Fields) (path : String)
      → Matches fs vs
      → unique (names_of fs) ≡ true
      → FieldsRestore fs vs path
  fields_restore FieldSchemas.end Fields.end path h u = nothing_restores path
  fields_restore (FieldSchemas.field name s default fs) (Fields.field key v e vs) path h u =
      let (apart, u') = head_apart name (names_of fs) u in
      rw (h.0, h.1)
        (field-Restores name s fs v vs path apart (fields_restore fs vs path h.3 u') default
          (value-Restores s v (path <> "." <> name) h.2))
  fields_restore _ _ path h u = absurd h

-- Decoding undoes encoding: a value that conforms to a type is always encoded, and what it is
-- encoded to is decoded against the type to the value itself, whatever the two paths that errors
-- would name. This takes in the optional fields that are left out at their defaults.
pub decode_value-encode_value :
    (s : Schema) (v : Value) (path other : String)
    → Conforms s v
    → (j : Json) × (encode_value v path ≡ ok j) × (decode_value s j other ≡ ok v)
decode_value-encode_value s v path other c =
    let r = value-Restores s v path c in (r.json, r.encoded, r.decoded other)
