-- ===== src/Codec/RoundTrip.antt =====
-- Decoding undoes encoding: `decode_schema_value` and `encode_schema_value` of
-- .local/lib/monitor-controller/monitor_controller/codec.py.
use desktop_config.Codec.Values.{Value, Values, Fields, FieldSchemas, Schema, Json, Items}
use desktop_config.Prelude.{
  >>=-inverse, String, arith, decimal, elem, nat_eq, ok, refl, string_eq, true, unique, ℕ, ◌+◌,
  ◌<>◌, ◌≡◌, ◌⊎◌,
}
use desktop_config.Codec.Decode.{decode_items, decode_value, is_distinct, is_uuid, names_of}
use desktop_config.Codec.Encode.{
  encode_fields, encode_items, encode_value, in_range, is_strict, strict_string,
}
use desktop_config.Codec.Values.{FieldSchemas, Fields, Items, Json, Schema, Value, Values, value_eq}

unfoldable pub Each : (Value → Type 0) → Values → Type 0
Each P Values.nil = Unit
Each P (Values.cons v vs) = P v × Each P vs

-- The values of a type that the codec can store: their texts and numbers are within its bounds, and
-- their instances pass the checks of their classes.
unfoldable mutual
  pub Conforms : Schema → Value → Type 0
  Conforms Schema.str (Value.str s) = is_strict s ≡ true
  Conforms Schema.int (Value.int i) = in_range i ≡ true
  Conforms Schema.bool (Value.bool b) = Unit
  Conforms Schema.uuid (Value.uuid s) = (is_strict s ≡ true) × (is_uuid s ≡ true)
  Conforms (Schema.enum names) (Value.member s) = (is_strict s ≡ true) × (elem s names ≡ true)
  Conforms (Schema.tuple s) (Value.tuple vs) = Each (Conforms s) vs
  Conforms (Schema.frozenset s) (Value.frozenset vs) =
      Each (Conforms s) vs × (is_distinct vs ≡ true)
  Conforms (Schema.optional s) v = (v ≡ Value.none) ⊎ Conforms s v
  Conforms (Schema.dataclass fs check) (Value.instance_of vs) =
      Matches fs vs × (unique (names_of fs) ≡ true) × (check vs ≡ true)
  Conforms _ _ = ⊥

  pub Matches : FieldSchemas → Fields → Type 0
  Matches FieldSchemas.end Fields.end = Unit
  Matches (FieldSchemas.field name s default fs) (Fields.field key v e vs) =
      (key ≡ name) × (e ≡ default) × Conforms s v × Matches fs vs
  Matches _ _ = ⊥

-- What a value is encoded to, and what that is decoded to again, at whatever paths.
pub record Restores (s : Schema) (v : Value) (path : String) : Type 0 where
  pub json : Json
  pub encoded : encode_value v path ≡ ok json
  pub decoded : (other : String) → decode_value s json other ≡ ok v

pub strict_string-ok : (s path : String) → is_strict s ≡ true → strict_string s path ≡ ok s
unfolding is_strict strict_string
strict_string-ok s path h = ground arith

pub not_null : (v : Value) (path : String) → encode_value v path ≡ ok Json.null → v ≡ Value.none
unfolding encode_value
not_null Value.none path h = refl
not_null (Value.bool b) path h = absurd (cc)
not_null (Value.int i) path h = absurd (ground arith)
not_null (Value.str s) path h =
    let (t, p, q) = >>=-inverse (strict_string s path) _ h in absurd (cc)
not_null (Value.uuid s) path h = absurd (cc)
not_null (Value.member s) path h = absurd (cc)
not_null (Value.tuple vs) path h =
    let (t, p, q) = >>=-inverse (encode_items vs path 0) _ h in absurd (cc)
not_null (Value.frozenset vs) path h =
    let (t, p, q) = >>=-inverse (encode_items vs path 0) _ h in absurd (cc)
not_null (Value.instance_of fs) path h =
    let (t, p, q) = >>=-inverse (encode_fields fs path) _ h in absurd (cc)

module _ (s : Schema) (item : (v : Value) (path : String) → Conforms s v → Restores s v path) where
  pub items_return :
      (vs : Values) (path : String) (i : ℕ)
      → Each (Conforms s) vs
      → (items : Items) × (encode_items vs path i ≡ ok items)
        × ((other : String) (j : ℕ) → decode_items (decode_value s) items other j ≡ ok vs)
  unfolding encode_value decode_items Each
  items_return Values.nil path i h = (Items.nil, refl, λ other j. refl)
  items_return (Values.cons v vs) path i h =
      let r = item v (path <> "[" <> decimal i <> "]") h.0 in
      let (items, e, d) = items_return vs path (i + 1) h.1 in
      (
        Items.cons r.json items,
        rw (r.encoded, e) refl,
        λ other j. rw (r.decoded (other <> "[" <> decimal j <> "]"), d other (j + 1)) refl,
      )
