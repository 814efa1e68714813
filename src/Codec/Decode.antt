-- ===== src/Codec/Decode.antt =====
-- `_decode_value`, `_decode_union` and `_decode_dataclass` of
-- .local/lib/monitor-controller/monitor_controller/codec.py.
use Prim.Native.String.{String, [] as empty, ◌∷◌ as push}
use Prim.Native.Char.{Char, code}
use desktop_config.Codec.Values.{
  Values, Fields, FieldSchemas, Schema, Default, Json, Items, Members,
}
use desktop_config.Prelude.{
  Bool, List, Option, Result, String, [], decimal, elem, err, false, if◌then◌else◌, is_none, leb,
  nat_eq, none, not, ok, some, string_eq, true, value_error, ℕ, ◌&&◌, ◌+◌, ◌<>◌, ◌==◌, ◌>>=◌, ◌||◌,
  ◌∷◌,
}
use desktop_config.Codec.Encode.{in_range, strict_string}
use desktop_config.Codec.Values.{
  Default, FieldSchemas, Fields, Items, Json, Members, Schema, Value, Values, value_eq,
}

-- The canonical form of a UUID: 36 characters, lower-case hexadecimal digits with dashes between.
uuid_char : ℕ → Char → Bool
uuid_char i c =
    let n = code c in
    if elem i (8 ∷ 13 ∷ 18 ∷ 23 ∷ [])
    then n == b'-'
    else leb b'0' n && leb n b'9' || leb b'a' n && leb n b'f'

is_uuid_from : ℕ → String → Bool
unfolding uuid_char
is_uuid_from i empty = i == 36
is_uuid_from i (push c s) = uuid_char i c && is_uuid_from (i + 1) s

unfoldable pub is_uuid : String → Bool
unfolding is_uuid_from
is_uuid s = is_uuid_from 0 s

-- `result` of the branch for frozensets: as many members as items
unfoldable pub is_among : Value → Values → Bool
is_among v Values.nil = false
is_among v (Values.cons w ws) = v == w || is_among v ws

unfoldable pub is_distinct : Values → Bool
unfolding is_among
is_distinct Values.nil = true
is_distinct (Values.cons v vs) = not (is_among v vs) && is_distinct vs

unfoldable pub decode_items : (Json → String → Result Value) → Items → String → ℕ → Result Values
decode_items decode Items.nil path index = ok Values.nil
decode_items decode (Items.cons item items) path index =
    decode item (path <> "[" <> decimal index <> "]") >>= λ v.
    decode_items decode items path (index + 1) >>= λ vs. ok (Values.cons v vs)

unfoldable pub lookup : String → Members → Option Json
lookup name Members.end = none
lookup name (Members.pair key j ms) = if key == name then some j else lookup name ms

-- `field.name for field in dataclass_fields`
unfoldable pub names_of : FieldSchemas → List String
names_of FieldSchemas.end = []
names_of (FieldSchemas.field name s default fs) = name ∷ names_of fs

-- `actual - allowed`, as a test
unfoldable pub has_unknown : List String → Members → Bool
has_unknown allowed Members.end = false
has_unknown allowed (Members.pair key j ms) = not (elem key allowed) || has_unknown allowed ms

-- `required_missing`, as a test
unfoldable pub lacks_required : FieldSchemas → Members → Bool
unfolding lookup
lacks_required FieldSchemas.end ms = false
lacks_required (FieldSchemas.field name s Default.required fs) ms =
    is_none (lookup name ms) || lacks_required fs ms
lacks_required (FieldSchemas.field name s (Default.optional v) fs) ms = lacks_required fs ms

-- `_decode_union` of `X | None`, with the error of `X`
abbrev pub no_match : {A : Type 0} → String → Result A → Result A
no_match path (ok a) = ok a
no_match path (err (value_error message)) =
    err (value_error (path <> " does not match any permitted schema type: " <> message))
no_match path (err e) = err e

-- The value of a field: decoded, or the default of an optional field that is left out. The last
-- clause is never reached, since a required field is then present.
abbrev pub present_or_default :
    String → Option Json → Default → (Json → Result Value) → Result Value
present_or_default path (some j) default decode = decode j
present_or_default path none (Default.optional v) decode = ok v
present_or_default path none Default.required decode =
    err (value_error (path <> " is missing fields"))

-- The messages leave out the names of unknown and of missing fields.
unfoldable mutual
  pub decode_value : Schema → Json → String → Result Value
  decode_value Schema.str (Json.str s) path = strict_string s path >>= λ text. ok (Value.str text)
  decode_value Schema.str _ path = err (value_error (path <> " must be a string"))
  decode_value Schema.int (Json.int i) path =
      if in_range i
      then ok (Value.int i)
      else err (value_error (path <> " integer is outside the supported range"))
  decode_value Schema.int _ path = err (value_error (path <> " must be an integer"))
  decode_value Schema.bool (Json.bool b) path = ok (Value.bool b)
  decode_value Schema.bool _ path = err (value_error (path <> " must be a boolean"))
  decode_value Schema.uuid (Json.str s) path = strict_string s path >>= λ text.
      if is_uuid text
      then ok (Value.uuid text)
      else err (value_error (path <> " UUID is not in canonical form"))
  decode_value Schema.uuid _ path = err (value_error (path <> " must be a string"))
  decode_value (Schema.enum names) (Json.str s) path = strict_string s path >>= λ text.
      if elem text names
      then ok (Value.member text)
      else err (value_error (path <> " has an invalid enum value"))
  decode_value (Schema.enum names) _ path = err (value_error (path <> " must be a string"))
  decode_value (Schema.tuple s) (Json.array items) path =
      decode_items (decode_value s) items path 0 >>= λ vs. ok (Value.tuple vs)
  decode_value (Schema.tuple s) _ path = err (value_error (path <> " must be an array"))
  decode_value (Schema.frozenset s) (Json.array items) path =
      decode_items (decode_value s) items path 0 >>= λ vs.
      if is_distinct vs
      then ok (Value.frozenset vs)
      else err (value_error (path <> " contains duplicate values"))
  decode_value (Schema.frozenset s) _ path = err (value_error (path <> " must be an array"))
  decode_value (Schema.optional s) Json.null path = ok Value.none
  decode_value (Schema.optional s) j path = no_match path (decode_value s j path)
  decode_value (Schema.dataclass fs check) (Json.object ms) path =
      if has_unknown (names_of fs) ms
      then err (value_error (path <> " has unknown fields"))
      else if lacks_required fs ms
      then err (value_error (path <> " is missing fields"))
      else decode_fields fs ms path >>= λ decoded.
          if check decoded
          then ok (Value.instance_of decoded)
          else err (value_error (path <> " is invalid"))
  decode_value (Schema.dataclass fs check) _ path = err (value_error (path <> " must be an object"))

  pub decode_fields : FieldSchemas → Members → String → Result Fields
  decode_fields FieldSchemas.end ms path = ok Fields.end
  decode_fields (FieldSchemas.field name s default fs) ms path =
      present_or_default path (lookup name ms) default (λ j. decode_value s j (path <> "." <> name))
      >>= λ v. decode_fields fs ms path >>= λ decoded. ok (Fields.field name v default decoded)
