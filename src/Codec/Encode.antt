-- ===== src/Codec/Encode.antt =====
-- `_encode_value` and `_encode_dataclass` of
-- .local/lib/monitor-controller/monitor_controller/codec.py.
use Prim.Native.String.{String, count, [] as empty, ◌∷◌ as push}
use Prim.Native.Char.{code}
use desktop_config.Codec.Values.{Values, Fields, Default, Json, Items, Members, Integer}
use desktop_config.Prelude.{
  Bool, Result, String, decimal, err, false, if◌then◌else◌, leb, nat_eq, not, ok, value_error, ℕ,
  ◌&&◌, ◌+◌, ◌<>◌, ◌==◌, ◌>>=◌, ◌||◌,
}
use desktop_config.Codec.Values.{
  Default, Fields, Integer, Items, Json, Members, Value, Values, value_eq,
}

-- `MAX_JSON_INTEGER` and `MAX_STRING_LENGTH`
abbrev pub max_json_integer : ℕ
max_json_integer = 9007199254740991

abbrev pub max_string_length : ℕ
max_string_length = 65536

has_nul : String → Bool
has_nul empty = false
has_nul (push c s) = code c == 0 || has_nul s

-- `_strict_string` of a string: whether it is short enough, and has no NUL character.
unfoldable pub is_strict : String → Bool
unfolding has_nul
is_strict s = leb (count s) max_string_length && not (has_nul s)

-- `-MAX_JSON_INTEGER <= value <= MAX_JSON_INTEGER`
unfoldable pub in_range : Integer → Bool
in_range (Integer.pos n) = leb n max_json_integer
in_range (Integer.negsuc n) = leb (n + 1) max_json_integer

-- `_strict_string`
unfoldable pub strict_string : String → String → Result String
unfolding is_strict
strict_string s path =
    if leb (count s) max_string_length
    then (if has_nul s then err (value_error (path <> " contains a NUL byte")) else ok s)
    else err (value_error (path <> " string is too long"))

-- Whether a field of the codec's optional ones has its default
unfoldable pub is_omitted : Value → Default → Bool
is_omitted v Default.required = false
is_omitted v (Default.optional w) = v == w

unfoldable mutual
  pub encode_value : Value → String → Result Json
  encode_value Value.none path = ok Json.null
  encode_value (Value.bool b) path = ok (Json.bool b)
  encode_value (Value.int i) path =
      if in_range i
      then ok (Json.int i)
      else err (value_error (path <> " integer is outside the supported range"))
  encode_value (Value.str s) path = strict_string s path >>= λ text. ok (Json.str text)
  encode_value (Value.uuid s) path = ok (Json.str s)
  encode_value (Value.member s) path = ok (Json.str s)
  encode_value (Value.tuple vs) path = encode_items vs path 0 >>= λ items. ok (Json.array items)
  encode_value (Value.frozenset vs) path = encode_items vs path 0 >>= λ items. ok (Json.array items)
  encode_value (Value.instance_of fs) path = encode_fields fs path >>= λ ms. ok (Json.object ms)

  -- Of an error's path, the index of a frozenset's member is the model's.
  pub encode_items : Values → String → ℕ → Result Items
  encode_items Values.nil path index = ok Items.nil
  encode_items (Values.cons v vs) path index =
      encode_value v (path <> "[" <> decimal index <> "]") >>= λ item.
      encode_items vs path (index + 1) >>= λ items. ok (Items.cons item items)

  -- `_encode_dataclass`
  pub encode_fields : Fields → String → Result Members
  encode_fields Fields.end path = ok Members.end
  encode_fields (Fields.field name v default fs) path =
      let later = encode_fields fs path in
      if is_omitted v default
      then later
      else encode_value v (path <> "." <> name) >>= λ member.
          later >>= λ members. ok (Members.pair name member members)
