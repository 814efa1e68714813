-- ===== src/Codec/Values.antt =====
-- The values that .local/lib/monitor-controller/monitor_controller/codec.py encodes, the parsed JSON
-- that it makes of them, and the types that it decodes against.
use desktop_config.Prelude.{Bool, Eq, List, String, String-discrete, ℕ, ℕ_discrete}

-- Python's integers
pub data Integer : Type 0 where
  pos negsuc : ℕ → Integer

-- A domain value. A UUID is its canonical text and an enumeration's member its value; a frozenset is
-- its members in the order of their encoded texts, which is the order of its encoding; an instance
-- is its fields, each with its default if the codec may omit it.
mutual
  pub data Value : Type 0 where
    none : Value
    bool : Bool → Value
    int : Integer → Value
    str uuid member : String → Value
    tuple frozenset : Values → Value
    instance_of : Fields → Value

  pub data Values : Type 0 where
    nil : Values
    cons : Value → Values → Values

  pub data Fields : Type 0 where
    end : Fields
    field : String → Value → Default → Fields → Fields

  pub data Default : Type 0 where
    required : Default
    optional : Value → Default

-- Parsed JSON
mutual
  pub data Json : Type 0 where
    null : Json
    bool : Bool → Json
    int : Integer → Json
    str : String → Json
    array : Items → Json
    object : Members → Json

  pub data Items : Type 0 where
    nil : Items
    cons : Json → Items → Items

  pub data Members : Type 0 where
    end : Members
    pair : String → Json → Members → Members

unfoldable pub Value-discrete : Discrete Value
Value-discrete = hlevel (ℕ_discrete, String-discrete)

instance abbrev pub value_eq : Eq Value
value_eq = record { dec = Value-discrete }

-- A type annotation of a field. `dataclass` has the fields of a class and the check of its
-- `__post_init__`; the one union that the state's classes use is `X | None`.
mutual
  pub data Schema : Type 0 where
    str int bool uuid : Schema
    enum : List String → Schema
    tuple frozenset optional : Schema → Schema
    dataclass : FieldSchemas → (Fields → Bool) → Schema

  pub data FieldSchemas : Type 0 where
    end : FieldSchemas
    field : String → Schema → Default → FieldSchemas → FieldSchemas
