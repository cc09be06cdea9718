-- ===== src/Amf/Value.antt =====
-- protocol/amf/const.go, encoder.go: the values, and the markers of version 0. A number is the bit
-- pattern of its float64, an integer that is encoded has been converted to one. An Object is a
-- map, given by its members in the order in which it is walked.
pub use yoshiera_huang_livego.Prelude.Text.{same_bytes}
use yoshiera_huang_livego.Prelude.{ℕ, suc, Bool, List, if◌then◌else◌}

-- `integer` is an integer of Go that is no float64, given by its conversion to one, and `opaque` a value
-- that EncodeAmf0 does not take, such as a time: only version 3 decodes to them.
mutual
  pub data Value : Type 0 where
    number : ℕ → Value
    boolean : Bool → Value
    text : List ℕ → Value
    null : Value
    object : Members → Value
    array : Values → Value
    typed_object : List ℕ → Members → Value
    integer : ℕ → Value
    opaque : Value

  pub data Members : Type 0 where
    no_members : Members
    member : List ℕ → Value → Members → Members

  pub data Values : Type 0 where
    no_values : Values
    value : Value → Values → Values

abbrev pub string_max : ℕ
string_max = 65535

-- The errors, without the words that the callers put in front of them.
pub data AmfError : Type 0 where
  eof unexpected_eof short_read unsupported_value : AmfError
  unsupported_type bad_boolean : ℕ → AmfError
  bad_marker : ℕ → ℕ → AmfError
  out_of_range : ℕ → AmfError
  wrong_reference associative_array not_an_object : AmfError
  no_handler : List ℕ → AmfError
  unsupported_version : ℕ → AmfError

-- len(arr)
abbrev pub count : Values → ℕ
count no_values = 0
count (value v vs) = suc (count vs)

-- `result[key] = value`
abbrev pub assign : List ℕ → Value → Members → Members
assign k v no_members = member k v no_members
assign k v (member k' v' ms) =
    if same_bytes k k' then member k v ms else member k' v' (assign k v ms)
