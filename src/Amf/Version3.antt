-- ===== src/Amf/Version3.antt =====
-- protocol/amf/decoder_amf0.go: what DecodeAmf0 does at the marker 0x11, where version 3 goes on. How a decoder
-- of either version ends, and the Go values that version 3 gives.
use yoshiera_huang_livego.Prelude.{ℕ, Option, none, List, [], ◌∷◌}
use yoshiera_huang_livego.Amf.Value.{
  Value, number, boolean, text, null, object, array, typed_object, integer, opaque, Members,
  no_members, member, Values, no_values, value, AmfError,
}
use yoshiera_huang_livego.Amf3.Item
use yoshiera_huang_livego.Amf3.Item.{Item, Items, Fields, Refs, Floats}
use yoshiera_huang_livego.Amf3.Reader
use yoshiera_huang_livego.Amf3.Reader.{Ended, Reads}
use yoshiera_huang_livego.Amf3.Decoder.{decode_amf3}

-- What DecodeAmf3 takes from outside: the operations on float64, and the handlers of external classes
-- that are registered.
pub record Setup : Type 0 where
  pub floats : Floats
  pub handlers : List ℕ → Option (Reads Item)

-- A Decoder without handlers, as `&Decoder{}`.
abbrev pub plain : Floats → Setup
plain f = record { floats = f; handlers = λ class. none }

-- How a decoder ends: a result and the bytes that are left, an error, or a panic. `stuck` is no end
-- of the program: the fuel was used up.
pub data Decoded (A : Type 0) : Type 0 where
  got : A → List ℕ → Decoded A
  failed : AmfError → Decoded A
  panicked stuck : Decoded A

-- With the caches as they are then.
abbrev pub Run : Type 0 → Type 0
Run A = Decoded A × Refs

-- The elements of a slice of bytes.
abbrev byte_values : Floats → List ℕ → Values
byte_values f [] = no_values
byte_values f (b ∷ bs) = value (integer (f.of_unsigned b)) (byte_values f bs)

-- The value of version 3; a slice of bytes is the array of its bytes.
unfoldable mutual
  pub value_of : Floats → Item → Value
  value_of f Item.nothing = null
  value_of f (Item.truth b) = boolean b
  value_of f (Item.signed n) = integer (f.of_signed n)
  value_of f (Item.unsigned n) = integer (f.of_unsigned n)
  value_of f (Item.signed64 n) = integer (f.of_signed n)
  value_of f (Item.unsigned64 n) = integer (f.of_unsigned n)
  value_of f (Item.double x) = number x
  value_of f (Item.chars s) = text s
  value_of f (Item.bytes bs) = array (byte_values f bs)
  value_of f (Item.date t) = opaque
  value_of f (Item.list vs) = array (values_of f vs)
  value_of f (Item.map_of fs) = object (members_of f fs)
  value_of f (Item.typed t fs) = typed_object t (members_of f fs)
  value_of f Item.other_map = opaque
  value_of f Item.other = opaque

  pub values_of : Floats → Items → Values
  values_of f Item.no_items = no_values
  values_of f (Item.item v vs) = value (value_of f v) (values_of f vs)

  pub members_of : Floats → Fields → Members
  members_of f Item.no_fields = no_members
  members_of f (Item.field k v fs) = member k (value_of f v) (members_of f fs)

-- `d.DecodeAmf3(r)`
abbrev pub from_amf3 : Floats → Refs → Ended Item → Run Value
from_amf3 f s (Reader.done v s' r) = (got (value_of f v) r, s')
from_amf3 f s (Reader.failed e s') = (failed e, s')
from_amf3 f s Reader.panicked = (panicked, s)
from_amf3 f s Reader.stuck = (stuck, s)

unfoldable pub decode_version3 : Setup → Refs → List ℕ → Run Value
decode_version3 d s r = from_amf3 d.floats s (decode_amf3 d.floats d.handlers s r)
