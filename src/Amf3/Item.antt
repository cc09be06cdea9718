-- ===== src/Amf3/Item.antt =====
-- protocol/amf/encoder.go, decoder.go: the Go values that version 3 takes and gives, and the caches
-- of a Decoder. A signed integer is its bit pattern of 64 bits, a float64 its bit pattern, a time the
-- int64 of its seconds. An Object is a map, given by its fields in the order of a walk over it.
use yoshiera_huang_livego.Prelude.{ℕ, suc, Bool, List, [], if◌then◌else◌}
use yoshiera_huang_livego.Prelude.Text.{same_bytes}

mutual
  pub data Item : Type 0 where
    nothing : Item
    truth : Bool → Item
    signed unsigned signed64 unsigned64 double : ℕ → Item
    chars bytes : List ℕ → Item
    date : ℕ → Item
    list : Items → Item
    map_of : Fields → Item
    typed : List ℕ → Fields → Item
    other_map other : Item

  pub data Items : Type 0 where
    no_items : Items
    item : Item → Items → Items

  pub data Fields : Type 0 where
    no_fields : Fields
    field : List ℕ → Item → Fields → Fields

-- len(arr), len(val.Object)
abbrev pub count_items : Items → ℕ
count_items no_items = 0
count_items (item v vs) = suc (count_items vs)

abbrev pub count_fields : Fields → ℕ
count_fields no_fields = 0
count_fields (field k v fs) = suc (count_fields fs)

-- `obj[key] = val`
abbrev pub assign : List ℕ → Item → Fields → Fields
assign k v no_fields = field k v no_fields
assign k v (field k' v' fs) = if same_bytes k k' then field k v fs else field k' v' (assign k v fs)

-- Trait
pub record Trait : Type 0 where
  pub class : List ℕ
  pub externalizable : Bool
  pub dynamic : Bool
  pub properties : List (List ℕ)

-- The caches of Decoder: stringRefs, objectRefs, traitRefs.
pub record Refs : Type 0 where
  pub strings : List (List ℕ)
  pub objects : List Item
  pub traits : List Trait

-- NewDecoder
abbrev pub new_decoder : Refs
new_decoder = record { strings = []; objects = []; traits = [] }

-- What the code does with float64: `float64(n)` of an int64 and of a uint64, `int64(x/1000)` and
-- `float64(n) * 1000.0`.
pub record Floats : Type 0 where
  pub of_signed : ℕ → ℕ
  pub of_unsigned : ℕ → ℕ
  pub seconds : ℕ → ℕ
  pub millis : ℕ → ℕ
