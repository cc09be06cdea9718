-- ===== src/Amf3/External.antt =====
-- protocol/amf/decoder_amf3_external.go: the classes that encode themselves. `one` decodes a value.
use yoshiera_huang_livego.Prelude.{
  ℕ, zero, suc, ◌+◌, ◌-◌, ◌/◌, ◌%◌, ◌^◌, bit_and, List, [], ◌∷◌, ◌++◌, length, ltb, ◌==◌,
  if◌then◌else◌,
}
use yoshiera_huang_livego.Prelude.Text.{ascii}
use yoshiera_huang_livego.Amf.Value.{eof}
use yoshiera_huang_livego.Amf3.Item.{Item, Fields, no_fields, assign}
use yoshiera_huang_livego.Amf3.Reader.{done, failed, on_done, Reads, ◌>>=◌, give}

-- readFlags
unfoldable pub read_flags : Reads (List ℕ)
read_flags refs [] = failed eof refs
read_flags refs (b ∷ r) =
    let more = on_done (λ flags refs r. done (b ∷ flags) refs r) (read_flags refs r) in
    if bit_and b 0x80 == 0 then done (b ∷ []) refs r else more

-- The loop over the names of a set: the bit of `p` says whether the field is sent.
unfoldable pub read_fields : Reads Item → ℕ → ℕ → List (List ℕ) → Fields → Reads Fields
read_fields one flags p [] obj = give obj
read_fields one flags p (name ∷ names) obj =
    if bit_and flags (2 ^ p) == 0
    then read_fields one flags (p + 1) names obj
    else (do v ← one; read_fields one flags (p + 1) names (assign name v obj))

-- `fmt.Sprintf("%d", n)`
unfoldable pub digits_of : ℕ → ℕ → List ℕ
digits_of zero n = []
digits_of (suc fuel) n =
    let high = digits_of fuel (n / 10) in
    if ltb n 10 then (48 + n) ∷ [] else high ++ (48 + n % 10) ∷ []

abbrev pub decimal : ℕ → List ℕ
decimal n = digits_of (n + 1) n

-- `fmt.Sprintf("extra_%d_%d", i, j)`
abbrev pub extra_name : ℕ → ℕ → List ℕ
extra_name i j = ascii "extra_" ++ (decimal i ++ (ascii "_" ++ decimal j))

-- The loop over the bits behind the names, up to the sixth.
unfoldable pub read_extras : Reads Item → ℕ → ℕ → ℕ → ℕ → Fields → Reads Fields
unfolding digits_of
read_extras one i flags zero j obj = give obj
read_extras one i flags (suc rounds) j obj =
    if bit_and (flags / 2 ^ j) 0x01 == 0
    then read_extras one i flags rounds (j + 1) obj
    else (do v ← one; read_extras one i flags rounds (j + 1) (assign (extra_name i j) v obj))

-- `fieldSets[i]`, if there is one
abbrev pub set_of : List (List (List ℕ)) → List (List ℕ)
set_of [] = []
set_of (s ∷ sets) = s

abbrev pub later_sets : List (List (List ℕ)) → List (List (List ℕ))
later_sets [] = []
later_sets (s ∷ sets) = sets

unfoldable pub read_extra_bits : Reads Item → ℕ → ℕ → ℕ → Fields → Reads Fields
unfolding read_extras
read_extra_bits one i flags reserved obj =
    if flags / 2 ^ reserved == 0
    then give obj
    else read_extras one i flags (6 - reserved) reserved obj

-- The loop over the flags, and decodeExternal
unfoldable pub read_sets : Reads Item → ℕ → List ℕ → List (List (List ℕ)) → Fields → Reads Fields
unfolding read_fields read_extra_bits
read_sets one i [] sets obj = give obj
read_sets one i (flags ∷ rest) sets obj = do
  obj ← read_fields one flags 0 (set_of sets) obj
  obj ← read_extra_bits one i flags (length (set_of sets)) obj
  read_sets one (i + 1) rest (later_sets sets) obj

unfoldable pub decode_external : Reads Item → List (List (List ℕ)) → Fields → Reads Fields
unfolding read_flags read_sets
decode_external one sets obj = do flags ← read_flags; read_sets one 0 flags sets obj

abbrev pub abstract_sets : List (List (List ℕ))
abstract_sets =
    (ascii "body"
      ∷ ascii "clientId"
      ∷ ascii "destination"
      ∷ ascii "headers"
      ∷ ascii "messageId"
      ∷ ascii "timeStamp"
      ∷ ascii "timeToLive"
      ∷ [])
    ∷ (ascii "clientIdBytes" ∷ ascii "messageIdBytes" ∷ [])
    ∷ []

abbrev pub async_sets : List (List (List ℕ))
async_sets = (ascii "correlationId" ∷ ascii "correlationIdBytes" ∷ []) ∷ []

-- decodeAbstractMessage
unfoldable pub decode_abstract_message : Reads Item → Reads Fields
unfolding decode_external
decode_abstract_message one = decode_external one abstract_sets no_fields

-- decodeAsyncMessage, decodeAsyncMessageExt
unfoldable pub decode_async_message : Reads Item → Reads Fields
unfolding decode_abstract_message decode_external
decode_async_message one = do obj ← decode_abstract_message one; decode_external one async_sets obj

-- decodeAcknowledgeMessage, decodeAcknowledgeMessageExt
unfoldable pub decode_acknowledge_message : Reads Item → Reads Fields
unfolding decode_async_message decode_external
decode_acknowledge_message one = do obj ← decode_async_message one; decode_external one [] obj

-- decodeArrayCollection
unfoldable pub decode_array_collection : Reads Item → Reads Item
decode_array_collection one = one
