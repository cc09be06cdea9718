-- ===== src/Amf3/Encoder.antt =====
-- protocol/amf/encoder_amf3.go. The writer is a bytes.Buffer, as for version 0.
use yoshiera_huang_livego.Prelude.{
  ℕ, ◌/◌, ◌%◌, ◌^◌, bit_and, bit_or, Bool, true, false, ◌&&◌, none, some, List, [], ◌∷◌, ◌++◌,
  length, leb, ltb, ◌==◌, if◌then◌else◌,
}
use yoshiera_huang_livego.Pio.{byte, shl}
use yoshiera_huang_livego.Rtmp.ReadWriter.Emit.{be_bytes}
use yoshiera_huang_livego.Amf.Value.{unsupported_value, out_of_range, not_an_object}
use yoshiera_huang_livego.Amf.Encoder.{Encoded, wrote, marker, go_on}
use yoshiera_huang_livego.Amf3.Item.{
  Item, nothing, truth, signed, unsigned, signed64, unsigned64, double, chars, bytes, date, list,
  map_of, typed, other_map, other, Items, no_items, item, Fields, no_fields, field, count_items,
  Floats,
}

abbrev pub integer_max : ℕ
integer_max = 536870911

-- encodeAmf3Uint29
unfoldable pub encode_u29 : ℕ → List ℕ → Encoded
encode_u29 val w =
    if leb val 0x7f
    then wrote (byte val ∷ []) w
    else if leb val 0x3fff
    then wrote (byte (bit_or (val / 2 ^ 7) 0x80) ∷ byte (bit_and val 0x7f) ∷ []) w
    else if leb val 0x1fffff
    then wrote
        (byte (bit_or (val / 2 ^ 14) 0x80)
          ∷ byte (bit_or (bit_and (val / 2 ^ 7) 0x7f) 0x80)
          ∷ byte (bit_and val 0x7f)
          ∷ [])
        w
    else if leb val 0x1fffffff
    then wrote
        (byte (bit_or (val / 2 ^ 22) 0x80)
          ∷ byte (bit_or (bit_and (val / 2 ^ 15) 0x7f) 0x80)
          ∷ byte (bit_or (bit_and (val / 2 ^ 8) 0x7f) 0x80)
          ∷ byte val
          ∷ [])
        w
    else ((0, some (out_of_range val)), w)

-- `uint32(length<<1) | 0x01`
abbrev pub length_u29 : ℕ → ℕ
length_u29 n = bit_or (shl 32 (n % 2 ^ 32) 1) 0x01

-- The last part of what is written, from the count `n` on.
abbrev pub at_last : ℕ → Encoded → Encoded
at_last n e = go_on n e λ n w. ((n, none), w)

-- What follows a loop that counts on by itself.
abbrev pub and_then : Encoded → (ℕ → List ℕ → Encoded) → Encoded
and_then ((n, some e), w) next = ((n, some e), w)
and_then ((n, none), w) next = next n w

-- encodeAmf3Utf8
unfoldable pub encode_utf8 : List ℕ → List ℕ → Encoded
unfolding encode_u29
encode_utf8 val w = go_on 0 (encode_u29 (length_u29 (length val)) w) λ n w. at_last n (wrote val w)

-- `if encodeMarker { … n++ }`, and what is written behind it.
abbrev pub marked : Bool → ℕ → List ℕ → (ℕ → List ℕ → Encoded) → Encoded
marked mark m w next = next (length (marker mark m)) (w ++ marker mark m)

-- EncodeAmf3Undefined, EncodeAmf3Null, EncodeAmf3False, EncodeAmf3True
unfoldable pub encode_undefined : Bool → List ℕ → Encoded
encode_undefined mark w = wrote (marker mark 0x00) w

unfoldable pub encode_null : Bool → List ℕ → Encoded
encode_null mark w = wrote (marker mark 0x01) w

unfoldable pub encode_false : Bool → List ℕ → Encoded
encode_false mark w = wrote (marker mark 0x02) w

unfoldable pub encode_true : Bool → List ℕ → Encoded
encode_true mark w = wrote (marker mark 0x03) w

-- EncodeAmf3Integer, EncodeAmf3Double, EncodeAmf3String
unfoldable pub encode_integer : ℕ → Bool → List ℕ → Encoded
unfolding encode_u29
encode_integer val mark w = marked mark 0x04 w λ n w. at_last n (encode_u29 val w)

unfoldable pub encode_double : ℕ → Bool → List ℕ → Encoded
encode_double val mark w = marked mark 0x05 w λ n w. at_last n (wrote (be_bytes 8 val) w)

unfoldable pub encode_string : List ℕ → Bool → List ℕ → Encoded
unfolding encode_utf8
encode_string val mark w = marked mark 0x06 w λ n w. at_last n (encode_utf8 val w)

-- EncodeAmf3ByteArray
unfoldable pub encode_byte_array : List ℕ → Bool → List ℕ → Encoded
unfolding encode_u29
encode_byte_array val mark w =
    marked mark 0x0c w
      λ n w. go_on n (encode_u29 (length_u29 (length val)) w) λ n w. at_last n (wrote val w)

-- A property of an object: its key and how its value is encoded.
abbrev pub Part : Type 0
Part = List ℕ × (List ℕ → Encoded)

-- The order of strings, byte by byte.
abbrev pub before : List ℕ → List ℕ → Bool
before [] ys = true
before (x ∷ xs) [] = false
before (x ∷ xs) (y ∷ ys) = if x == y then before xs ys else ltb x y

-- `sort.Strings(trait.Properties)`: the keys of a map are all different, so their order is one.
abbrev pub insert_part : Part → List Part → List Part
insert_part p [] = p ∷ []
insert_part p (q ∷ ps) = if before p.0 q.0 then p ∷ q ∷ ps else q ∷ insert_part p ps

abbrev pub sort_parts : List Part → List Part
sort_parts [] = []
sort_parts (p ∷ ps) = insert_part p (sort_parts ps)

-- `u29` of an object that is neither dynamic nor externalizable
abbrev pub trait_u29 : ℕ → ℕ
trait_u29 n = bit_or 0x03 (shl 32 (n % 2 ^ 32) 4)

-- The loops over the properties.
unfoldable pub encode_keys : ℕ → List Part → List ℕ → Encoded
unfolding encode_utf8
encode_keys n [] w = ((n, none), w)
encode_keys n (p ∷ ps) w = go_on n (encode_utf8 p.0 w) λ n w. encode_keys n ps w

unfoldable pub encode_parts : ℕ → List Part → List ℕ → Encoded
encode_parts n [] w = ((n, none), w)
encode_parts n (p ∷ ps) w = go_on n (p.1 w) λ n w. encode_parts n ps w

-- EncodeAmf3Object. A trait is never dynamic or externalizable here.
unfoldable pub encode_object : List ℕ → List Part → Bool → List ℕ → Encoded
unfolding encode_u29 encode_utf8 encode_keys encode_parts
encode_object class parts mark w =
    let parts = sort_parts parts in
    marked mark 0x0a w λ n w. go_on n (encode_u29 (trait_u29 (length parts)) w) λ n w.
      go_on n (encode_utf8 class w)
        λ n w. and_then (encode_keys n parts w) λ n w. encode_parts n parts w

module _ (f : Floats) where
  -- EncodeAmf3Date
  unfoldable pub encode_date : ℕ → Bool → List ℕ → Encoded
  encode_date val mark w =
      marked mark 0x08 w
        λ n w. go_on n (wrote (0x01 ∷ []) w) λ n w. at_last n (wrote (be_bytes 8 (f.millis val)) w)

  -- The cases of integers: an `int` and a `uint` of 32 bits or fewer, or of the machine.
  unfoldable pub encode_signed : ℕ → List ℕ → Encoded
  unfolding encode_integer encode_double
  encode_signed n w =
      if ltb n (2 ^ 63) && leb n integer_max
      then encode_integer n true w
      else encode_double (f.of_signed n) true w

  unfoldable pub encode_unsigned : ℕ → List ℕ → Encoded
  unfolding encode_integer encode_double
  encode_unsigned n w =
      if leb n integer_max then encode_integer n true w else encode_double (f.of_unsigned n) true w

  -- The elements of an array of bytes, each a uint8.
  unfoldable pub encode_bytes : ℕ → List ℕ → List ℕ → Encoded
  unfolding encode_unsigned
  encode_bytes n [] w = ((n, none), w)
  encode_bytes n (b ∷ bs) w = go_on n (encode_unsigned b w) λ n w. encode_bytes n bs w

  -- EncodeAmf3Array, around the loop over its elements
  unfoldable pub encode_array : ℕ → (ℕ → List ℕ → Encoded) → Bool → List ℕ → Encoded
  unfolding encode_u29 encode_utf8
  encode_array len elements mark w = marked mark 0x09 w λ n w.
      go_on n (encode_u29 (length_u29 len) w) λ n w. go_on n (encode_utf8 [] w) λ n w. elements n w

  -- EncodeAmf3
  unfoldable mutual
    pub encode : Item → List ℕ → Encoded
    encode nothing w = encode_null true w
    encode (truth true) w = encode_true true w
    encode (truth false) w = encode_false true w
    encode (signed n) w = encode_signed n w
    encode (unsigned n) w = encode_unsigned n w
    encode (signed64 n) w = encode_double (f.of_signed n) true w
    encode (unsigned64 n) w = encode_double (f.of_unsigned n) true w
    encode (double x) w = encode_double x true w
    encode (chars s) w = encode_string s true w
    encode (bytes bs) w = encode_array (length bs) (λ n w. encode_bytes n bs w) true w
    encode (date t) w = encode_date t true w
    encode (list vs) w = encode_array (count_items vs) (λ n w. encode_items n vs w) true w
    encode (map_of fs) w = encode_object [] (parts_of fs) true w
    encode (typed class fs) w = encode_object class (parts_of fs) true w
    encode other_map w = ((0, some not_an_object), w)
    encode other w = ((0, some unsupported_value), w)

    pub encode_items : ℕ → Items → List ℕ → Encoded
    encode_items n no_items w = ((n, none), w)
    encode_items n (item v vs) w = go_on n (encode v w) λ n w. encode_items n vs w

    pub parts_of : Fields → List Part
    parts_of no_fields = []
    parts_of (field k v fs) = (k, encode v) ∷ parts_of fs
