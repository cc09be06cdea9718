-- ===== src/Amf/Encoder.antt =====
-- protocol/amf/encoder_amf0.go. Every writer that the program encodes to is a bytes.Buffer, whose
-- Write does not fail; the buffer is the list of the bytes in it.
use yoshiera_huang_livego.Prelude.{
  ℕ, suc, ◌+◌, ◌%◌, ◌^◌, Bool, true, false, Option, none, some, List, [], ◌∷◌, ◌++◌, length, leb,
  if◌then◌else◌,
}
use yoshiera_huang_livego.Rtmp.ReadWriter.Emit.{be_bytes}
use yoshiera_huang_livego.Amf.Value.{
  Value, number, boolean, text, null, object, array, typed_object, integer, opaque, Members,
  no_members, member, Values, no_values, value, count, string_max, AmfError, unsupported_value,
}

-- `n`, `err` and the buffer.
abbrev pub Encoded : Type 0
Encoded = (ℕ × Option AmfError) × List ℕ

-- Some bytes are written.
abbrev pub wrote : List ℕ → List ℕ → Encoded
wrote bs w = ((length bs, none), w ++ bs)

-- `if encodeMarker`
abbrev pub marker : Bool → ℕ → List ℕ
marker true m = m ∷ []
marker false m = []

-- EncodeAmf0Number, EncodeAmf0Boolean, EncodeAmf0String, EncodeAmf0Null, EncodeAmf0LongString
unfoldable pub encode_number : ℕ → Bool → List ℕ → Encoded
encode_number val mark w = wrote (marker mark 0x00 ++ be_bytes 8 val) w

unfoldable pub encode_boolean : Bool → Bool → List ℕ → Encoded
encode_boolean val mark w = wrote (marker mark 0x01 ++ (if val then 0x01 else 0x00) ∷ []) w

unfoldable pub encode_string : List ℕ → Bool → List ℕ → Encoded
encode_string val mark w = wrote (marker mark 0x02 ++ (be_bytes 2 (length val % 2 ^ 16) ++ val)) w

unfoldable pub encode_null : Bool → List ℕ → Encoded
encode_null mark w = wrote (marker mark 0x05) w

unfoldable pub encode_long_string : List ℕ → Bool → List ℕ → Encoded
encode_long_string val mark w =
    wrote (marker mark 0x0c ++ (be_bytes 4 (length val % 2 ^ 32) ++ val)) w

-- The case of a string in EncodeAmf0.
unfoldable pub encode_text : List ℕ → List ℕ → Encoded
encode_text val w =
    if leb (length val) string_max then encode_string val true w else encode_long_string val true w

-- `if err != nil { return n, err }; n += m`, else what follows from `n` on.
abbrev pub go_on : ℕ → Encoded → (ℕ → List ℕ → Encoded) → Encoded
go_on n ((m, some e), w) next = ((n, some e), w)
go_on n ((m, none), w) next = next (n + m) w

-- The end of EncodeAmf0Object: an empty string and the end marker.
unfoldable pub encode_end : ℕ → List ℕ → Encoded
encode_end n w = go_on n (encode_string [] false w) (λ n w. ((n + 1, none), w ++ 0x09 ∷ []))

-- EncodeAmf0, EncodeAmf0Object and EncodeAmf0StrictArray
unfoldable mutual
  pub encode : Value → List ℕ → Encoded
  encode (number x) w = encode_number x true w
  encode (boolean b) w = encode_boolean b true w
  encode (text s) w = encode_text s w
  encode null w = encode_null true w
  encode (object ms) w = encode_members ms 1 (w ++ 0x03 ∷ [])
  encode (array vs) w = encode_values vs 5 (w ++ 0x0a ∷ be_bytes 4 (count vs % 2 ^ 32))
  encode (typed_object t ms) w = ((0, some unsupported_value), w)
  encode (integer x) w = encode_number x true w
  encode opaque w = ((0, some unsupported_value), w)

  pub encode_members : Members → ℕ → List ℕ → Encoded
  encode_members no_members n w = encode_end n w
  encode_members (member k v ms) n w =
      go_on n (encode_string k false w) (λ n w. go_on n (encode v w) (encode_members ms))

  pub encode_values : Values → ℕ → List ℕ → Encoded
  encode_values no_values n w = ((n, none), w)
  encode_values (value v vs) n w = go_on n (encode v w) (encode_values vs)

-- The encoders that EncodeAmf0 does not choose: EncodeAmf0Undefined, EncodeAmf0EcmaArray,
-- EncodeAmf0Unsupported.
unfoldable pub encode_undefined : Bool → List ℕ → Encoded
encode_undefined mark w = wrote (marker mark 0x06) w

abbrev pub count_members : Members → ℕ
count_members no_members = 0
count_members (member k v ms) = suc (count_members ms)

unfoldable pub encode_ecma_array : Members → Bool → List ℕ → Encoded
encode_ecma_array ms mark w =
    let head = marker mark 0x08 ++ be_bytes 4 (count_members ms % 2 ^ 32) in
    go_on (length head) (encode_members ms 0 (w ++ head)) (λ n w. ((n, none), w))

unfoldable pub encode_unsupported : Bool → List ℕ → Encoded
encode_unsupported mark w = wrote (marker mark 0x0d) w
