-- ===== src/Runs/Versions.antt =====
-- AMF version 3: values encoded and decoded.
use mathlib.Core.Path.{subst}
use yoshiera_huang_livego.Prelude.{
  ℕ, ◌-◌, ◌*◌, ◌/◌, ◌^◌, ◌≡◌, ◌≢◌, refl, arith, true, false, Option, none, some, List, [], ◌∷◌,
  ◌++◌, length,
}
use yoshiera_huang_livego.Amf.Value.{wrong_reference}
use yoshiera_huang_livego.Amf3.Item.{
  Item, nothing, truth, signed, double, chars, bytes, date, list, no_items, item, new_decoder,
  Floats,
}
use yoshiera_huang_livego.Amf3.Reader.{
  done, failed, stuck, Reads, give, read_byte, assert_marker, decode_reference, object_at,
}
use yoshiera_huang_livego.Amf3.Encoder.{encode_integer, encode_byte_array, encode}
use yoshiera_huang_livego.Amf3.Decoder.{decode_integer, decode_byte_array, decode_amf3}
use yoshiera_huang_livego.Amf3.Format.{IsPlain}
use yoshiera_huang_livego.Amf3.Reading.{with_object}
use yoshiera_huang_livego.Amf3.RoundTrip.{after, decode_amf3-encode}
use yoshiera_huang_livego.Amf3.Marked.{
  decode_integer-encode_integer, decode_byte_array-encode_byte_array,
}
use yoshiera_huang_livego.Amf3.Takes.{Takes, give-Takes}
use yoshiera_huang_livego.Amf3.Termination.{decode_amf3_ends}

-- Floats in which a number is its own bit pattern.
abbrev floats : Floats
floats = record {
  of_signed = λ n. n;
  of_unsigned = λ n. n;
  seconds = λ x. x / 1000;
  millis = λ n. n * 1000;
}

-- No class of the program's own.
abbrev no_handlers : List ℕ → Option (Reads Item)
no_handlers class = none

abbrev reply : Item
reply = list (
    item (chars (111 ∷ 107 ∷ [])) (
      item (signed 300) (
        item (double 7)
          (item (truth true) (item (date 5) (item (list no_items) (item nothing no_items)))))))

reply-IsPlain : IsPlain floats reply
unfolding IsPlain
reply-IsPlain = (
  omega arith,
  (
    omega arith,
    (omega arith, (omega arith, (tt, ((omega arith, refl), ((omega arith, tt), (tt, tt)))))),
  ),
)

decode_amf3-encode_example :
    (bs : List ℕ) × (encode floats reply [] ≡ ((length bs, none), [] ++ bs))
    × (decode_amf3 floats no_handlers new_decoder (bs ++ (9 ∷ []))
        ≡ done reply (after reply new_decoder) (9 ∷ []))
decode_amf3-encode_example =
    decode_amf3-encode floats no_handlers reply [] new_decoder (9 ∷ []) reply-IsPlain (omega arith)

decode_integer-encode_integer_example :
    (bs : List ℕ) × (encode_integer 536870911 true [] ≡ ((length bs, none), [] ++ bs))
    × (decode_integer true new_decoder (bs ++ (7 ∷ [])) ≡ done (2 ^ 64 - 1) new_decoder (7 ∷ []))
decode_integer-encode_integer_example =
    decode_integer-encode_integer 536870911 true [] new_decoder (7 ∷ []) (omega arith)

decode_byte_array-encode_byte_array_example :
    (bs : List ℕ) × (encode_byte_array (1 ∷ 2 ∷ []) false [] ≡ ((length bs, none), [] ++ bs))
    × (decode_byte_array false new_decoder (bs ++ (7 ∷ []))
        ≡ done (1 ∷ 2 ∷ []) (with_object (bytes (1 ∷ 2 ∷ [])) new_decoder) (7 ∷ []))
decode_byte_array-encode_byte_array_example =
    decode_byte_array-encode_byte_array (1 ∷ 2 ∷ []) false [] new_decoder (7 ∷ []) (omega arith)
      (omega arith)

-- A class whose handler gives null.
abbrev handlers : List ℕ → Option (Reads Item)
handlers class = some (give nothing)

handlers_end :
    (class : List ℕ) (handler : Reads Item)
    → handlers class ≡ some handler
    → (n : ℕ) → Takes 0 n handler
handlers_end class handler e n =
    let given : give nothing ≡ handler = cc in subst (Takes 0 n) given (give-Takes n nothing)

decode_amf3_ends_example :
    decode_amf3 floats handlers new_decoder (10 ∷ 15 ∷ 1 ∷ 3 ∷ 97 ∷ 1 ∷ []) ≢ stuck
decode_amf3_ends_example =
    decode_amf3_ends floats handlers handlers_end new_decoder (10 ∷ 15 ∷ 1 ∷ 3 ∷ 97 ∷ 1 ∷ [])

-- A reference to the third object finds the second: its number is shifted twice.
array_reference :
    decode_amf3 floats no_handlers
      (record new_decoder { objects = nothing ∷ chars [] ∷ list no_items ∷ [] })
      (9 ∷ 4 ∷ [])
    ≡ failed wrong_reference
        (record new_decoder { objects = nothing ∷ chars [] ∷ list no_items ∷ [] })
unfolding decode_amf3 read_byte assert_marker decode_reference object_at
array_reference = refl
