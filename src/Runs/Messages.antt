-- ===== src/Runs/Messages.antt =====
-- An AMF value encoded and decoded, and metadata.
use yoshiera_huang_livego.Prelude.{ℕ, ◌*◌, ◌/◌, ◌≡◌, ◌≢◌, refl, arith}
use yoshiera_huang_livego.Prelude.{true, none, List, [], ◌∷◌, ◌++◌, length}
use yoshiera_huang_livego.Amf.Value.{
  Value, number, boolean, text, null, object, array, no_members, member, no_values, value,
}
use yoshiera_huang_livego.Amf.Encoder.{encode}
use yoshiera_huang_livego.Amf.Decoder.{got, stuck, decode_amf0}
use yoshiera_huang_livego.Amf.Version3.{plain}
use yoshiera_huang_livego.Amf3.Item.{Floats, new_decoder}
use yoshiera_huang_livego.Amf.Format.{IsEncodable}
use yoshiera_huang_livego.Amf.Maps.{IsMap}
use yoshiera_huang_livego.Amf.RoundTrip.{decode-encode}
use yoshiera_huang_livego.Amf.Termination.{no_handlers, decode_ends}
use yoshiera_huang_livego.Amf.Metadata.{
  add_flag, del_flag, set_frame_frame, reformed, meta_data_reform,
}
use yoshiera_huang_livego.Amf.Reform.{text_bytes, meta_data_reform_round_trip}

-- Floats in which a number is its own bit pattern.
abbrev floats : Floats
floats = record {
  of_signed = λ n. n;
  of_unsigned = λ n. n;
  seconds = λ x. x / 1000;
  millis = λ n. n * 1000;
}

abbrev command : Value
command = object (
    member (97 ∷ []) (number 0x3ff0000000000000) (
      member (98 ∷ []) (array (value (text (104 ∷ 105 ∷ [])) (value null no_values)))
        (member (99 ∷ []) (boolean true) no_members)))

command-IsEncodable : IsEncodable command
unfolding IsEncodable
command-IsEncodable = (
  omega arith,
  omega arith,
  omega arith,
  (
    omega arith,
    omega arith,
    (omega arith, (omega arith, (tt, tt))),
    (omega arith, omega arith, tt, tt),
  ),
)

command-IsMap : IsMap command
unfolding IsMap
command-IsMap = ((refl, (refl, tt)), tt, ((refl, tt), (tt, (tt, tt)), (tt, tt, tt)))

decode-encode_example :
    (bs : List ℕ) × (encode command [] ≡ ((length bs, none), [] ++ bs))
    × (decode_amf0 (plain floats) new_decoder (bs ++ (5 ∷ []))
        ≡ (got command (5 ∷ []), new_decoder))
decode-encode_example =
    decode-encode (plain floats) new_decoder command [] (5 ∷ []) command-IsEncodable command-IsMap
      (omega arith)

-- An object whose member is an array of version 3, whose header is a reference to an object that is not there.
decode_ends_example :
    (decode_amf0 (plain floats) new_decoder (3 ∷ 0 ∷ 1 ∷ 97 ∷ 0x11 ∷ 9 ∷ 2 ∷ [])).0 ≢ stuck
decode_ends_example =
    decode_ends (plain floats) (no_handlers floats) new_decoder (3 ∷ 0 ∷ 1 ∷ 97 ∷ 0x11 ∷ 9 ∷ 2 ∷ [])

abbrev on_meta : List ℕ
on_meta = 111 ∷ 110 ∷ 77 ∷ 101 ∷ 116 ∷ 97 ∷ []

abbrev meta : List ℕ
meta = text_bytes on_meta ++ (5 ∷ [])

meta_data_reform_round_trip_example :
    (meta_data_reform floats meta add_flag ≡ reformed (set_frame_frame ++ meta))
    × (meta_data_reform floats (set_frame_frame ++ meta) add_flag
        ≡ reformed (set_frame_frame ++ meta))
    × (meta_data_reform floats (set_frame_frame ++ meta) del_flag ≡ reformed meta)
    × (meta_data_reform floats meta del_flag ≡ reformed meta)
meta_data_reform_round_trip_example =
    meta_data_reform_round_trip floats on_meta (5 ∷ []) (omega arith) (omega arith) refl
