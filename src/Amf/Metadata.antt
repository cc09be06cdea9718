-- ===== src/Amf/Metadata.antt =====
-- protocol/amf/metadata.go: the string @setDataFrame in front of metadata. `panicked` is a slice
-- out of range, here or in the decoder, `unfinished` no end of the program.
use yoshiera_huang_livego.Prelude.{ℕ}
use yoshiera_huang_livego.Prelude.{List, [], ◌∷◌, ◌++◌, length, drop, leb, ◌==◌, if◌then◌else◌}
use yoshiera_huang_livego.Amf.Value.{
  Value, number, boolean, text, null, object, array, typed_object, integer, opaque, same_bytes,
  AmfError,
}
use yoshiera_huang_livego.Amf.Encoder.{encode}
use yoshiera_huang_livego.Amf3.Item.{Floats, new_decoder}
use yoshiera_huang_livego.Amf.Version3.{Run, plain}
use yoshiera_huang_livego.Amf.Decoder
use yoshiera_huang_livego.Amf.Decoder.{got, failed, stuck, decode_amf0}

-- ADD and DEL
abbrev pub add_flag : ℕ
add_flag = 0x0

abbrev pub del_flag : ℕ
del_flag = 0x3

-- SetDataFrame, the bytes of "@setDataFrame"
abbrev pub set_data_frame : List ℕ
set_data_frame =
    0x40 ∷ 0x73 ∷ 0x65 ∷ 0x74 ∷ 0x44 ∷ 0x61 ∷ 0x74 ∷ 0x61 ∷ 0x46 ∷ 0x72 ∷ 0x61 ∷ 0x6d ∷ 0x65 ∷ []

-- setFrameFrame, as init sets it.
unfoldable pub set_frame_frame : List ℕ
set_frame_frame = (encode (text set_data_frame) []).1

pub data Reformed : Type 0 where
  reformed : List ℕ → Reformed
  refused : AmfError → Reformed
  no_text panicked unfinished : Reformed
  invalid_flag : ℕ → Reformed

-- `if vv != SetDataFrame`
abbrev pub add_frame : List ℕ → List ℕ → Reformed
add_frame p vv =
    if same_bytes vv set_data_frame then reformed p else reformed (set_frame_frame ++ p)

-- `if vv == SetDataFrame`
abbrev pub del_frame : List ℕ → List ℕ → Reformed
del_frame p vv =
    if same_bytes vv set_data_frame
    then (if leb (length set_frame_frame) (length p)
        then reformed (drop (length set_frame_frame) p)
        else panicked)
    else reformed p

-- `switch v.(type)` on the first value
abbrev pub on_text : (List ℕ → Reformed) → Run Value → Reformed
on_text next (got (text vv) r, s) = next vv
on_text next (got (number x) r, s) = no_text
on_text next (got (boolean b) r, s) = no_text
on_text next (got null r, s) = no_text
on_text next (got (object ms) r, s) = no_text
on_text next (got (array vs) r, s) = no_text
on_text next (got (typed_object t ms) r, s) = no_text
on_text next (got (integer x) r, s) = no_text
on_text next (got opaque r, s) = no_text
on_text next (failed e, s) = refused e
on_text next (Decoder.panicked, s) = panicked
on_text next (stuck, s) = unfinished

-- MetaDataReform, with a Decoder of its own that has no handlers
module _ (f : Floats) where
  unfoldable pub meta_data_reform : List ℕ → ℕ → Reformed
  meta_data_reform p flag =
      if flag == add_flag
      then on_text (add_frame p) (decode_amf0 (plain f) new_decoder p)
      else if flag == del_flag
      then on_text (del_frame p) (decode_amf0 (plain f) new_decoder p)
      else invalid_flag flag
