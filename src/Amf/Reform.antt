-- ===== src/Amf/Reform.antt =====
-- What MetaDataReform adds it takes off again.
use yoshiera_huang_livego.Prelude.{ℕ, ◌^◌, ◌<◌, ◌≡◌, refl, ap, ◌∙◌, arith}
use yoshiera_huang_livego.Prelude.{
  false, List, [], ◌++◌, length, le→leb, length-append, drop-length_append,
}
use yoshiera_huang_livego.Amf.Value.{text, same_bytes}
use yoshiera_huang_livego.Amf.Encoder.{encode}
use yoshiera_huang_livego.Amf.Format.{IsEncodable}
use yoshiera_huang_livego.Amf.Maps.{IsMap}
use yoshiera_huang_livego.Amf.Decoder.{got, decode_amf0}
use yoshiera_huang_livego.Amf3.Item.{Floats, new_decoder}
use yoshiera_huang_livego.Amf.Version3.{plain}
use yoshiera_huang_livego.Amf.RoundTrip.{decode-encode}
use yoshiera_huang_livego.Amf.Metadata.{
  add_flag, del_flag, set_data_frame, set_frame_frame, reformed, add_frame, del_frame, on_text,
  meta_data_reform,
}

-- The encoding of a string.
unfoldable pub text_bytes : List ℕ → List ℕ
text_bytes s = (encode (text s) []).1

module _ (f : Floats) where
  decode_text_bytes :
      (s r : List ℕ)
      → length s < 2 ^ 32
      → 0 < length r
      → decode_amf0 (plain f) new_decoder (text_bytes s ++ r) ≡ (got (text s) r, new_decoder)
  unfolding text_bytes IsEncodable IsMap
  decode_text_bytes s r h more =
      let (bs, e, d) = decode-encode (plain f) new_decoder (text s) [] r h tt more in
      ap (λ x. decode_amf0 (plain f) new_decoder (x.1 ++ r)) e ∙ d

  decode_frame :
      (p : List ℕ)
      → 0 < length p
      → decode_amf0 (plain f) new_decoder (set_frame_frame ++ p)
        ≡ (got (text set_data_frame) p, new_decoder)
  unfolding set_frame_frame text_bytes
  decode_frame p more = decode_text_bytes set_data_frame p (omega arith) more

  del_frame_lem : (p : List ℕ) → del_frame (set_frame_frame ++ p) set_data_frame ≡ reformed p
  del_frame_lem p =
      let inside =
        le→leb (length set_frame_frame) (length (set_frame_frame ++ p))
          (omega (arith, length-append set_frame_frame p)) in
      rw (inside, drop-length_append set_frame_frame p) refl

  -- For metadata that starts with an encoded string other than @setDataFrame and goes on behind
  -- it: ADD puts the encoded @setDataFrame in front, once; DEL takes it off again and changes
  -- nothing where it is not there.
  pub meta_data_reform_round_trip :
      (s r : List ℕ)
      → length s < 2 ^ 32
      → 0 < length r
      → same_bytes s set_data_frame ≡ false
      → let p = text_bytes s ++ r in
        (meta_data_reform f p add_flag ≡ reformed (set_frame_frame ++ p))
        × (meta_data_reform f (set_frame_frame ++ p) add_flag ≡ reformed (set_frame_frame ++ p))
        × (meta_data_reform f (set_frame_frame ++ p) del_flag ≡ reformed p)
        × (meta_data_reform f p del_flag ≡ reformed p)
  unfolding meta_data_reform
  meta_data_reform_round_trip s r h more other =
      let p = text_bytes s ++ r in
      let first = decode_text_bytes s r h more in
      let framed = decode_frame p (omega (arith, length-append (text_bytes s) r)) in
      (
        ap (on_text (add_frame p)) first ∙ rw other refl,
        ap (on_text (add_frame (set_frame_frame ++ p))) framed,
        ap (on_text (del_frame (set_frame_frame ++ p))) framed ∙ del_frame_lem p,
        ap (on_text (del_frame p)) first ∙ rw other refl,
      )
