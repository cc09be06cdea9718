-- ===== src/Flv/Demuxer/Outcomes.antt =====
-- How Demux ends, by the bytes of the packet.
use yoshiera_huang_livego.Prelude.{ℕ, ◌+◌, ◌*◌, ◌/◌, ◌%◌, ◌^◌, ◌<◌, ◌≡◌, refl, arith}
use yoshiera_huang_livego.Prelude.{
  Bool, true, false, ◌&&◌, ◌||◌, none, some, ◌>>=◌, List, [], ◌∷◌, length, All,
}
use yoshiera_huang_livego.Prelude.{◌==◌, if◌then◌else◌}
use yoshiera_huang_livego.Prelude.Bits.{bit_and-mod}
use yoshiera_huang_livego.Av.Packet.{Packet}
use yoshiera_huang_livego.Flv.Tag.{
  Tag, invalid_audio_data, invalid_video_data, zero_tag, parse_media_tag_header, add_time,
  sound_flags, sound_packet_type, picture_flags, picture_time, parse_audio_header,
  parse_video_header,
}
use yoshiera_huang_livego.Flv.Demuxer.{
  bad_tag, avc_end_seq, Demuxed, with_parsed, ends_sequence, cut_header, demux,
}

-- The header of sound, from its first byte.
abbrev pub sound_tag : ℕ → Tag
sound_tag b = record zero_tag {
  sound_format = b / 16;
  sound_rate = b / 4 % 4;
  sound_size = b / 2 % 2;
  sound_type = b % 2;
}

abbrev pub picture_tag : ℕ → Tag
picture_tag b = record zero_tag { frame_type = b / 16; codec_id = b % 16 }

abbrev pub kept : Packet → Tag → List ℕ → Demuxed
kept p tag rest = some (none, record p { header = some tag; payload = rest })

-- Sound: the format 10 (AAC) has a second byte in its header.
abbrev pub sound_outcome : Packet → List ℕ → Demuxed
sound_outcome p [] = some (some (bad_tag (invalid_audio_data 0)), p)
sound_outcome p (b ∷ []) = if b / 16 == 10 then none else kept p (sound_tag b) []
sound_outcome p (b ∷ kind ∷ rest) =
    if b / 16 == 10
    then kept p (record (sound_tag b) { aac_packet_type = kind }) rest
    else kept p (sound_tag b) (kind ∷ rest)

-- Pictures: the frame types 1 and 2 have five bytes of header, of which three are the time.
abbrev pub picture_outcome : Packet → List ℕ → Demuxed
picture_outcome p (b ∷ kind ∷ b2 ∷ b3 ∷ b4 ∷ rest) =
    if (b == 0x17) && (kind == 2)
    then some (some avc_end_seq, p)
    else if (b / 16 == 1) || (b / 16 == 2)
    then kept p
        (record (picture_tag b) {
          avc_packet_type = kind;
          composition_time = b2 * 2 ^ 16 + b3 * 2 ^ 8 + b4;
        })
        rest
    else kept p (picture_tag b) (kind ∷ b2 ∷ b3 ∷ b4 ∷ rest)
picture_outcome p b = some (some (bad_tag (invalid_video_data (length b))), p)

abbrev pub outcome : Packet → Bool → List ℕ → Demuxed
outcome p false b = sound_outcome p b
outcome p true b = picture_outcome p b

abbrev pub IsByte : ℕ → Type 0
IsByte b = b < 256

sound_flags_lem : (b : ℕ) → sound_flags b zero_tag ≡ sound_tag b
unfolding sound_flags
sound_flags_lem b = (λ i. record zero_tag {
  sound_format = b / 16;
  sound_rate = bit_and-mod 2 (b / 4) i;
  sound_size = bit_and-mod 1 (b / 2) i;
  sound_type = bit_and-mod 1 b i;
})

picture_flags_lem : (b : ℕ) → picture_flags b zero_tag ≡ picture_tag b
unfolding picture_flags
picture_flags_lem b = (λ i. record zero_tag { frame_type = b / 16; codec_id = bit_and-mod 4 b i })

sound :
    (p : Packet) (b : List ℕ)
    → (parse_audio_header b zero_tag >>= with_parsed (record p { payload = b }))
      ≡ sound_outcome (record p { payload = b }) b
unfolding parse_audio_header sound_packet_type with_parsed cut_header
sound p [] = refl
sound p (b ∷ []) = rw (sound_flags_lem b) (ground arith)
sound p (b ∷ kind ∷ rest) = rw (sound_flags_lem b) (ground arith)

picture :
    (p : Packet) (b : List ℕ)
    → All IsByte b
    → (parse_video_header b zero_tag >>= with_parsed (record p { payload = b }))
      ≡ picture_outcome (record p { payload = b }) b
unfolding parse_video_header picture_time with_parsed ends_sequence cut_header
picture p [] h = refl
picture p (_ ∷ []) h = refl
picture p (_ ∷ _ ∷ []) h = refl
picture p (_ ∷ _ ∷ _ ∷ []) h = refl
picture p (_ ∷ _ ∷ _ ∷ _ ∷ []) h = refl
picture p (b ∷ kind ∷ b2 ∷ b3 ∷ b4 ∷ rest) h =
    let time : add_time (add_time (add_time 0 b2) b3) b4 ≡ b2 * 2 ^ 16 + b3 * 2 ^ 8 + b4 =
      omega arith in
    rw (picture_flags_lem b, time) (ground arith)

of_kind :
    (p : Packet) (is_video : Bool)
    → All IsByte p.payload
    → (parse_media_tag_header p.payload is_video zero_tag >>= with_parsed p)
      ≡ outcome p is_video p.payload
unfolding parse_media_tag_header
of_kind p true h = picture p p.payload h
of_kind p false h = sound p p.payload

-- For a packet of bytes, Demux ends as `outcome` says for its kind and its bytes: too few bytes are
-- an error that leaves the packet alone, the end of an AVC sequence is one too, and else the fields
-- of the header are those bits of the first bytes that the format gives them, the composition time
-- is the big-endian number in three bytes, and the header is cut off. It panics where sound is one
-- byte that announces AAC.
pub demux-outcome : (p : Packet) → All IsByte p.payload → demux p ≡ outcome p p.is_video p.payload
unfolding demux
demux-outcome p h = of_kind p p.is_video h
