-- ===== src/Flv/Tag.antt =====
-- container/flv/tag.go: the header of the media in a tag. `none` is a panic.
use yoshiera_huang_livego.Prelude.{
  ℕ, ◌+◌, ◌*◌, ◌/◌, ◌%◌, ◌^◌, bit_and, Bool, true, false, ◌&&◌, ◌||◌,
}
use yoshiera_huang_livego.Prelude.{
  Option, none, some, ◌>>=◌, List, length, ltb, ◌==◌, if◌then◌else◌,
}
use yoshiera_huang_livego.Pio.{at}
use yoshiera_huang_livego.Av.{sound_aac, frame_key, frame_inter, avc_seq_header}

-- mediaTag. flvTag is never set.
pub record Tag : Type 0 where
  pub sound_format : ℕ
  pub sound_rate : ℕ
  pub sound_size : ℕ
  pub sound_type : ℕ
  pub aac_packet_type : ℕ
  pub frame_type : ℕ
  pub codec_id : ℕ
  pub avc_packet_type : ℕ
  pub composition_time : ℕ

-- `var tag Tag`
abbrev pub zero_tag : Tag
zero_tag = record {
  sound_format = 0;
  sound_rate = 0;
  sound_size = 0;
  sound_type = 0;
  aac_packet_type = 0;
  frame_type = 0;
  codec_id = 0;
  avc_packet_type = 0;
  composition_time = 0;
}

-- IsKeyFrame and IsSeq
unfoldable pub is_key_frame : Tag → Bool
is_key_frame tag = tag.frame_type == frame_key

unfoldable pub is_seq : Tag → Bool
is_seq tag = (tag.frame_type == frame_key) && (tag.avc_packet_type == avc_seq_header)

pub data TagError : Type 0 where
  invalid_audio_data invalid_video_data : ℕ → TagError

-- The results `n` and `err` and the tag.
abbrev pub Parsed : Type 0
Parsed = Option ((ℕ × Option TagError) × Tag)

-- The fields of the first byte of sound.
unfoldable pub sound_flags : ℕ → Tag → Tag
sound_flags flags tag = record tag {
  sound_format = flags / 2 ^ 4;
  sound_rate = bit_and (flags / 2 ^ 2) 0x3;
  sound_size = bit_and (flags / 2 ^ 1) 0x1;
  sound_type = bit_and flags 0x1;
}

-- `switch tag.mediat.soundFormat`. `b[1]` is not tested against the length.
unfoldable pub sound_packet_type : List ℕ → Tag → Parsed
sound_packet_type b tag =
    if tag.sound_format == sound_aac
    then (do kind ← at b 1; some ((2, none), record tag { aac_packet_type = kind }))
    else some ((1, none), tag)

-- parseAudioHeader
unfoldable pub parse_audio_header : List ℕ → Tag → Parsed
parse_audio_header b tag =
    if ltb (length b) 1
    then some ((0, some (invalid_audio_data (length b))), tag)
    else (do flags ← at b 0; sound_packet_type b (sound_flags flags tag))

-- A round of the loop over b[2:5]: `compositionTime<<8 + int32(b[i])`, on 32 bits.
abbrev pub add_time : ℕ → ℕ → ℕ
add_time time b = (time * 2 ^ 8 + b) % 2 ^ 32

-- The fields of the first byte of a picture.
unfoldable pub picture_flags : ℕ → Tag → Tag
picture_flags flags tag = record tag { frame_type = flags / 2 ^ 4; codec_id = bit_and flags 0xf }

-- The packet type and the composition time of a key frame or an inter frame.
unfoldable pub picture_time : List ℕ → Tag → Parsed
picture_time b tag =
    if (tag.frame_type == frame_inter) || (tag.frame_type == frame_key)
    then (do
      kind ← at b 1
      b2 ← at b 2
      b3 ← at b 3
      b4 ← at b 4
      some (
        (5, none),
        record tag {
          avc_packet_type = kind;
          composition_time = add_time (add_time (add_time tag.composition_time b2) b3) b4;
        },
      ))
    else some ((1, none), tag)

-- parseVideoHeader
unfoldable pub parse_video_header : List ℕ → Tag → Parsed
parse_video_header b tag =
    if ltb (length b) 5
    then some ((0, some (invalid_video_data (length b))), tag)
    else (do flags ← at b 0; picture_time b (picture_flags flags tag))

-- ParseMediaTagHeader
unfoldable pub parse_media_tag_header : List ℕ → Bool → Tag → Parsed
parse_media_tag_header b false tag = parse_audio_header b tag
parse_media_tag_header b true tag = parse_video_header b tag
