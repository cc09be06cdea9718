-- ===== src/Flv/Demuxer.antt =====
-- container/flv/demuxer.go: the media header of a packet is parsed and cut off. `none` is a panic.
pub mod Outcomes
use yoshiera_huang_livego.Prelude.{
  ℕ, Bool, true, false, Option, none, some, ◌>>=◌, List, length, drop,
}
use yoshiera_huang_livego.Prelude.{leb, ◌==◌, if◌then◌else◌}
use yoshiera_huang_livego.Pio.{at}
use yoshiera_huang_livego.Av.{video_h264}
use yoshiera_huang_livego.Av.Packet.{Packet}
use yoshiera_huang_livego.Flv.Tag.{Tag, TagError, zero_tag, parse_media_tag_header}

pub data DemuxError : Type 0 where
  bad_tag : TagError → DemuxError
  avc_end_seq : DemuxError

abbrev pub Demuxed : Type 0
Demuxed = Option (Option DemuxError × Packet)

unfoldable pub with_parsed_header : Packet → (ℕ × Option TagError) × Tag → Demuxed
with_parsed_header p ((n, some e), tag) = some (some (bad_tag e), p)
with_parsed_header p ((n, none), tag) = some (none, record p { header = some tag })

-- DemuxH
unfoldable pub demux_h : Packet → Demuxed
demux_h p = do
  parsed ← parse_media_tag_header p.payload p.is_video zero_tag
  with_parsed_header p parsed

-- `p.Data[0] == 0x17 && p.Data[1] == 0x02`
unfoldable pub ends_sequence : List ℕ → Option Bool
ends_sequence b = do
  b0 ← at b 0
  if b0 == 0x17 then (do b1 ← at b 1; some (b1 == 0x02)) else some false

-- `p.Data[n:]`, and the header.
unfoldable pub cut_header : Packet → ℕ → Tag → Demuxed
cut_header p n tag =
    if leb n (length p.payload)
    then some (none, record p { header = some tag; payload = drop n p.payload })
    else none

unfoldable pub with_parsed : Packet → (ℕ × Option TagError) × Tag → Demuxed
with_parsed p ((n, some e), tag) = some (some (bad_tag e), p)
with_parsed p ((n, none), tag) =
    if tag.codec_id == video_h264
    then (do
      ends ← ends_sequence p.payload
      if ends then some (some avc_end_seq, p) else cut_header p n tag)
    else cut_header p n tag

-- Demux
unfoldable pub demux : Packet → Demuxed
demux p = do parsed ← parse_media_tag_header p.payload p.is_video zero_tag; with_parsed p parsed
