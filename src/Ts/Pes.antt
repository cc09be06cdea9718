-- ===== src/Ts/Pes.antt =====
-- container/ts/muxer.go: pesHeader, the header of a packet of an elementary stream. An int64 is
-- its bit pattern, a number below 2 ^ 64.
use yoshiera_huang_livego.Prelude.{ℕ, ◌+◌, ◌-◌, ◌/◌, ◌%◌, ◌^◌, bit_and, bit_or}
use yoshiera_huang_livego.Prelude.{Bool, not, ◌&&◌}
use yoshiera_huang_livego.Prelude.{List, Option, some, ◌>>=◌, length, replicate}
use yoshiera_huang_livego.Prelude.{ltb, ◌==◌, if◌then◌else◌}
use yoshiera_huang_livego.Pio.{byte, shl, store}
use yoshiera_huang_livego.Av.Packet.{Packet}

abbrev pub ts_packet_len : ℕ
ts_packet_len = 188

abbrev pub video_sid : ℕ
video_sid = 0xe0

abbrev pub audio_sid : ℕ
audio_sid = 0xc0

pub record PesHeader : Type 0 where
  pub len : ℕ
  pub bytes : List ℕ

-- `if ts > 0x1ffffffff { ts -= 0x1ffffffff }`
unfoldable pub reduced_ts : ℕ → ℕ
reduced_ts ts = if ltb ts (2 ^ 63) && ltb 0x1ffffffff ts then ts - 0x1ffffffff else ts

-- The three `val` of writeTs, as uint32.
unfoldable pub ts_high : ℕ → ℕ → ℕ
ts_high fb ts = bit_or (bit_or (shl 32 fb 4) (shl 32 (bit_and (ts / 2 ^ 30 % 2 ^ 32) 0x07) 1)) 1

unfoldable pub ts_middle : ℕ → ℕ
ts_middle ts = bit_or (shl 32 (bit_and (ts / 2 ^ 15 % 2 ^ 32) 0x7fff) 1) 1

unfoldable pub ts_low : ℕ → ℕ
ts_low ts = bit_or (shl 32 (bit_and ts 0x7fff % 2 ^ 32) 1) 1

-- writeTs
unfoldable pub write_ts : List ℕ → ℕ → ℕ → ℕ → Option (List ℕ)
unfolding reduced_ts ts_high ts_middle ts_low
write_ts src i fb ts = do
  let ts = reduced_ts ts
  src ← store src i (byte (ts_high fb ts))
  src ← store src (i + 1) (byte (ts_middle ts / 2 ^ 8))
  src ← store src (i + 2) (byte (ts_middle ts))
  src ← store src (i + 3) (byte (ts_low ts / 2 ^ 8))
  store src (i + 4) (byte (ts_low ts))

-- `p.IsVideo && pts != dts`
abbrev pub has_dts : Packet → ℕ → ℕ → Bool
has_dts p pts dts = p.is_video && not (pts == dts)

unfoldable pub pes_flag : Bool → ℕ
pes_flag both = if both then bit_or 0x80 0x40 else 0x80

unfoldable pub pes_header_size : Bool → ℕ
pes_header_size both = if both then 5 + 5 else 5

unfoldable pub pes_size : ℕ → ℕ
pes_size size = if ltb 0xffff size then 0 else size

-- pesHeader.packet, on `var pes pesHeader`
unfoldable pub pes_packet : Packet → ℕ → ℕ → Option PesHeader
unfolding write_ts pes_flag pes_header_size pes_size
pes_packet p pts dts = do
  let b = replicate ts_packet_len 0
  b ← store b 0 0x00
  b ← store b 1 0x00
  b ← store b 2 0x01
  b ← store b 3 (byte (if p.is_video then video_sid else audio_sid))
  let both = has_dts p pts dts
  let size = pes_size (length p.payload + pes_header_size both + 3)
  b ← store b 4 (byte (size / 2 ^ 8))
  b ← store b 5 (byte size)
  b ← store b 6 0x80
  b ← store b 7 (byte (pes_flag both))
  b ← store b 8 (byte (pes_header_size both))
  b ← write_ts b 9 (pes_flag both / 2 ^ 6) pts
  b ← if both then write_ts b 14 1 dts else some b
  some (record { len = byte (if both then 19 else 14); bytes = b })
