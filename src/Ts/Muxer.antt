-- ===== src/Ts/Muxer.antt =====
-- container/ts/muxer.go: Muxer and Mux. A byte wraps at 256; the buffer of one packet is kept from
-- round to round. `none` is a panic of the Go run time.
use yoshiera_huang_livego.Prelude.{ℕ, zero, suc, ◌+◌, ◌-◌, ◌*◌, ◌/◌, ◌%◌, ◌^◌, bit_and, bit_or}
use yoshiera_huang_livego.Prelude.{Bool, true, false, ◌&&◌}
use yoshiera_huang_livego.Prelude.{List, Option, none, some, ◌>>=◌, length, replicate, map}
use yoshiera_huang_livego.Prelude.{ltb, leb, ◌==◌, if◌then◌else◌}
use yoshiera_huang_livego.Pio.{byte, store}
use yoshiera_huang_livego.Av.Packet.{Packet}
use yoshiera_huang_livego.Flv.Tag.{Tag, is_key_frame}
use yoshiera_huang_livego.Ts.Buffer.{or_at, copy, from, sub_slice}
use yoshiera_huang_livego.Ts.Pes.{PesHeader, ts_packet_len, pes_packet}

abbrev pub ts_default_data_len : ℕ
ts_default_data_len = 184

abbrev pub h264_default_hz : ℕ
h264_default_hz = 90

abbrev pub video_pid : ℕ
video_pid = 0x100

abbrev pub audio_pid : ℕ
audio_pid = 0x101

-- Muxer
pub record Muxer : Type 0 where
  pub video_cc : ℕ
  pub audio_cc : ℕ
  pub pat_cc : ℕ
  pub pmt_cc : ℕ
  pub pat : List ℕ
  pub pmt : List ℕ
  pub ts_packet : List ℕ

-- NewMuxer
abbrev pub new_muxer : Muxer
new_muxer = record {
  video_cc = 0;
  audio_cc = 0;
  pat_cc = 0;
  pmt_cc = 0;
  pat = replicate ts_packet_len 0;
  pmt = replicate ts_packet_len 0;
  ts_packet = replicate ts_packet_len 0;
}

-- The locals of Mux that do not change in its loop.
pub record Job : Type 0 where
  pub packet : Packet
  pub pes : PesHeader
  pub key : Bool
  pub dts : ℕ

-- The locals that do.
pub record Progress : Type 0 where
  pub first : Bool
  pub w_bytes : ℕ
  pub pes_index : ℕ
  pub pes_header_len : ℕ
  pub packet_bytes_len : ℕ

-- `cc++; if cc > 0xf { cc = 0 }`
unfoldable pub next_cc : ℕ → ℕ
next_cc cc = if ltb 0xf (byte (cc + 1)) then 0 else byte (cc + 1)

unfoldable pub count_packet : Bool → Muxer → Muxer
unfolding next_cc
count_packet true m = record m { video_cc = next_cc m.video_cc }
count_packet false m = record m { audio_cc = next_cc m.audio_cc }

abbrev pub cc_of : Bool → Muxer → ℕ
cc_of true m = m.video_cc
cc_of false m = m.audio_cc

abbrev pub pid_of : Bool → ℕ
pid_of true = video_pid
pid_of false = audio_pid

-- The four bytes of the header.
unfoldable pub write_header : Bool → Bool → ℕ → List ℕ → Option (List ℕ)
write_header is_video first cc b = do
  b ← store b 0 0x47
  b ← store b 1 (byte (pid_of is_video / 2 ^ 8))
  b ← if first then or_at b 1 0x40 else some b
  b ← store b 2 (byte (pid_of is_video))
  store b 3 (bit_or 0x10 (byte (bit_and cc 0x0f)))

-- writePcr
unfoldable pub write_pcr : List ℕ → ℕ → ℕ → Option (List ℕ)
write_pcr b i pcr = do
  b ← store b i (byte (pcr / 2 ^ 25))
  b ← store b (i + 1) (byte (bit_and (pcr / 2 ^ 17) 0xff))
  b ← store b (i + 2) (byte (bit_and (pcr / 2 ^ 9) 0xff))
  b ← store b (i + 3) (byte (bit_and (pcr / 2 ^ 1) 0xff))
  b ← store b (i + 4) (byte (bit_or (bit_and pcr 0x1 * 2 ^ 7) 0x7e))
  store b (i + 5) 0x00

-- The adaptation field with the clock, in the first packet of a key frame; then `i`.
unfoldable pub write_clock : ℕ → List ℕ → Option (ℕ × List ℕ)
unfolding write_pcr
write_clock dts b = do
  b ← or_at b 3 0x20
  b ← store b 4 7
  b ← store b 5 0x50
  b ← write_pcr b 6 dts
  some (12, b)

-- `src[2:]` set to 0xff
abbrev pub blank : List ℕ → List ℕ
blank = map (λ x. 0xff)

-- adaptationBufInit
unfoldable pub adaptation_buf_init : ℕ → List ℕ → Option (List ℕ)
adaptation_buf_init remain src = do
  src ← store src 0 (byte (remain + 255))
  if remain == 1
      then some src
      else (do src ← store src 1 0x00; from src 2 (λ rest. some (blank rest)))

-- `remainBytes`
unfoldable pub remain_bytes : Bool → ℕ → ℕ → ℕ
remain_bytes first data_len i =
    let whole = byte (ts_default_data_len + 256 - data_len) in
    if first then byte (whole + 256 - byte (i + 252)) else whole

-- `dataLen` of a packet that is filled
unfoldable pub full_data_len : Bool → ℕ → ℕ
full_data_len first i =
    if first then byte (ts_default_data_len + 256 - byte (i + 252)) else ts_default_data_len

-- `dataLen`, `i` and the packet behind the comment `frame data`.
unfoldable pub make_room : Bool → ℕ → ℕ → List ℕ → Option (ℕ × ℕ × List ℕ)
unfolding remain_bytes full_data_len adaptation_buf_init
make_room first left i b =
    if leb ts_default_data_len left then some (full_data_len first i, i, b) else (do
      b ← or_at b 3 0x20
      let remain = remain_bytes first (byte left) i
      b ← from b i (adaptation_buf_init remain)
      some (byte left, byte (i + remain), b))

-- `tmpLen` of the PES header, and of the payload.
unfoldable pub room_for : ℕ → ℕ → ℕ
room_for i wanted =
    let tmp = byte (ts_packet_len + 256 - i) in if leb wanted tmp then wanted else tmp

-- The part of the PES header that fits: `dataLen`, `i`, the packet and the progress behind it.
unfoldable pub put_pes : PesHeader → Progress → ℕ → ℕ → List ℕ → Option (ℕ × ℕ × List ℕ × Progress)
put_pes pes s data_len i b =
    if s.first && ltb i ts_packet_len && ltb 0 s.pes_header_len
    then (do
      let tmp = room_for i s.pes_header_len
      piece ← sub_slice pes.bytes s.pes_index (s.pes_index + tmp)
      b ← from b i (λ rest. some (copy rest piece))
      some (
        byte (data_len + 256 - tmp),
        byte (i + tmp),
        b,
        record s {
          packet_bytes_len = s.packet_bytes_len - tmp;
          pes_header_len = byte (s.pes_header_len + 256 - tmp);
          pes_index = s.pes_index + tmp;
        },
      ))
    else some (data_len, i, b, s)

-- The part of the payload.
unfoldable pub put_payload : List ℕ → Progress → ℕ → ℕ → List ℕ → Option (List ℕ × Progress)
put_payload payload s data_len i b =
    if ltb i ts_packet_len
    then (do
      let data_len = room_for i data_len
      piece ← sub_slice payload s.w_bytes (s.w_bytes + data_len)
      b ← from b i (λ rest. some (copy rest piece))
      some (
        b,
        record s {
          w_bytes = s.w_bytes + data_len;
          packet_bytes_len = s.packet_bytes_len - data_len;
        },
      ))
    else some (b, s)

-- A round of the loop up to `w.Write`: what stands in front of the data, and the whole packet.
unfoldable pub write_front : Job → Progress → ℕ → List ℕ → Option (ℕ × ℕ × List ℕ)
write_front job s cc b = do
  b ← write_header job.packet.is_video s.first cc b
  (i, b) ← if s.first && job.packet.is_video && job.key then write_clock job.dts b else some (4, b)
  make_room s.first s.packet_bytes_len i b

unfoldable pub pack_bytes : Job → Progress → ℕ → List ℕ → Option (List ℕ × Progress)
pack_bytes job s cc b = do
  (data_len, i, b) ← write_front job s cc b
  (data_len, i, b, s) ← put_pes job.pes s data_len i b
  put_payload job.packet.payload s data_len i b

unfoldable pub pack : Job → Progress → Muxer → Option (Muxer × Progress)
unfolding count_packet pack_bytes write_front write_header write_clock make_room room_for put_pes
    put_payload
pack job s m = do
  let m = count_packet job.packet.is_video m
  (b, s) ← pack_bytes job s (cc_of job.packet.is_video m) m.ts_packet
  some (record m { ts_packet = b }, record s { first = false })

-- How Mux ends. `halted` stands for a model that runs out of fuel.
pub data Muxed {ℓ} (S E : Type ℓ) : Type ℓ where
  returned : Muxer → S → Option E → Muxed S E
  panicked halted : Muxed S E

module _ {ℓ} {S E : Type ℓ} where
  -- `w.Write(muxer.tsPacket[0:])`, unless w is nil
  unfoldable pub write_packet : Option (List ℕ → S → Option E × S) → List ℕ → S → Option E × S
  write_packet none b s = (none, s)
  write_packet (some write) b s = write b s

  -- What follows a round: an error of the writer ends the loop.
  unfoldable pub after_write : Option E → Muxer → S → Muxed S E → Muxed S E
  after_write (some e) m s rest = returned m s (some e)
  after_write none m s rest = rest

  unfoldable pub after_pack :
      Option (List ℕ → S → Option E × S)
      → Option (Muxer × Progress)
      → S
      → (Progress → Muxer → S → Muxed S E)
      → Muxed S E
  unfolding write_packet after_write
  after_pack w none out rest = panicked
  after_pack w (some (m, s)) out rest =
      let (e, out) = write_packet w m.ts_packet out in after_write e m out (rest s m out)

  unfoldable pub mux_loop :
      Option (List ℕ → S → Option E × S) → ℕ → Job → Progress → Muxer → S → Muxed S E
  unfolding pack after_pack
  mux_loop w zero job s m out = halted
  mux_loop w (suc fuel) job s m out = elim (ltb 0 s.packet_bytes_len) [
    | false ↦ returned m out none
    | true ↦ after_pack w (pack job s m) out (λ s m out. mux_loop w fuel job s m out)
  ]

-- `int64(p.TimeStamp) * int64(h264DefaultHZ)`
abbrev pub dts_of : Packet → ℕ
dts_of p = p.timestamp * h264_default_hz % 2 ^ 64

-- `int64(t)` of an int32
abbrev pub widen : ℕ → ℕ
widen t = if ltb t (2 ^ 31) then t else t + (2 ^ 64 - 2 ^ 32)

unfoldable pub pts_of : Tag → ℕ → ℕ
pts_of tag dts = (dts + widen tag.composition_time * h264_default_hz % 2 ^ 64) % 2 ^ 64

-- `pts` and whether the frame is a key frame. The header of a picture is not tested for nil.
unfoldable pub media_of : Packet → Option (ℕ × Bool)
unfolding pts_of
media_of p =
    if p.is_video
    then (do tag ← p.header; some (pts_of tag (dts_of p), is_key_frame tag))
    else some (dts_of p, false)

unfoldable pub start_job : Packet → Option (Job × Progress)
unfolding media_of
start_job p = do
  (pts, key) ← media_of p
  pes ← pes_packet p pts (dts_of p)
  some (
    record { packet = p; pes = pes; key = key; dts = dts_of p },
    record {
      first = true;
      w_bytes = 0;
      pes_index = 0;
      pes_header_len = pes.len;
      packet_bytes_len = length p.payload + pes.len;
    },
  )

-- Mux. A round takes a byte at least, and the fuel is a round for every byte of a header of 19
-- bytes and of the payload, and one for the test that ends the loop.
unfoldable pub mux {ℓ} :
    {S E : Type ℓ} → Option (List ℕ → S → Option E × S) → Packet → Muxer → S → Muxed S E
unfolding start_job
mux w p m out = elim (start_job p) [
  | none ↦ panicked
  | some (job, s) ↦ mux_loop w (length p.payload + 20) job s m out
]
