-- ===== src/Ts/Tables.antt =====
-- container/ts/muxer.go: PAT and PMT, the two tables.
use yoshiera_huang_livego.Prelude.{ℕ, ◌+◌, ◌/◌, ◌^◌, bit_and}
use yoshiera_huang_livego.Prelude.{Bool, true, false, ◌||◌}
use yoshiera_huang_livego.Prelude.{List, [], ◌∷◌, Option, some, ◌>>=◌, length}
use yoshiera_huang_livego.Prelude.{ltb, ◌==◌, if◌then◌else◌}
use yoshiera_huang_livego.Pio.{byte, store}
use yoshiera_huang_livego.Ts.Buffer.{or_at, copy, from, sub_slice}
use yoshiera_huang_livego.Ts.Crc.{gen_crc32}
use yoshiera_huang_livego.Ts.Muxer.{Muxer, blank}

abbrev pub pat_ts_header : List ℕ
pat_ts_header = 0x47 ∷ 0x40 ∷ 0x00 ∷ 0x10 ∷ 0x00 ∷ []

abbrev pub pat_header : List ℕ
pat_header = 0x00 ∷ 0xb0 ∷ 0x0d ∷ 0x00 ∷ 0x01 ∷ 0xc1 ∷ 0x00 ∷ 0x00 ∷ 0x00 ∷ 0x01 ∷ 0xf0 ∷ 0x01 ∷ []

abbrev pub pmt_ts_header : List ℕ
pmt_ts_header = 0x47 ∷ 0x50 ∷ 0x01 ∷ 0x10 ∷ 0x00 ∷ []

abbrev pub pmt_header : List ℕ
pmt_header = 0x02 ∷ 0xb0 ∷ 0xff ∷ 0x00 ∷ 0x01 ∷ 0xc1 ∷ 0x00 ∷ 0x00 ∷ 0xe1 ∷ 0x00 ∷ 0xf0 ∷ 0x00 ∷ []

-- `if cc > 0xf { cc = 0 }`, in front of the use of the counter
unfoldable pub wrapped_cc : ℕ → ℕ
wrapped_cc cc = if ltb 0xf cc then 0 else cc

-- The four bytes of the checksum, from b[i] on.
unfoldable pub put_crc : List ℕ → ℕ → ℕ → Option (List ℕ)
put_crc b i crc = do
  b ← store b i (byte (crc / 2 ^ 24))
  b ← store b (i + 1) (byte (crc / 2 ^ 16))
  b ← store b (i + 2) (byte (crc / 2 ^ 8))
  store b (i + 3) (byte crc)

-- `copy(b[i:], src)`
abbrev pub copy_at : List ℕ → ℕ → List ℕ → Option (List ℕ)
copy_at b i src = from b i (λ rest. some (copy rest src))

-- PAT
unfoldable pub pat_bytes : ℕ → List ℕ → Option (List ℕ)
unfolding put_crc
pat_bytes cc pat = do
  ts_header ← or_at pat_ts_header 3 (bit_and cc 0x0f)
  pat ← copy_at pat 0 ts_header
  pat ← copy_at pat 5 pat_header
  crc ← gen_crc32 pat_header
  pat ← put_crc pat 17 crc
  from pat 21 (λ rest. some (blank rest))

unfoldable pub pat : Muxer → Option (List ℕ × Muxer)
pat m = do
  let cc = wrapped_cc m.pat_cc
  b ← pat_bytes cc m.pat
  some (b, record m { pat_cc = byte (cc + 1); pat = b })

-- `progInfo` and the header of PMT
unfoldable pub prog_info : Bool → List ℕ
prog_info true = 0x1b ∷ 0xe1 ∷ 0x00 ∷ 0xf0 ∷ 0x00 ∷ 0x0f ∷ 0xe1 ∷ 0x01 ∷ 0xf0 ∷ 0x00 ∷ []
prog_info false = 0x0f ∷ 0xe1 ∷ 0x01 ∷ 0xf0 ∷ 0x00 ∷ []

unfoldable pub pmt_header_of : Bool → Option (List ℕ)
unfolding prog_info
pmt_header_of has_video = do
  h ← if has_video then some pmt_header else store pmt_header 9 0x01
  store h 2 (byte (length (prog_info has_video) + 9 + 4))

-- Sound in MP3, by `soundFormat == 2 || soundFormat == 14`.
unfoldable pub prog_info_for : ℕ → Bool → Option (List ℕ)
unfolding prog_info
prog_info_for sound_format has_video =
    if sound_format == 2 || sound_format == 14
    then store (prog_info has_video) (if has_video then 5 else 0) 0x4
    else some (prog_info has_video)

-- PMT
unfoldable pub pmt_bytes : ℕ → Bool → ℕ → List ℕ → Option (List ℕ)
unfolding put_crc
pmt_bytes sound_format has_video cc pmt = do
  header ← pmt_header_of has_video
  ts_header ← or_at pmt_ts_header 3 (bit_and cc 0x0f)
  info ← prog_info_for sound_format has_video
  pmt ← copy_at pmt 0 ts_header
  pmt ← copy_at pmt 5 header
  pmt ← copy_at pmt 17 info
  section ← sub_slice pmt 5 (5 + length header + length info)
  crc ← gen_crc32 section
  pmt ← put_crc pmt (17 + length info) crc
  from pmt (21 + length info) (λ rest. some (blank rest))

unfoldable pub pmt : ℕ → Bool → Muxer → Option (List ℕ × Muxer)
pmt sound_format has_video m = do
  let cc = wrapped_cc m.pmt_cc
  b ← pmt_bytes sound_format has_video cc m.pmt
  some (b, record m { pmt_cc = byte (cc + 1); pmt = b })
