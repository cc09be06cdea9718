-- ===== src/Ts/Units.antt =====
-- The header of a PES packet, read from ISO/IEC 13818-1, and that the muxer writes what is read.
use yoshiera_huang_livego.Prelude.{ℕ, ◌+◌, ◌*◌, ◌/◌, ◌%◌, ◌^◌, ◌<◌, bit_and, bit_or}
use yoshiera_huang_livego.Prelude.{Bool, true, false, ◌&&◌, ◌||◌, ◌≡◌, refl, ◌∙◌, arith}
use yoshiera_huang_livego.Prelude.{
  List, [], ◌∷◌, ◌++◌, Option, none, some, ◌>>=◌, length, take, drop, replicate,
}
use yoshiera_huang_livego.Prelude.{ltb, leb, le→leb, ◌==◌, if◌then◌else◌}
use yoshiera_huang_livego.Prelude.Bits.{bit_or-add, bit_and-mod}
use yoshiera_huang_livego.Pio.{byte}
use yoshiera_huang_livego.Av.Packet.{Packet}
use yoshiera_huang_livego.Ts.Pes.{
  PesHeader, video_sid, audio_sid, reduced_ts, ts_high, ts_middle, ts_low, has_dts, pes_header_size,
  pes_size, pes_packet,
}

-- A timestamp of 33 bits in five bytes, the low bit of three of them a marker.
abbrev stamp_of : ℕ → ℕ → ℕ → ℕ → ℕ → ℕ
stamp_of a b c d e = a / 2 % 8 * 2 ^ 30 + (b * 256 + c) / 2 * 2 ^ 15 + (d * 256 + e) / 2

-- The timestamps that the flags announce, each behind its prefix.
unfoldable pub stamps : ℕ → List ℕ → Option (ℕ × Option ℕ)
stamps flags (a ∷ b ∷ c ∷ d ∷ e ∷ f ∷ g ∷ h ∷ i ∷ j ∷ rest) =
    if flags == 2 && a / 16 == 2
    then some (stamp_of a b c d e, none)
    else if flags == 3 && a / 16 == 3 && f / 16 == 1
    then some (stamp_of a b c d e, some (stamp_of f g h i j))
    else none
stamps flags (a ∷ b ∷ c ∷ d ∷ e ∷ rest) =
    if flags == 2 && a / 16 == 2 then some (stamp_of a b c d e, none) else none
stamps flags _ = none

-- The id of the stream, the timestamps and the payload of a unit.
unfoldable pub parse_pes : List ℕ → Option (ℕ × ℕ × Option ℕ × List ℕ)
unfolding stamps
parse_pes (a ∷ b ∷ c ∷ sid ∷ l1 ∷ l2 ∷ x ∷ flags ∷ n ∷ rest) =
    let l = l1 * 256 + l2 in
    if a == 0
      && b == 0
      && c == 1
      && x / 64 == 2
      && leb n (length rest)
      && (l == 0 || l == length rest + 3)
    then (do (pts, dts) ← stamps (flags / 64) rest; some (sid, pts, dts, drop n rest))
    else none
parse_pes _ = none

-- The 33 bits that writeTs keeps of an int64. From 2 ^ 33 on it is one more than the low bits.
unfoldable pub stamp : ℕ → ℕ
stamp ts = if ltb ts (2 ^ 63) && ltb 0x1ffffffff ts then (ts + 1) % 2 ^ 33 else ts % 2 ^ 33

reduced_ts-stamp : (ts : ℕ) → reduced_ts ts % 2 ^ 33 ≡ stamp ts
unfolding reduced_ts stamp
reduced_ts-stamp ts = ground arith

ts_high_lem : (fb t : ℕ) → fb < 4 → ts_high fb t ≡ fb * 16 + t / 2 ^ 30 % 8 * 2 + 1
unfolding ts_high
ts_high_lem fb t h =
    let x = t / 2 ^ 30 % 2 ^ 32 in
    let masked : bit_and x 0x07 ≡ x % 8 = bit_and-mod 3 x in
    let high : fb * 2 ^ 4 % 2 ^ 32 ≡ fb * 2 ^ 4 = omega arith in
    let y : bit_and x 0x07 * 2 ^ 1 % 2 ^ 32 ≡ x % 8 * 2 = omega (arith, masked) in
    let joined : bit_or (fb * 2 ^ 4) (x % 8 * 2) ≡ fb * 2 ^ 4 + x % 8 * 2 =
      bit_or-add 4 fb (x % 8 * 2) (omega arith) in
    let even : fb * 2 ^ 4 + x % 8 * 2 ≡ (fb * 8 + x % 8) * 2 ^ 1 = omega arith in
    rw (high, y, joined, even)
      (bit_or-add 1 (fb * 8 + x % 8) 1 (omega arith)
        ∙ (let e : (fb * 8 + x % 8) * 2 ^ 1 + 1 ≡ fb * 16 + t / 2 ^ 30 % 8 * 2 + 1 = omega arith in
            e))

odd_word : (x : ℕ) → bit_or (bit_and x 0x7fff * 2 ^ 1 % 2 ^ 32) 1 ≡ x % 2 ^ 15 * 2 + 1
odd_word x =
    let masked : bit_and x 0x7fff ≡ x % 2 ^ 15 = bit_and-mod 15 x in
    let y : bit_and x 0x7fff * 2 ^ 1 % 2 ^ 32 ≡ x % 2 ^ 15 * 2 ^ 1 = omega (arith, masked) in
    rw y (
      bit_or-add 1 (x % 2 ^ 15) 1 (omega arith)
      ∙ (let e : x % 2 ^ 15 * 2 ^ 1 + 1 ≡ x % 2 ^ 15 * 2 + 1 = omega arith in e))

ts_middle_lem : (t : ℕ) → ts_middle t ≡ t / 2 ^ 15 % 2 ^ 15 * 2 + 1
unfolding ts_middle
ts_middle_lem t = omega (arith, odd_word (t / 2 ^ 15 % 2 ^ 32))

ts_low_lem : (t : ℕ) → ts_low t ≡ t % 2 ^ 15 * 2 + 1
unfolding ts_low
ts_low_lem t =
    let masked : bit_and t 0x7fff ≡ t % 2 ^ 15 = bit_and-mod 15 t in
    let e : bit_and t 0x7fff % 2 ^ 32 ≡ bit_and t 0x7fff = omega (arith, masked) in
    rw e (odd_word t)

-- The five bytes are read back.
stamp_of-ts :
    (fb t : ℕ)
    → fb < 4
    → (byte (ts_high fb t) / 16 ≡ fb)
      × (stamp_of
            (byte (ts_high fb t))
            (byte (ts_middle t / 2 ^ 8))
            (byte (ts_middle t))
            (byte (ts_low t / 2 ^ 8))
            (byte (ts_low t))
          ≡ t % 2 ^ 33)
stamp_of-ts fb t h = omega (arith, ts_high_lem fb t h, ts_middle_lem t, ts_low_lem t)

abbrev five : ℕ → ℕ → List ℕ
five fb t =
    byte (ts_high fb t)
    ∷ byte (ts_middle t / 2 ^ 8)
    ∷ byte (ts_middle t)
    ∷ byte (ts_low t / 2 ^ 8)
    ∷ byte (ts_low t)
    ∷ []

-- The bytes of the header, with one timestamp or two.
abbrev stamps_of : Bool → ℕ → ℕ → List ℕ
stamps_of false pts dts = five 2 (reduced_ts pts)
stamps_of true pts dts = five 3 (reduced_ts pts) ++ five 1 (reduced_ts dts)

abbrev pub sid_of : Packet → ℕ
sid_of p = if p.is_video then video_sid else audio_sid

abbrev pub unit_of : Packet → Bool → ℕ → ℕ → List ℕ
unit_of p both pts dts =
    let size = pes_size (length p.payload + pes_header_size both + 3) in
    0
    ∷ 0
    ∷ 1
    ∷ byte (sid_of p)
    ∷ byte (size / 2 ^ 8)
    ∷ byte size
    ∷ 0x80
    ∷ (if both then 0xc0 else 0x80)
    ∷ (if both then 10 else 5)
    ∷ stamps_of both pts dts

abbrev pub header_len : Bool → ℕ
header_len both = if both then 19 else 14

-- What pesHeader.packet leaves in its array.
abbrev pub IsHeader : PesHeader → Packet → Bool → ℕ → ℕ → Type 0
IsHeader pes p both pts dts =
    (pes.len ≡ header_len both)
    × (length pes.bytes ≡ 188)
    × (take pes.len pes.bytes ≡ unit_of p both pts dts)

pub pes_packet_lem :
    (p : Packet) (pts dts : ℕ) (both : Bool)
    → has_dts p pts dts ≡ both
    → (pes : PesHeader) × (pes_packet p pts dts ≡ some pes) × IsHeader pes p both pts dts
unfolding pes_packet
pes_packet_lem p pts dts true e = (
  record { len = 19; bytes = unit_of p true pts dts ++ replicate 169 0 },
  rw e,
  (refl, refl, refl),
)
pes_packet_lem p pts dts false e = (
  record { len = 14; bytes = unit_of p false pts dts ++ replicate 174 0 },
  rw e,
  (refl, refl, refl),
)

stamps-one :
    (a b c d e : ℕ) (rest : List ℕ)
    → a / 16 ≡ 2
    → stamps 2 (a ∷ b ∷ c ∷ d ∷ e ∷ rest) ≡ some (stamp_of a b c d e, none)
unfolding stamps
stamps-one a b c d e [] h = rw h
stamps-one a b c d e (f ∷ []) h = rw h
stamps-one a b c d e (f ∷ g ∷ []) h = rw h
stamps-one a b c d e (f ∷ g ∷ i ∷ []) h = rw h
stamps-one a b c d e (f ∷ g ∷ i ∷ j ∷ []) h = rw h
stamps-one a b c d e (f ∷ g ∷ i ∷ j ∷ k ∷ rest) h = rw h

size_fits :
    (n k total : ℕ)
    → total ≡ k + n
    → let size = pes_size (n + k + 3) in
      let l = byte (size / 2 ^ 8) * 256 + byte size in (l == 0 || l == total + 3) ≡ true
unfolding pes_size
size_fits n k total e = ground arith

sid_of-byte : (p : Packet) → byte (sid_of p) ≡ sid_of p
sid_of-byte p = ground arith

-- A receiver reads the id of the stream, the timestamps as far as 33 bits hold them, and the payload.
pub parse_pes-unit :
    (p : Packet) (both : Bool) (pts dts : ℕ)
    → parse_pes (unit_of p both pts dts ++ p.payload)
      ≡ some (sid_of p, stamp pts, (if both then some (stamp dts) else none), p.payload)
unfolding parse_pes pes_header_size
parse_pes-unit p true pts dts =
    let total = length (stamps_of true pts dts ++ p.payload) in
    let (a, x) = stamp_of-ts 3 (reduced_ts pts) (omega arith) in
    let (f, y) = stamp_of-ts 1 (reduced_ts dts) (omega arith) in
    rw (
      le→leb 10 total (omega arith),
      size_fits (length p.payload) 10 total (omega arith),
      a,
      f,
      x,
      y,
      reduced_ts-stamp pts,
      reduced_ts-stamp dts,
      sid_of-byte p,
    )
parse_pes-unit p false pts dts =
    let total = length (stamps_of false pts dts ++ p.payload) in
    let (a, x) = stamp_of-ts 2 (reduced_ts pts) (omega arith) in
    rw (
      le→leb 5 total (omega arith),
      size_fits (length p.payload) 5 total (omega arith),
      stamps-one _ _ _ _ _ p.payload a,
      x,
      reduced_ts-stamp pts,
      sid_of-byte p,
    )
