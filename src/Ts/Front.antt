-- ===== src/Ts/Front.antt =====
-- The front of a packet: what the muxer writes before the data, and that a receiver skips it.
use yoshiera_huang_livego.Prelude.{ℕ, ◌+◌, ◌%◌, ◌≤◌, ◌<◌, bit_and, bit_or}
use yoshiera_huang_livego.Prelude.{Bool, true, false, ◌&&◌, ◌≡◌, refl, arith}
use yoshiera_huang_livego.Prelude.{List, ◌∷◌, ◌++◌, some, length, length-append, drop-length_append}
use yoshiera_huang_livego.Prelude.{◌==◌, if◌then◌else◌}
use yoshiera_huang_livego.Prelude.Finite.{holds_below, holds_below_lem}
use yoshiera_huang_livego.Pio.{byte}
use yoshiera_huang_livego.Ts.Muxer.{next_cc, pid_of, write_header}
use yoshiera_huang_livego.Ts.Receiver.{open_packet, carried, skip_field, is_next}

-- The fourth byte of a header, without and with an adaptation field.
abbrev pub plain : ℕ → ℕ
plain cc = bit_or 0x10 (byte (bit_and cc 0x0f))

abbrev fields_right : ℕ → Bool
fields_right cc =
    (plain cc == 16 + cc) && (bit_or (plain cc) 0x20 == 48 + cc) && (next_cc cc == (cc + 1) % 16)

pub fourth_byte :
    (cc : ℕ)
    → cc < 16
    → (plain cc ≡ 16 + cc) × (bit_or (plain cc) 0x20 ≡ 48 + cc) × (next_cc cc ≡ (cc + 1) % 16)
unfolding holds_below next_cc
fourth_byte cc h = ground (arith, holds_below_lem fields_right 16 cc refl h)

abbrev pub first_byte : Bool → ℕ
first_byte first = if first then 65 else 1

abbrev pub third_byte : Bool → ℕ
third_byte true = 0
third_byte false = 1

-- The header, whatever the four bytes were.
pub write_header_lem :
    (v first : Bool) (cc c0 c1 c2 c3 : ℕ) (suf : List ℕ)
    → write_header v first cc (c0 ∷ c1 ∷ c2 ∷ c3 ∷ suf)
      ≡ some (0x47 ∷ first_byte first ∷ third_byte v ∷ plain cc ∷ suf)
unfolding write_header
write_header_lem true true cc c0 c1 c2 c3 suf = refl
write_header_lem true false cc c0 c1 c2 c3 suf = refl
write_header_lem false true cc c0 c1 c2 c3 suf = refl
write_header_lem false false cc c0 c1 c2 c3 suf = refl

-- The receiver behind a header alone, and behind an adaptation field.
module _ (v first : Bool) (last cc : ℕ) (small : cc < 16) (next : cc ≡ (last + 1) % 16) where
  is_next_lem :
      (h3 : ℕ)
      → h3 % 16 ≡ cc
      → is_next (pid_of v) last first 0x47 (first_byte first) (third_byte v) h3 ≡ true
  is_next_lem h3 e = by_cases v first
    where
      by_cases :
          (v first : Bool)
          → is_next (pid_of v) last first 0x47 (first_byte first) (third_byte v) h3 ≡ true
      by_cases true true = ground arith
      by_cases true false = ground arith
      by_cases false true = ground arith
      by_cases false false = ground arith

  pub open_packet-plain :
      (tail : List ℕ)
      → open_packet (pid_of v) last first (0x47 ∷ first_byte first ∷ third_byte v ∷ plain cc ∷ tail)
        ≡ some tail
  unfolding open_packet carried
  open_packet-plain tail =
      let e : plain cc ≡ 16 + cc = (fourth_byte cc small).0 in
      rw (is_next_lem (plain cc) (omega arith)) (ground arith)

  pub open_packet-field :
      (l : ℕ) (gap tail : List ℕ)
      → l ≡ length gap
      → open_packet
          (pid_of v)
          last
          first
          (0x47 ∷ first_byte first ∷ third_byte v ∷ bit_or (plain cc) 0x20 ∷ l ∷ (gap ++ tail))
        ≡ some tail
  unfolding open_packet carried skip_field
  open_packet-field l gap tail h =
      let e : bit_or (plain cc) 0x20 ≡ 48 + cc = (fourth_byte cc small).1 in
      let fits : l ≤ length (gap ++ tail) = omega (arith, length-append gap tail) in
      rw (is_next_lem (bit_or (plain cc) 0x20) (omega arith))
        (ground (arith, h, drop-length_append gap tail))
