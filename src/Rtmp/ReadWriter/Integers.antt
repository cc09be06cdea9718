-- ===== src/Rtmp/ReadWriter/Integers.antt =====
-- The readers of ReadWriter give back the numbers whose bytes stand in the input.
use yoshiera_huang_livego.Prelude.{ℕ, zero, suc, ◌+◌, ◌*◌, ◌/◌, ◌%◌, ◌^◌, ◌≤◌, ◌<◌}
use yoshiera_huang_livego.Prelude.{◌≡◌, sym, ap, ◌∙◌, none, arith}
use yoshiera_huang_livego.Prelude.{List, ◌++◌}
use yoshiera_huang_livego.Pio.{byte, shl}
use yoshiera_huang_livego.Rtmp.ReadWriter.{
  ReadWriter, read_be_loop, read_le_loop, read_uint_be, read_uint_le, write_uint_be, write_uint_le,
}
use yoshiera_huang_livego.Rtmp.ReadWriter.Emit.{
  be_bytes, le_bytes, emit, write_uint_be_lem, write_uint_le_lem,
}
use native.Mathlib.Nat.{
  one-le-pow, div-add-mod, mod-lt, mod-eq_of_lt, add-mul-mod_self_right, mul-le-mul_right,
  le-mul_of_pos_right, pow-le-pow_right,
}
use native.Mathlib.Numerals.{towards_suc}

-- The reader with `bs` in front of it.
abbrev pub feed : List ℕ → ReadWriter → ReadWriter
feed bs r = record r { input = bs; read_error = none }

pow_byte : (n : ℕ) → 2 ^ (suc n * 8) ≡ 2 ^ (n * 8) * 256
pow_byte n =
    ap (λ (t : ℕ). 2 ^ t) (let z : suc n * 8 ≡ n * 8 + 8 = omega arith in z)
    ∙ (let z : 2 ^ (n * 8 + 8) ≡ 2 ^ (n * 8) * 256 = simp towards_suc (omega arith) in z)

-- The remainder by one byte more.
mod_byte : (p v : ℕ) → 0 < p → v % (p * 256) ≡ v / p % 256 * p + v % p
mod_byte p v h =
    let x = v / p % 256 * p + v % p in
    let q = v / p / 256 in
    let whole : x + q * (p * 256) ≡ v =
      omega (arith, div-add-mod v p, ap (λ (t : ℕ). t * p) (div-add-mod (v / p) 256)) in
    let fits : x < p * 256 =
      omega
        (arith, mod-lt v h, mul-le-mul_right p (let z : v / p % 256 ≤ 255 = omega arith in z)) in
    ap (λ (t : ℕ). t % (p * 256)) (sym whole)
    ∙ add-mul-mod_self_right x q (p * 256)
    ∙ mod-eq_of_lt fits

-- One byte of a big-endian number goes from the bytes ahead to the value read so far.
pub be_value :
    (n acc v : ℕ)
    → acc * 2 ^ (suc n * 8) + v % 2 ^ (suc n * 8)
      ≡ (acc * 256 + byte (v / 2 ^ (n * 8))) * 2 ^ (n * 8) + v % 2 ^ (n * 8)
be_value n acc v = omega (
  arith,
  pow_byte n,
  ap (λ (t : ℕ). acc * t) (pow_byte n),
  ap (λ (t : ℕ). v % t) (pow_byte n),
  mod_byte (2 ^ (n * 8)) v (omega (arith, one-le-pow (n * 8) 2)),
)

accumulate :
    (acc b p r : ℕ)
    → 0 < p
    → (acc * 256 + b) * p + r < 2 ^ 32
    → (shl 32 acc 8 + b) % 2 ^ 32 ≡ acc * 256 + b
accumulate acc b p r h fits =
    let small : acc * 256 + b < 2 ^ 32 = omega (arith, le-mul_of_pos_right (acc * 256 + b) h) in
    omega arith

read_be_loop_lem :
    (n acc v : ℕ) (rest : List ℕ) (r : ReadWriter)
    → acc * 2 ^ (n * 8) + v % 2 ^ (n * 8) < 2 ^ 32
    → read_be_loop n acc (feed (be_bytes n v ++ rest) r)
      ≡ ((acc * 2 ^ (n * 8) + v % 2 ^ (n * 8), none), feed rest r)
unfolding read_be_loop
read_be_loop_lem zero acc v rest r h = ap (λ (x : ℕ). ((x, none), feed rest r)) (omega arith)
read_be_loop_lem (suc n) acc v rest r h =
    let p = 2 ^ (n * 8) in
    let b = byte (v / p) in
    let e = be_value n acc v in
    let fits : (acc * 256 + b) * p + v % p < 2 ^ 32 = omega (arith, e) in
    rw (accumulate acc b p (v % p) (omega (arith, one-le-pow (n * 8) 2)) fits) (
      read_be_loop_lem n (acc * 256 + b) v rest r fits
      ∙ ap (λ (x : ℕ). ((x, none), feed rest r)) (sym e))

-- The same for the lowest byte.
mod_low : (p v : ℕ) → 0 < p → v % (p * 256) ≡ v / 256 % p * 256 + v % 256
mod_low p v h =
    let x = v / 256 % p * 256 + v % 256 in
    let q = v / 256 / p in
    let whole : x + q * (p * 256) ≡ v =
      omega (arith, div-add-mod v 256, ap (λ (t : ℕ). t * 256) (div-add-mod (v / 256) p)) in
    let fits : x < p * 256 = omega (arith, mod-lt (v / 256) h) in
    ap (λ (t : ℕ). t % (p * 256)) (sym whole)
    ∙ add-mul-mod_self_right x q (p * 256)
    ∙ mod-eq_of_lt fits

pow_next : (i : ℕ) → 2 ^ ((i + 1) * 8) ≡ 2 ^ (i * 8) * 256
pow_next i = ap (λ (t : ℕ). 2 ^ t) (let z : (i + 1) * 8 ≡ suc i * 8 = omega arith in z) ∙ pow_byte i

-- One byte of a little-endian number goes from the bytes ahead to the value read so far.
le_value :
    (n i acc v : ℕ)
    → acc + v % 2 ^ (suc n * 8) * 2 ^ (i * 8)
      ≡ acc + byte v * 2 ^ (i * 8) + v / 2 ^ 8 % 2 ^ (n * 8) * 2 ^ ((i + 1) * 8)
le_value n i acc v =
    let q = v / 256 % 2 ^ (n * 8) in
    let low : v % 2 ^ (suc n * 8) ≡ q * 256 + v % 256 =
      ap (λ (t : ℕ). v % t) (pow_byte n)
      ∙ mod_low (2 ^ (n * 8)) v (omega (arith, one-le-pow (n * 8) 2)) in
    omega (arith, ap (λ (t : ℕ). t * 2 ^ (i * 8)) low, ap (λ (t : ℕ). q * t) (pow_next i))

read_le_loop_lem :
    (n i acc v : ℕ) (rest : List ℕ) (r : ReadWriter)
    → acc + v % 2 ^ (n * 8) * 2 ^ (i * 8) < 2 ^ 32
    → read_le_loop n i acc (feed (le_bytes n v ++ rest) r)
      ≡ ((acc + v % 2 ^ (n * 8) * 2 ^ (i * 8), none), feed rest r)
unfolding read_le_loop
read_le_loop_lem zero i acc v rest r h =
    let none_left : v % 2 ^ (0 * 8) ≡ 0 = omega arith in
    ap (λ (x : ℕ). ((x, none), feed rest r))
      (omega (arith, ap (λ (t : ℕ). t * 2 ^ (i * 8)) none_left))
read_le_loop_lem (suc n) i acc v rest r h =
    let e = le_value n i acc v in
    let acc' = acc + byte v * 2 ^ (i * 8) in
    let fits : acc' + v / 2 ^ 8 % 2 ^ (n * 8) * 2 ^ ((i + 1) * 8) < 2 ^ 32 = omega (arith, e) in
    let now : (acc + shl 32 (byte v) (i * 8)) % 2 ^ 32 ≡ acc' = omega arith in
    rw now (
      read_le_loop_lem n (i + 1) acc' (v / 2 ^ 8) rest r fits
      ∙ ap (λ (x : ℕ). ((x, none), feed rest r)) (sym e))

module _ (n v : ℕ) (rest : List ℕ) (r : ReadWriter) (small : n ≤ 4) (fits : v < 2 ^ (n * 8)) where
  below : 2 ^ (n * 8) ≤ 2 ^ 32
  below = pow-le-pow_right {n = 2} (omega arith) {j = 32} (omega arith)

  pub read_uint_be_lem : read_uint_be n (feed (be_bytes n v ++ rest) r) ≡ ((v, none), feed rest r)
  unfolding read_uint_be
  read_uint_be_lem =
      let e : 0 * 2 ^ (n * 8) + v % 2 ^ (n * 8) ≡ v = omega (arith, mod-eq_of_lt fits) in
      read_be_loop_lem n 0 v rest r (omega (arith, e, below))
      ∙ ap (λ (x : ℕ). ((x, none), feed rest r)) e

  pub read_uint_le_lem : read_uint_le n (feed (le_bytes n v ++ rest) r) ≡ ((v, none), feed rest r)
  unfolding read_uint_le
  read_uint_le_lem =
      let e : 0 + v % 2 ^ (n * 8) * 2 ^ (0 * 8) ≡ v = omega (arith, mod-eq_of_lt fits) in
      read_le_loop_lem n 0 0 v rest r (omega (arith, e, below))
      ∙ ap (λ (x : ℕ). ((x, none), feed rest r)) e

-- For 1 to 4 bytes and a number that fits them: what WriteUintBE appends to the output of a writer
-- without an error and with room, ReadUintBE reads back as that number from the front of any input
-- and leaves the rest; and so do WriteUintLE and ReadUintLE.
pub uint_round_trip :
    (n v : ℕ) (rest : List ℕ) (s r : ReadWriter)
    → n ≤ 4
    → v < 2 ^ (n * 8)
    → s.write_error ≡ none
    → n ≤ s.room
    → ((bs : List ℕ) × ((write_uint_be v n s).1.output ≡ s.output ++ bs)
        × (read_uint_be n (feed (bs ++ rest) r) ≡ ((v, none), feed rest r)))
      × ((bs : List ℕ) × ((write_uint_le v n s).1.output ≡ s.output ++ bs)
          × (read_uint_le n (feed (bs ++ rest) r) ≡ ((v, none), feed rest r)))
unfolding emit
uint_round_trip n v rest s r small fits ready room = (
  (
    be_bytes n v,
    ap (λ p. p.1.output) (write_uint_be_lem n v s ready room),
    read_uint_be_lem n v rest r small fits,
  ),
  (
    le_bytes n v,
    ap (λ p. p.1.output) (write_uint_le_lem n v s ready room),
    read_uint_le_lem n v rest r small fits,
  ),
)
