-- ===== src/Ts/Checksum.antt =====
-- The table of GenCrc32 against division by the polynomial, one bit at a time.
use yoshiera_huang_livego.Prelude.{ℕ, zero, suc, ◌+◌, ◌*◌, ◌/◌, ◌%◌, ◌^◌, ◌<◌, bit_xor}
use yoshiera_huang_livego.Prelude.{Bool, true, false, ◌≡◌, refl, sym, ap, ◌∙◌, arith}
use yoshiera_huang_livego.Prelude.{List, [], ◌∷◌, ◌++◌, Option, none, some, get_elem?, All}
use yoshiera_huang_livego.Prelude.{leb, ◌==◌, ==_iff, le→leb, lt→not_leb, if◌then◌else◌}
use yoshiera_huang_livego.Prelude.{Bool-cases, inl, inr}
use native.Mathlib.Nat.{pow-suc}
use yoshiera_huang_livego.Prelude.Xor.{
  zero-bit_xor, bit_xor_comm, bit_xor_assoc, bit_xor_split, bit_xor-lt, bit_xor_self,
}
use yoshiera_huang_livego.Pio.{byte, shl}
use yoshiera_huang_livego.Prelude.Finite.{holds_below, holds_below_lem}
use yoshiera_huang_livego.Ts.Crc.{crc_table, crc_step, crc_loop, gen_crc32}

-- The generator of CRC-32/MPEG-2, without its top bit.
abbrev pub polynomial : ℕ
polynomial = 0x04c11db7

-- A bit is shifted out of the register, and the generator subtracted if it was set.
unfoldable pub divide_bit : ℕ → ℕ
divide_bit x = if leb (2 ^ 31) x then bit_xor (x * 2 % 2 ^ 32) polynomial else x * 2 % 2 ^ 32

unfoldable pub divide_bits : ℕ → ℕ → ℕ
unfolding divide_bit
divide_bits zero x = x
divide_bits (suc k) x = divide_bit (divide_bits k x)

-- The remainder of the division, over the bytes of a message.
unfoldable pub remainder : ℕ → List ℕ → ℕ
unfolding divide_bits
remainder crc [] = crc
remainder crc (b ∷ bs) = remainder (divide_bits 8 (bit_xor crc (b * 2 ^ 24))) bs

divide_bit-lt : (x : ℕ) → divide_bit x < 2 ^ 32
unfolding divide_bit
divide_bit-lt x =
    let small = bit_xor-lt 32 (x * 2 % 2 ^ 32) polynomial (omega arith) (omega arith) in
    elim (Bool-cases (leb (2 ^ 31) x)) [
      | inl e ↦ rw e small
      | inr e ↦ rw e (let z : x * 2 % 2 ^ 32 < 2 ^ 32 = omega arith in z)
    ]

swap_last : (a y p : ℕ) → bit_xor (bit_xor a y) p ≡ bit_xor (bit_xor a p) y
swap_last a y p =
    bit_xor_assoc a y p ∙ ap (λ (t : ℕ). bit_xor a t) (bit_xor_comm y p) ∙ sym (bit_xor_assoc a p y)

bit_xor-zero : (a : ℕ) → bit_xor a 0 ≡ a
bit_xor-zero a = bit_xor_comm a 0 ∙ zero-bit_xor a

-- A number below `2 ^ k` leaves the bits from `k` on alone.
low_xor :
    (k x y : ℕ)
    → y < 2 ^ k
    → x % 2 ^ k < 2 ^ k
    → x / 2 ^ k * 2 ^ k + x % 2 ^ k ≡ x
    → bit_xor x y ≡ x / 2 ^ k * 2 ^ k + bit_xor (x % 2 ^ k) y
low_xor k x y h small whole =
    let q = x / 2 ^ k in
    let z : 0 * 2 ^ k + y ≡ y = grind arith in
    ap (λ (t : ℕ). bit_xor t y) (sym whole)
    ∙ ap (λ (t : ℕ). bit_xor (q * 2 ^ k + x % 2 ^ k) t) (sym z)
    ∙ bit_xor_split k q 0 (x % 2 ^ k) y small h
    ∙ ap (λ (t : ℕ). t * 2 ^ k + bit_xor (x % 2 ^ k) y) (bit_xor-zero q)

double_xor : (a y : ℕ) → bit_xor a y * 2 ≡ bit_xor (a * 2) (y * 2)
double_xor a y =
    let e : a * 2 ^ 1 + 0 ≡ a * 2 = omega arith in
    let f : y * 2 ^ 1 + 0 ≡ y * 2 = omega arith in
    let both : bit_xor (a * 2 ^ 1 + 0) (y * 2 ^ 1 + 0) ≡ bit_xor (a * 2) (y * 2) =
      λ i. bit_xor (e i) (f i) in
    omega (arith, bit_xor_split 1 a y 0 0 (omega arith) (omega arith), zero-bit_xor 0, both)

-- What is below the top bit stays apart.
divide_bit-bit_xor :
    (x y : ℕ) → x < 2 ^ 32 → y < 2 ^ 31 → divide_bit (bit_xor x y) ≡ bit_xor (divide_bit x) (y * 2)
unfolding divide_bit
divide_bit-bit_xor x y h k =
    let a = x % 2 ^ 31 in
    let e = low_xor 31 x y k (omega arith) (omega arith) in
    let small = bit_xor-lt 31 a y (omega arith) k in
    let shifted : bit_xor x y * 2 % 2 ^ 32 ≡ bit_xor (x * 2 % 2 ^ 32) (y * 2) =
      let z : bit_xor x y * 2 % 2 ^ 32 ≡ bit_xor a y * 2 = omega arith in
      let same : x * 2 % 2 ^ 32 ≡ a * 2 = omega arith in
      z ∙ double_xor a y ∙ ap (λ (t : ℕ). bit_xor t (y * 2)) (sym same) in
    elim (Bool-cases (leb (2 ^ 31) x)) [
      | inl top ↦
          rw (top, le→leb (2 ^ 31) (bit_xor x y) (ground arith), shifted)
            (swap_last (x * 2 % 2 ^ 32) (y * 2) polynomial)
      | inr no_top ↦ rw (no_top, lt→not_leb (2 ^ 31) (bit_xor x y) (ground arith), shifted)
    ]

-- So it is over as many bits as there is room for.
divide_bits-bit_xor :
    (k x y : ℕ)
    → x < 2 ^ 32
    → y * 2 ^ k < 2 ^ 32
    → (divide_bits k x < 2 ^ 32)
      × (divide_bits k (bit_xor x y) ≡ bit_xor (divide_bits k x) (y * 2 ^ k))
unfolding divide_bits
divide_bits-bit_xor zero x y h p =
    (h, ap (λ (t : ℕ). bit_xor x t) (let e : y ≡ y * 1 = omega arith in e))
divide_bits-bit_xor (suc k) x y h p =
    let twice : y * 2 ^ suc k ≡ y * 2 ^ k * 2 =
      grind (arith, ap (λ (t : ℕ). y * t) (pow-suc 2 k)) in
    let (small, ih) = divide_bits-bit_xor k x y h (omega (arith, twice)) in
    (
      divide_bit-lt (divide_bits k x),
      ap divide_bit ih
          ∙ divide_bit-bit_xor (divide_bits k x) (y * 2 ^ k) small (omega (arith, twice))
          ∙ ap (λ (t : ℕ). bit_xor (divide_bit (divide_bits k x)) t) (sym twice),
    )

-- The table holds the remainders of its indices.
abbrev is_remainder : ℕ → Bool
is_remainder j = elim (get_elem? crc_table j) [
  | none ↦ false
  | some w ↦ w == divide_bits 8 (j * 2 ^ 24)
]

table_holds : holds_below is_remainder 256 ≡ true
unfolding holds_below crc_table divide_bits
table_holds = refl

found :
    (o : Option ℕ) (x : ℕ)
    → elim o as (λ o. Bool) [ none ↦ false | some w ↦ w == x ] ≡ true
    → o ≡ some x
found none x h = cc
found (some w) x h = ap (λ z. some z) ((==_iff w x).0 h)

crc_table_lem : (j : ℕ) → j < 256 → get_elem? crc_table j ≡ some (divide_bits 8 (j * 2 ^ 24))
crc_table_lem j h =
    found (get_elem? crc_table j) (divide_bits 8 (j * 2 ^ 24))
      (holds_below_lem is_remainder 256 j table_holds h)

-- The top byte of the register meets the byte of the message.
split_byte :
    (crc b : ℕ)
    → crc < 2 ^ 32
    → bit_xor crc (b * 2 ^ 24) ≡ bit_xor (crc / 2 ^ 24) b * 2 ^ 24 + crc % 2 ^ 24
split_byte crc b h =
    let x : crc / 2 ^ 24 * 2 ^ 24 + crc % 2 ^ 24 ≡ crc = omega arith in
    let y : b * 2 ^ 24 + 0 ≡ b * 2 ^ 24 = omega arith in
    let whole : bit_xor (crc / 2 ^ 24 * 2 ^ 24 + crc % 2 ^ 24) (b * 2 ^ 24 + 0)
        ≡ bit_xor crc (b * 2 ^ 24) =
      λ i. bit_xor (x i) (y i) in
    sym whole
    ∙ bit_xor_split 24 (crc / 2 ^ 24) b (crc % 2 ^ 24) 0 (omega arith) (omega arith)
    ∙ ap (λ (t : ℕ). bit_xor (crc / 2 ^ 24) b * 2 ^ 24 + t) (bit_xor-zero (crc % 2 ^ 24))

join_bits : (j l : ℕ) → l < 2 ^ 24 → j * 2 ^ 24 + l ≡ bit_xor (j * 2 ^ 24) l
join_bits j l h =
    let x : j * 2 ^ 24 + 0 ≡ j * 2 ^ 24 = omega arith in
    let y : 0 * 2 ^ 24 + l ≡ l = omega arith in
    let whole : bit_xor (j * 2 ^ 24 + 0) (0 * 2 ^ 24 + l) ≡ bit_xor (j * 2 ^ 24) l =
      λ i. bit_xor (x i) (y i) in
    omega (arith, whole, bit_xor_split 24 j 0 0 l (omega arith) h, bit_xor-zero j, zero-bit_xor l)

crc_step_lem :
    (crc b : ℕ)
    → crc < 2 ^ 32
    → b < 256
    → crc_step crc b ≡ some (divide_bits 8 (bit_xor crc (b * 2 ^ 24)))
unfolding crc_step
crc_step_lem crc b h k =
    let j = bit_xor (crc / 2 ^ 24) b in
    let l = crc % 2 ^ 24 in
    let small : j < 256 = bit_xor-lt 8 (crc / 2 ^ 24) b (omega arith) k in
    let index : byte (bit_xor (byte (crc / 2 ^ 24)) b) ≡ j =
      let z : byte (crc / 2 ^ 24) ≡ crc / 2 ^ 24 = omega arith in
      ap (λ (t : ℕ). bit_xor t b % 256) z ∙ (let z : j % 256 ≡ j = omega arith in z) in
    let register : bit_xor crc (b * 2 ^ 24) ≡ j * 2 ^ 24 + l = split_byte crc b h in
    let apart : j * 2 ^ 24 + l ≡ bit_xor (j * 2 ^ 24) l = join_bits j l (omega arith) in
    let shifted : shl 32 crc 8 ≡ l * 2 ^ 8 = omega arith in
    rw (index, crc_table_lem j small, shifted, register, apart)
      (ap (λ x. some x)
        (bit_xor_comm (l * 2 ^ 8) (divide_bits 8 (j * 2 ^ 24))
          ∙ sym (divide_bits-bit_xor 8 (j * 2 ^ 24) l (omega arith) (omega arith)).1))

crc_loop-remainder :
    (crc : ℕ) (src : List ℕ)
    → crc < 2 ^ 32
    → All (λ b. b < 256) src
    → crc_loop crc src ≡ some (remainder crc src)
unfolding crc_loop remainder
crc_loop-remainder crc [] h bytes = refl
crc_loop-remainder crc (b ∷ src) h (small, bytes) =
    let below : divide_bits 8 (bit_xor crc (b * 2 ^ 24)) < 2 ^ 32 =
      divide_bit-lt (divide_bits 7 (bit_xor crc (b * 2 ^ 24))) in
    rw (crc_step_lem crc b h small)
      (crc_loop-remainder (divide_bits 8 (bit_xor crc (b * 2 ^ 24))) src below bytes)

-- A register that meets its own top byte only moves up.
own_byte :
    (c : ℕ) → c < 2 ^ 32 → divide_bits 8 (bit_xor c (c / 2 ^ 24 * 2 ^ 24)) ≡ c % 2 ^ 24 * 2 ^ 8
unfolding divide_bits
own_byte c h =
    let l = c % 2 ^ 24 in
    let gone : bit_xor (c / 2 ^ 24) (c / 2 ^ 24) ≡ 0 = bit_xor_self (c / 2 ^ 24) in
    let left : bit_xor c (c / 2 ^ 24 * 2 ^ 24) ≡ bit_xor 0 l =
      omega (arith, split_byte c (c / 2 ^ 24) h, gone, zero-bit_xor l) in
    ap (divide_bits 8) left
    ∙ (divide_bits-bit_xor 8 0 l (omega arith) (omega arith)).1
    ∙ zero-bit_xor (l * 2 ^ 8)

-- The four bytes of a checksum, as PAT and PMT write them.
abbrev pub crc_bytes : ℕ → List ℕ
crc_bytes crc = byte (crc / 2 ^ 24) ∷ byte (crc / 2 ^ 16) ∷ byte (crc / 2 ^ 8) ∷ byte crc ∷ []

own_bytes : (crc : ℕ) → crc < 2 ^ 32 → remainder crc (crc_bytes crc) ≡ 0
unfolding remainder
own_bytes crc h =
    let c1 = crc % 2 ^ 24 * 2 ^ 8 in
    let c2 = c1 % 2 ^ 24 * 2 ^ 8 in
    let c3 = c2 % 2 ^ 24 * 2 ^ 8 in
    let b0 : byte (crc / 2 ^ 24) ≡ crc / 2 ^ 24 = omega arith in
    let b1 : byte (crc / 2 ^ 16) ≡ c1 / 2 ^ 24 = omega arith in
    let b2 : byte (crc / 2 ^ 8) ≡ c2 / 2 ^ 24 = omega arith in
    let b3 : byte crc ≡ c3 / 2 ^ 24 = omega arith in
    rw
      (
        b0,
        own_byte crc h,
        b1,
        own_byte c1 (omega arith),
        b2,
        own_byte c2 (omega arith),
        b3,
        own_byte c3 (omega arith),
      )
      (let z : c3 % 2 ^ 24 * 2 ^ 8 ≡ 0 = omega arith in z)

remainder-append :
    (crc : ℕ) (xs ys : List ℕ) → remainder crc (xs ++ ys) ≡ remainder (remainder crc xs) ys
unfolding remainder
remainder-append crc [] ys = refl
remainder-append crc (x ∷ xs) ys = remainder-append (divide_bits 8 (bit_xor crc (x * 2 ^ 24))) xs ys

remainder-lt : (crc : ℕ) (xs : List ℕ) → crc < 2 ^ 32 → remainder crc xs < 2 ^ 32
unfolding remainder
remainder-lt crc [] h = h
remainder-lt crc (x ∷ xs) h =
    remainder-lt (divide_bits 8 (bit_xor crc (x * 2 ^ 24))) xs
      (divide_bit-lt (divide_bits 7 (bit_xor crc (x * 2 ^ 24))))

-- GenCrc32 of any bytes is what is left by the division bit by bit, and the bytes with their
-- checksum behind them leave nothing.
pub gen_crc32-remainder :
    (src : List ℕ)
    → All (λ b. b < 256) src
    → (crc : ℕ) × (gen_crc32 src ≡ some crc)
      × (crc ≡ remainder 0xffffffff src)
      × (remainder 0xffffffff (src ++ crc_bytes crc) ≡ 0)
unfolding gen_crc32
gen_crc32-remainder src bytes =
    let crc = remainder 0xffffffff src in
    (
      crc,
      crc_loop-remainder 0xffffffff src (omega arith) bytes,
      refl,
      remainder-append 0xffffffff src (crc_bytes crc)
          ∙ own_bytes crc (remainder-lt 0xffffffff src (omega arith)),
    )
