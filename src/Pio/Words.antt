-- ===== src/Pio/Words.antt =====
-- The steps that the functions of utils/pio are made of: conversions, shifts, indexing.
use yoshiera_huang_livego.Prelude.{ℕ, zero, suc, ◌+◌, ◌-◌, ◌*◌, ◌/◌, ◌%◌, ◌^◌, ◌<◌, bit_or, ◌≡◌}
use yoshiera_huang_livego.Prelude.{
  List, [], ◌∷◌, Option, none, some, ◌>>=◌, arith, ltb, if◌then◌else◌,
}
use yoshiera_huang_livego.Prelude.{get_elem?, length, sym, ap, ◌∙◌, ◌≤◌}
use yoshiera_huang_livego.Prelude.Bits.{bit_or-add}
use native.Mathlib.Nat.{
  one-le-pow, mod-eq_of_lt, div-div-eq-div-mul, div-add-mod, mod-lt, add-mul-mod_self_right,
  mod-mod_of_dvd, dvd_of_mod-eq-zero,
}

-- `byte(v)`
abbrev pub byte : ℕ → ℕ
byte v = v % 256

-- `x << k` on w bits
abbrev pub shl : ℕ → ℕ → ℕ → ℕ
shl w x k = x * 2 ^ k % 2 ^ w

-- `i <<= 8; i |= uintW(c)`
unfoldable pub push : ℕ → ℕ → ℕ → ℕ
push w i c = bit_or (shl w i 8) c

-- `intW(int8(c))`
abbrev pub sign_extend : ℕ → ℕ → ℕ
sign_extend w c = if ltb c 128 then c else c + (2 ^ w - 256)

-- `b[i]`
abbrev pub at : List ℕ → ℕ → Option ℕ
at b i = get_elem? b i

-- The number of a slice, highest byte first.
abbrev pub from_be : ℕ → List ℕ → ℕ
from_be acc [] = acc
from_be acc (b ∷ bs) = from_be (acc * 256 + b) bs

-- `b[i] = x`
abbrev pub store : List ℕ → ℕ → ℕ → Option (List ℕ)
store [] i x = none
store (y ∷ b) zero x = some (x ∷ b)
store (y ∷ b) (suc i) x = do b' ← store b i x; some (y ∷ b')

pub push_lem : (w i c : ℕ) → i * 256 < 2 ^ w → c < 256 → push w i c ≡ i * 256 + c
unfolding push
push_lem w i c fits small = ap (λ (t : ℕ). bit_or t c) (mod-eq_of_lt fits) ∙ bit_or-add 8 i c small

mod_scaled : (q i c : ℕ) → 0 < q → c < 256 → (i * 256 + c) % (q * 256) ≡ i % q * 256 + c
mod_scaled q i c h small =
    let x = i % q * 256 + c in
    let whole : x + i / q * (q * 256) ≡ i * 256 + c =
      omega (arith, ap (λ (t : ℕ). t * 256) (div-add-mod i q)) in
    let fits : x < q * 256 = omega (arith, mod-lt i h) in
    ap (λ (t : ℕ). t % (q * 256)) (sym whole)
    ∙ add-mul-mod_self_right x (i / q) (q * 256)
    ∙ mod-eq_of_lt fits

-- The same with the shift's overflow: what is above the top `k` bits of a word of `k + 8` is lost.
pub push_wraps : (w k i c : ℕ) → 2 ^ w ≡ 2 ^ k * 256 → c < 256 → push w i c ≡ i % 2 ^ k * 256 + c
unfolding push
push_wraps w k i c e small =
    let scaled = mod_scaled (2 ^ k) i 0 (omega (arith, one-le-pow k 2)) (omega arith) in
    ap (λ (t : ℕ). bit_or (i * 256 % t) c) e
    ∙ ap (λ (t : ℕ). bit_or t c)
        (ap (λ (t : ℕ). t % (2 ^ k * 256)) (let z : i * 256 ≡ i * 256 + 0 = omega arith in z)
          ∙ scaled
          ∙ (let z : i % 2 ^ k * 256 + 0 ≡ i % 2 ^ k * 256 = omega arith in z))
    ∙ bit_or-add 8 (i % 2 ^ k) c small

-- Words that agree on their low bits still agree when a byte is pushed into both.
pub push_agree :
    (w k m i j c : ℕ)
    → 2 ^ w ≡ 2 ^ k * 256
    → 2 ^ k % m ≡ 0
    → 0 < m
    → c < 256
    → i % m ≡ j % m
    → push w i c % (m * 256) ≡ push w j c % (m * 256)
push_agree w k m i j c e d h small same = one i ∙ ap (λ (t : ℕ). t * 256 + c) same ∙ sym (one j)
  where
    one : (x : ℕ) → push w x c % (m * 256) ≡ x % m * 256 + c
    one x =
        ap (λ (t : ℕ). t % (m * 256)) (push_wraps w k x c e small)
        ∙ mod_scaled m (x % 2 ^ k) c h small
        ∙ ap (λ (t : ℕ). t * 256 + c) (mod-mod_of_dvd m x (dvd_of_mod-eq-zero m d))

pub push-lt : (w k i c : ℕ) → 2 ^ w ≡ 2 ^ k * 256 → c < 256 → push w i c < 2 ^ w
push-lt w k i c e small =
    let fits = mod-lt i (let z : 0 < 2 ^ k = omega (arith, one-le-pow k 2) in z) in
    omega (arith, push_wraps w k i c e small)

-- The sign bits that `intW(int8(c))` adds are above the low byte.
pub sign_extend_agree :
    (w c : ℕ) → (2 ^ w) % 256 ≡ 0 → 256 ≤ 2 ^ w → c < 256 → sign_extend w c % 256 ≡ c % 256
sign_extend_agree w c e le h = ground arith

-- One step down the bytes of `v`: with the part above byte k + 1 goes byte k.
pub push-byte : (w p v t : ℕ) → v / p < 2 ^ w → t ≡ v / (p * 256) → push w t (byte (v / p)) ≡ v / p
push-byte w p v t fits e =
    let q = v / p in
    ap (λ (x : ℕ). push w x (q % 256)) (e ∙ sym (div-div-eq-div-mul v p 256))
    ∙ push_lem w (q / 256) (q % 256) (omega arith) (omega arith)
    ∙ (let e : q / 256 * 256 + q % 256 ≡ q = omega arith in e)

pub push_last : (w v t : ℕ) → v < 2 ^ w → t ≡ v / 256 → push w t (byte v) ≡ v
push_last w v t fits e =
    ap (λ (x : ℕ). push w x (v % 256)) e
    ∙ push_lem w (v / 256) (v % 256) (omega arith) (omega arith)
    ∙ (let e : v / 256 * 256 + v % 256 ≡ v = omega arith in e)

-- A slice of eight bytes or more, byte by byte.
pub eight_bytes {ℓ} :
    (P : List ℕ → Type ℓ)
    → ((a b c d e f g h : ℕ) (r : List ℕ) → P (a ∷ b ∷ c ∷ d ∷ e ∷ f ∷ g ∷ h ∷ r))
    → (s : List ℕ) → 8 ≤ length s
    → P s
eight_bytes P k (a ∷ b ∷ c ∷ d ∷ e ∷ f ∷ g ∷ h ∷ r) n = k a b c d e f g h r
eight_bytes P k _ n = absurd (omega arith)
