-- ===== src/Prelude/Bits.antt =====
-- `|` of disjoint fields and `&` with a low mask as arithmetic.
use Prim.Native.Nat.{ℕ, zero, suc, ◌+◌, ◌-◌, ◌*◌, ◌/◌, ◌%◌, ◌^◌, ◌≤◌, ◌<◌, min, max}
use Prim.Native.Nat.{bit_and, bit_or, digits, bit_and-bitwise, bit_or-bitwise}
use mathlib.Core.Path.{◌≡◌, refl, sym, ap, ◌∙◌}
use native.Mathlib.Omega.{arith}
use native.Mathlib.Nat.{
  pow-suc, one-le-pow, div-add-mod, mod-lt, mod-eq_of_lt, add-mul-mod_self_right,
}

-- `k` more than `n`.
abbrev above : ℕ → ℕ → ℕ
above zero n = n
above (suc k) n = suc (above k n)

above_sum : (k n : ℕ) → above k n ≡ k + n
above_sum zero n = omega arith
above_sum (suc k) n = omega (arith, above_sum k n)

-- Fuel that the digit recursion of the native operations does not need changes nothing.
module _ (z : ℕ → ℕ) (f : ℕ → ℕ → ℕ) where
  one_spare : (n a b : ℕ) → a ≤ n → digits z f (suc n) a b ≡ digits z f n a b
  one_spare zero zero b h = refl
  one_spare zero (suc a) b h = absurd (omega arith)
  one_spare (suc n) zero b h = refl
  one_spare (suc n) (suc a) b h =
      ap (λ (d : ℕ). d * 2 + f (suc a % 2) (b % 2)) (one_spare n (suc a / 2) (b / 2) (omega arith))

  spare_fuel : (k n a b : ℕ) → a ≤ n → digits z f (above k n) a b ≡ digits z f n a b
  spare_fuel zero n a b h = refl
  spare_fuel (suc k) n a b h =
      one_spare (above k n) a b (omega (arith, above_sum k n)) ∙ spare_fuel k n a b h

  pub halved : (a b : ℕ) → digits z f a (suc a / 2) b ≡ digits z f (suc a / 2) (suc a / 2) b
  halved a b =
      let left = a - suc a / 2 in
      let whole : a ≡ above left (suc a / 2) = omega (arith, above_sum left (suc a / 2)) in
      ap (λ (m : ℕ). digits z f m (suc a / 2) b) whole
      ∙ spare_fuel left (suc a / 2) (suc a / 2) b (omega arith)

or_digit : (a b : ℕ) → bit_or a b ≡ bit_or (a / 2) (b / 2) * 2 + max (a % 2) (b % 2)
or_digit zero b = simp bit_or-bitwise (omega arith)
or_digit (suc a) b = simp bit_or-bitwise (omega (arith, halved (λ y. y) max a (b / 2)))

and_digit : (a b : ℕ) → bit_and a b ≡ bit_and (a / 2) (b / 2) * 2 + min (a % 2) (b % 2)
and_digit zero b = simp bit_and-bitwise (omega arith)
and_digit (suc a) b = simp bit_and-bitwise (omega (arith, halved (λ y. 0) min a (b / 2)))

-- With 0, by the halves of a number up to `n`.
with_zero : (n a : ℕ) → a ≤ n → (bit_or a 0 ≡ a) × (bit_and a 0 ≡ 0)
with_zero n zero h = (refl, refl)
with_zero zero (suc a) h = absurd (omega arith)
with_zero (suc n) (suc a) h =
    let (or, and) = with_zero n (suc a / 2) (omega arith) in
    (omega (arith, or_digit (suc a) 0, or), omega (arith, and_digit (suc a) 0, and))

pub bit_or-zero : (a : ℕ) → bit_or a 0 ≡ a
bit_or-zero a = (with_zero a a (omega arith)).0

-- `x | r`, with the low `k` bits of `x` clear and `r` below `2 ^ k`, is a sum.
pub bit_or-add : (k q r : ℕ) → r < 2 ^ k → bit_or (q * 2 ^ k) r ≡ q * 2 ^ k + r
bit_or-add zero q zero h = omega (arith, bit_or-zero (q * 1))
bit_or-add zero q (suc r) h = absurd (omega arith)
bit_or-add (suc k) q r h =
    let doubled = ap (λ (t : ℕ). q * t) (pow-suc 2 k) in
    let half = bit_or-add k q (r / 2) (omega (arith, pow-suc 2 k)) in
    ground (arith, or_digit (q * 2 ^ suc k) r, pow-suc 2 k, doubled, half)

mod_twice : (p a : ℕ) → 0 < p → a % (p * 2) ≡ a / 2 % p * 2 + a % 2
mod_twice p a h =
    let x = a / 2 % p * 2 + a % 2 in
    let whole : x + a / 2 / p * (p * 2) ≡ a =
      omega (arith, ap (λ (t : ℕ). t * 2) (div-add-mod (a / 2) p)) in
    let fits : x < p * 2 = omega (arith, mod-lt (a / 2) h) in
    ap (λ (t : ℕ). t % (p * 2)) (sym whole)
    ∙ add-mul-mod_self_right x (a / 2 / p) (p * 2)
    ∙ mod-eq_of_lt fits

-- `x & (2 ^ k - 1)` is the remainder.
pub bit_and-mod : (k a : ℕ) → bit_and a (2 ^ k - 1) ≡ a % 2 ^ k
bit_and-mod zero a = omega (arith, (with_zero a a (omega arith)).1)
bit_and-mod (suc k) a = grind (
  arith,
  and_digit a (2 ^ suc k - 1),
  pow-suc 2 k,
  one-le-pow k 2,
  bit_and-mod k (a / 2),
  mod_twice (2 ^ k) a,
)
