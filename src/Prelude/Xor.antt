-- ===== src/Prelude/Xor.antt =====
-- `^` on numbers: its digits, its laws, and that it works on the high and the low bits apart.
use Prim.Native.Nat.{
  ℕ, zero, suc, ◌+◌, ◌*◌, ◌/◌, ◌%◌, ◌^◌, ◌≤◌, ◌<◌, bit_xor, differ, bit_xor-bitwise,
}
use mathlib.Core.Path.{◌≡◌, refl, ap, ◌∙◌}
use native.Mathlib.Omega.{arith}
use native.Mathlib.Nat.{pow-suc}
use yoshiera_huang_livego.Prelude.Bits.{halved}

differ_sum : (a b : ℕ) → differ (a % 2) (b % 2) ≡ (a + b) % 2
differ_sum a b =
    by_digits (a % 2) (b % 2) (omega arith) (omega arith)
    ∙ (let e : (a % 2 + b % 2) % 2 ≡ (a + b) % 2 = omega arith in e)
  where
    by_digits : (x y : ℕ) → x < 2 → y < 2 → differ x y ≡ (x + y) % 2
    by_digits zero zero h k = refl
    by_digits zero (suc zero) h k = refl
    by_digits (suc zero) zero h k = refl
    by_digits (suc zero) (suc zero) h k = refl
    by_digits (suc (suc x)) y h k = absurd (omega arith)
    by_digits x (suc (suc y)) h k = absurd (omega arith)

pub xor_digit : (a b : ℕ) → bit_xor a b ≡ bit_xor (a / 2) (b / 2) * 2 + (a + b) % 2
xor_digit zero b = omega (arith, zero_left b, zero_left (b / 2))
  where
    zero_left : (b : ℕ) → bit_xor 0 b ≡ b
    zero_left b = bit_xor-bitwise 0 b
xor_digit (suc a) b =
    simp bit_xor-bitwise (omega (arith, halved (λ y. y) differ a (b / 2), differ_sum (suc a) b))

pub zero-bit_xor : (b : ℕ) → bit_xor 0 b ≡ b
zero-bit_xor b = bit_xor-bitwise 0 b

comm_up_to : (n a b : ℕ) → a ≤ n → b ≤ n → bit_xor a b ≡ bit_xor b a
comm_up_to n zero zero h k = refl
comm_up_to zero (suc a) b h k = absurd (omega arith)
comm_up_to zero a (suc b) h k = absurd (omega arith)
comm_up_to (suc n) a b h k =
    omega (
      arith,
      xor_digit a b,
      xor_digit b a,
      comm_up_to n (a / 2) (b / 2) (omega arith) (omega arith),
    )

pub bit_xor_comm : (a b : ℕ) → bit_xor a b ≡ bit_xor b a
bit_xor_comm a b = comm_up_to (a + b) a b (omega arith) (omega arith)

assoc_up_to :
    (n a b c : ℕ) → a ≤ n → b ≤ n → c ≤ n → bit_xor (bit_xor a b) c ≡ bit_xor a (bit_xor b c)
assoc_up_to zero zero zero zero h k l = refl
assoc_up_to zero (suc a) b c h k l = absurd (omega arith)
assoc_up_to zero a (suc b) c h k l = absurd (omega arith)
assoc_up_to zero a b (suc c) h k l = absurd (omega arith)
assoc_up_to (suc n) a b c h k l =
    let ih = assoc_up_to n (a / 2) (b / 2) (c / 2) (omega arith) (omega arith) (omega arith) in
    let left : bit_xor a b / 2 ≡ bit_xor (a / 2) (b / 2) = omega (arith, xor_digit a b) in
    let right : bit_xor b c / 2 ≡ bit_xor (b / 2) (c / 2) = omega (arith, xor_digit b c) in
    let l =
      xor_digit (bit_xor a b) c
      ∙ ap (λ (t : ℕ). bit_xor t (c / 2) * 2 + (bit_xor a b + c) % 2) left in
    let r =
      xor_digit a (bit_xor b c)
      ∙ ap (λ (t : ℕ). bit_xor (a / 2) t * 2 + (a + bit_xor b c) % 2) right in
    omega (arith, ih, l, r, xor_digit a b, xor_digit b c)

pub bit_xor_assoc : (a b c : ℕ) → bit_xor (bit_xor a b) c ≡ bit_xor a (bit_xor b c)
bit_xor_assoc a b c = assoc_up_to (a + b + c) a b c (omega arith) (omega arith) (omega arith)

-- The bits above the lowest `k` and those `k` are combined apart.
pub bit_xor_split :
    (k h g l r : ℕ)
    → l < 2 ^ k
    → r < 2 ^ k
    → bit_xor (h * 2 ^ k + l) (g * 2 ^ k + r) ≡ bit_xor h g * 2 ^ k + bit_xor l r
bit_xor_split zero h g zero zero p q = omega (
  arith,
  ap (λ (t : ℕ). bit_xor t (g * 1 + 0)) (let e : h * 1 + 0 ≡ h = omega arith in e),
  ap (λ (t : ℕ). bit_xor h t) (let e : g * 1 + 0 ≡ g = omega arith in e),
  zero-bit_xor 0,
)
bit_xor_split zero h g (suc l) r p q = absurd (omega arith)
bit_xor_split zero h g l (suc r) p q = absurd (omega arith)
bit_xor_split (suc k) h g l r p q =
    let hp = ap (λ (t : ℕ). h * t) (pow-suc 2 k) in
    let gp = ap (λ (t : ℕ). g * t) (pow-suc 2 k) in
    let xp = ap (λ (t : ℕ). bit_xor h g * t) (pow-suc 2 k) in
    let ih =
      bit_xor_split k h g (l / 2) (r / 2) (omega (arith, pow-suc 2 k))
        (omega (arith, pow-suc 2 k)) in
    let x : (h * 2 ^ suc k + l) / 2 ≡ h * 2 ^ k + l / 2 = grind (arith, hp) in
    let y : (g * 2 ^ suc k + r) / 2 ≡ g * 2 ^ k + r / 2 = grind (arith, gp) in
    let whole =
      xor_digit (h * 2 ^ suc k + l) (g * 2 ^ suc k + r)
      ∙ (λ i. bit_xor (x i) (y i) * 2 + (h * 2 ^ suc k + l + (g * 2 ^ suc k + r)) % 2) in
    grind (arith, whole, ih, hp, gp, xp, xor_digit l r)

pub bit_xor-lt : (k l r : ℕ) → l < 2 ^ k → r < 2 ^ k → bit_xor l r < 2 ^ k
bit_xor-lt zero zero zero p q = omega (arith, zero-bit_xor 0)
bit_xor-lt zero (suc l) r p q = absurd (omega arith)
bit_xor-lt zero l (suc r) p q = absurd (omega arith)
bit_xor-lt (suc k) l r p q = omega (
  arith,
  xor_digit l r,
  pow-suc 2 k,
  bit_xor-lt k (l / 2) (r / 2) (omega (arith, pow-suc 2 k)) (omega (arith, pow-suc 2 k)),
)

self_up_to : (n a : ℕ) → a ≤ n → bit_xor a a ≡ 0
self_up_to n zero h = refl
self_up_to zero (suc a) h = absurd (omega arith)
self_up_to (suc n) (suc a) h =
    omega (arith, xor_digit (suc a) (suc a), self_up_to n (suc a / 2) (omega arith))

pub bit_xor_self : (a : ℕ) → bit_xor a a ≡ 0
bit_xor_self a = self_up_to a a (omega arith)
