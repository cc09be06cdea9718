-- ===== src/Rtmp/Handshake/Packet.antt =====
-- The packets of protocol/rtmp/core/handshake.go: the place of a digest, and the parts that are filled.
use yoshiera_huang_livego.Prelude.{
  ℕ, zero, suc, ◌+◌, ◌%◌, ◌≤◌, ◌<◌, ◌≡◌, refl, sym, ap, ◌∙◌, arith, Option, some, List, [], ◌∷◌,
  ◌++◌, length, length-append, length-take, length-drop, take, drop, take-length_append,
  drop-length_append, take-append-drop, take-all,
}
use yoshiera_huang_livego.Pio.{at, u32be, put_u32be}
use yoshiera_huang_livego.Ts.Buffer.{copy, length-copy, from, sub_slice, sub_slice_lem}
use yoshiera_huang_livego.Rtmp.Handshake.{sum_at, hs_calc_digest_pos}

-- The bytes of a front.
pub at-append : (a b : List ℕ) (i : ℕ) → i < length a → at (a ++ b) i ≡ at a i
at-append [] b i h = absurd (omega arith)
at-append (x ∷ a) b zero h = refl
at-append (x ∷ a) b (suc i) h = at-append a b i (omega arith)

pub at-some : (a : List ℕ) (i : ℕ) → i < length a → (x : ℕ) × (at a i ≡ some x)
at-some [] i h = absurd (omega arith)
at-some (x ∷ a) zero h = (x, refl)
at-some (x ∷ a) (suc i) h = at-some a i (omega arith)

pub sum_at-append : (n i : ℕ) (a b : List ℕ) → i + n ≤ length a → sum_at n (a ++ b) i ≡ sum_at n a i
unfolding sum_at
sum_at-append zero i a b h = refl
sum_at-append (suc n) i a b h =
    rw (at-append a b i (omega arith), sum_at-append n (i + 1) a b (omega arith)) refl

pub sum_at-some : (n i : ℕ) (a : List ℕ) → i + n ≤ length a → (x : ℕ) × (sum_at n a i ≡ some x)
unfolding sum_at
sum_at-some zero i a h = (0, refl)
sum_at-some (suc n) i a h =
    let (b, e) = at-some a i (omega arith) in
    let (x, k) = sum_at-some n (i + 1) a (omega arith) in (b + x, rw (e, k) refl)

-- The position of the digest is inside the packet, behind the bytes that give it.
pub pos_lem :
    (base : ℕ) (p : List ℕ)
    → base + 4 ≤ length p
    → (gap : ℕ) × (hs_calc_digest_pos p base ≡ some gap) × (base + 4 ≤ gap) × (gap ≤ base + 731)
unfolding hs_calc_digest_pos
pos_lem base p h =
    let (x, e) = sum_at-some 4 base p h in (x % 728 + base + 4, rw e refl, omega arith, omega arith)

pub pos-append :
    (base : ℕ) (a b c : List ℕ)
    → base + 4 ≤ length a
    → hs_calc_digest_pos (a ++ b) base ≡ hs_calc_digest_pos (a ++ c) base
unfolding hs_calc_digest_pos
pos-append base a b c h = rw (sum_at-append 4 base a b h, sum_at-append 4 base a c h) refl

-- The parts of a slice that is put together.
pub slice_front : (a b : List ℕ) → sub_slice (a ++ b) 0 (length a) ≡ some a
slice_front a b =
    let zero_add : 0 + length a ≡ length a = omega arith in
    ap (sub_slice (a ++ b) 0) (sym zero_add)
    ∙ sub_slice_lem (a ++ b) 0 (length a) (omega (arith, length-append a b))
    ∙ ap some (take-length_append a b)

pub slice_end : (a b : List ℕ) → sub_slice (a ++ b) (length a) (length (a ++ b)) ≡ some b
slice_end a b =
    ap (sub_slice (a ++ b) (length a)) (length-append a b)
    ∙ sub_slice_lem (a ++ b) (length a) (length b) (omega (arith, length-append a b))
    ∙ ap some (ap (take (length b)) (drop-length_append a b) ∙ take-all (length b) b (omega arith))

pub slice_middle :
    (a m b : List ℕ) → sub_slice (a ++ (m ++ b)) (length a) (length a + length m) ≡ some m
slice_middle a m b =
    sub_slice_lem (a ++ (m ++ b)) (length a) (length m)
      (omega (arith, length-append a (m ++ b), length-append m b))
    ∙ ap some (ap (take (length m)) (drop-length_append a (m ++ b)) ∙ take-length_append m b)

-- A packet cut at 32 bytes in the middle.
abbrev pub Cut : List ℕ → ℕ → Type 0
Cut p gap =
    (a : List ℕ) × (m : List ℕ) × (b : List ℕ) × (p ≡ a ++ (m ++ b))
    × (length a ≡ gap)
    × (length m ≡ 32)

pub cut : (p : List ℕ) (gap : ℕ) → gap + 32 ≤ length p → Cut p gap
cut p gap h =
    let rest = drop gap p in
    let size : 32 ≤ length rest = omega (arith, length-drop gap p) in
    (
      take gap p,
      take 32 rest,
      drop 32 rest,
      sym (
          ap (λ (t : List ℕ). take gap p ++ t) (take-append-drop 32 rest) ∙ take-append-drop gap p),
      omega (arith, length-take gap p),
      omega (arith, length-take 32 rest),
    )

-- A function on slices that panics on none of `n` bytes or more, and keeps the length.
abbrev pub Fills : ℕ → (List ℕ → Option (List ℕ)) → Type 0
Fills n f = (s : List ℕ) → n ≤ length s → (t : List ℕ) × (f s ≡ some t) × (length t ≡ length s)

pub copy-Fills : (src : List ℕ) → Fills 0 (λ s. some (copy s src))
copy-Fills src s h = (copy s src, refl, length-copy s src)

pub put_u32be-Fills : (v : ℕ) → Fills 4 (λ s. put_u32be s v)
unfolding put_u32be
put_u32be-Fills v (a ∷ b ∷ c ∷ d ∷ r) h = (_, refl, refl)
put_u32be-Fills v _ h = absurd (omega arith)

pub from-Fills :
    (f : List ℕ → Option (List ℕ)) (n i : ℕ) → Fills n f → Fills (i + n) (λ s. from s i f)
from-Fills f n zero k s h = k s (omega arith)
from-Fills f n (suc i) k [] h = absurd (omega arith)
from-Fills f n (suc i) k (x ∷ s) h =
    let (t, e, l) = from-Fills f n i k s (omega arith) in (x ∷ t, rw e refl, ap suc l)

pub u32be-some : (p : List ℕ) → 4 ≤ length p → (x : ℕ) × (u32be p ≡ some x)
unfolding u32be
u32be-some (a ∷ b ∷ c ∷ d ∷ p) h = (_, refl)
u32be-some _ h = absurd (omega arith)
