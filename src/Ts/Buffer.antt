-- ===== src/Ts/Buffer.antt =====
-- Go's slices of bytes as container/ts fills them: stores, `|=` and copy.
use yoshiera_huang_livego.Prelude.{ℕ, zero, suc, ◌+◌, ◌-◌, ◌≤◌, bit_or, ◌≡◌, refl, ap, arith}
use yoshiera_huang_livego.Prelude.{List, [], ◌∷◌, ◌++◌, Option, none, some, ◌>>=◌}
use yoshiera_huang_livego.Prelude.{length, take, drop, leb, le→leb, if◌then◌else◌}
use yoshiera_huang_livego.Pio.{at, store}

-- `b[i] |= v`
abbrev pub or_at : List ℕ → ℕ → ℕ → Option (List ℕ)
or_at b i v = do x ← at b i; store b i (bit_or x v)

-- The stores of a run of bytes, from b[i] on, one after another.
abbrev pub store_all : List ℕ → ℕ → List ℕ → Option (List ℕ)
store_all b i [] = some b
store_all b i (v ∷ vs) = do b ← store b i v; store_all b (i + 1) vs

-- `copy(b, src)`: as many bytes as both have.
abbrev pub copy : List ℕ → List ℕ → List ℕ
copy [] src = []
copy (x ∷ b) [] = x ∷ b
copy (x ∷ b) (y ∷ src) = y ∷ copy b src

-- `f(b[i:])` for an `f` that fills the sub_slice in place.
abbrev pub from : List ℕ → ℕ → (List ℕ → Option (List ℕ)) → Option (List ℕ)
from b zero f = f b
from [] (suc i) f = none
from (x ∷ b) (suc i) f = do b ← from b i f; some (x ∷ b)

-- `b[lo:hi]`
abbrev pub sub_slice : List ℕ → ℕ → ℕ → Option (List ℕ)
sub_slice b lo hi =
    if leb lo hi
    then (if leb hi (length b) then some (take (hi - lo) (drop lo b)) else none)
    else none

pub length-copy : (b src : List ℕ) → length (copy b src) ≡ length b
length-copy [] src = refl
length-copy (x ∷ b) [] = refl
length-copy (x ∷ b) (y ∷ src) = ap suc (length-copy b src)

pub copy_lem : (b src : List ℕ) → length src ≤ length b → copy b src ≡ src ++ drop (length src) b
copy_lem [] [] h = refl
copy_lem [] (y ∷ src) h = absurd (omega arith)
copy_lem (x ∷ b) [] h = refl
copy_lem (x ∷ b) (y ∷ src) h = ap (λ l. y ∷ l) (copy_lem b src (omega arith))

pub from-append :
    (front suf new : List ℕ) (f : List ℕ → Option (List ℕ))
    → f suf ≡ some new
    → from (front ++ suf) (length front) f ≡ some (front ++ new)
from-append [] suf new f e = e
from-append (x ∷ front) suf new f e = rw (from-append front suf new f e)

pub sub_slice_lem :
    (b : List ℕ) (lo n : ℕ)
    → lo + n ≤ length b
    → sub_slice b lo (lo + n) ≡ some (take n (drop lo b))
sub_slice_lem b lo n h =
    let e : lo + n - lo ≡ n = omega arith in
    rw (le→leb lo (lo + n) (omega arith), le→leb (lo + n) (length b) h, e)
