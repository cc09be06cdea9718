-- ===== src/Amf3/Takes.antt =====
-- What a decoder of version 3 takes of its input, and that it ends.
use yoshiera_huang_livego.Prelude.{
  ℕ, zero, suc, ◌+◌, ◌-◌, bit_and, ◌≤◌, ◌<◌, arith, inl, inr, Bool, true, false, Bool-cases, List,
  [], ◌∷◌, length, length-drop, ◌==◌, ltb, if◌then◌else◌,
}
use yoshiera_huang_livego.Amf.Value.{AmfError}
use yoshiera_huang_livego.Amf3.Item.{Item, Trait, Refs}
use yoshiera_huang_livego.Amf3.Reader.{
  Ended, done, failed, panicked, stuck, on_done, Reads, ◌>>=◌, give, fail, read_byte, read_some,
  read_be8, assert_marker, u29_rounds, decode_u29, decode_reference, entry, string_at, object_at,
  trait_at, keep_string, keep_object, keep_trait,
}

-- The program ends, and a result leaves at least `d` bytes fewer than `n`.
unfoldable pub Ends : {A : Type 0} → ℕ → ℕ → Ended A → Type 0
Ends d n (done a refs r) = d + length r ≤ n
Ends d n (failed e refs) = Unit
Ends d n panicked = Unit
Ends d n stuck = ⊥

-- It does so with any caches and any input of fewer than `n` bytes, and takes at least `d` of them.
unfoldable pub Takes : {A : Type 0} → ℕ → ℕ → Reads A → Type 0
unfolding Ends
Takes d n m = (refs : Refs) (r : List ℕ) → length r < n → Ends d (length r) (m refs r)

pub fewer : {A : Type 0} (d n d' n' : ℕ) (e : Ended A) → d' + n ≤ d + n' → Ends d n e → Ends d' n' e
unfolding Ends
fewer d n d' n' (done a refs r) le h = omega arith
fewer d n d' n' (failed e refs) le h = tt
fewer d n d' n' panicked le h = tt
fewer d n d' n' stuck le h = h

pub weaken : {A : Type 0} (n : ℕ) (m : Reads A) → Takes 1 n m → Takes 0 n m
unfolding Takes
weaken n m h refs r short =
    fewer 1 (length r) 0 (length r) (m refs r) (omega arith) (h refs r short)

pub on_done-Ends :
    {A B : Type 0} (c d k n : ℕ) (f : A → Reads B) (e : Ended A)
    → k < n
    → Ends c k e
    → ((a : A) → Takes d (n - c) (f a))
    → Ends (c + d) k (on_done f e)
unfolding Ends Takes
on_done-Ends c d k n f (done a refs r) le h g =
    fewer d (length r) (c + d) k (f a refs r) (omega arith) (g a refs r (omega arith))
on_done-Ends c d k n f (failed e refs) le h g = tt
on_done-Ends c d k n f panicked le h g = tt
on_done-Ends c d k n f stuck le h g = h

-- One after the other.
pub then-Takes :
    {A B : Type 0} (n : ℕ) (m : Reads A) (f : A → Reads B)
    → Takes 0 n m
    → ((a : A) → Takes 0 n (f a))
    → Takes 0 n (m >>= f)
unfolding Takes
then-Takes n m f h g refs r short =
    on_done-Ends 0 0 (length r) n f (m refs r) short (h refs r short)
      λ a refs r short. g a refs r (omega arith)

-- One that takes a byte, and another.
pub first-Takes :
    {A B : Type 0} (n : ℕ) (m : Reads A) (f : A → Reads B)
    → Takes 1 n m
    → ((a : A) → Takes 0 (n - 1) (f a))
    → Takes 1 n (m >>= f)
unfolding Takes
first-Takes n m f h g refs r short =
    on_done-Ends 1 0 (length r) n f (m refs r) short (h refs r short) g

pub shorter : {A : Type 0} (n n' : ℕ) (m : Reads A) → n' ≤ n → Takes 0 n m → Takes 0 n' m
unfolding Takes
shorter n n' m le h refs r short = h refs r (omega arith)

pub if-Takes :
    {A : Type 0} (d n : ℕ) (b : Bool) (m k : Reads A)
    → Takes d n m
    → Takes d n k
    → Takes d n (if b then m else k)
if-Takes d n true m k hm hk = hm
if-Takes d n false m k hm hk = hk

pub give-Takes : {A : Type 0} (n : ℕ) (a : A) → Takes 0 n (give a)
unfolding Takes Ends
give-Takes n a refs r short = omega arith

pub fail-Takes : (A : Type 0) (n : ℕ) (e : AmfError) → Takes 0 n (fail {A = A} e)
unfolding Takes Ends
fail-Takes A n e refs r short = tt

-- The primitives.
pub read_byte-Takes : (n : ℕ) → Takes 1 n read_byte
unfolding Takes Ends read_byte
read_byte-Takes n refs [] short = tt
read_byte-Takes n refs (b ∷ r) short = omega arith

pub read_some-Takes : (n k : ℕ) → Takes 0 n (read_some k)
unfolding Takes Ends read_some
read_some-Takes n k refs [] short = tt
read_some-Takes n k refs (b ∷ r) short = omega (arith, length-drop k (b ∷ r))

pub read_be8-Takes : (n : ℕ) → Takes 0 n read_be8
unfolding Takes Ends read_be8
read_be8-Takes n refs [] short = tt
read_be8-Takes n refs (b ∷ r) short = elim (Bool-cases (ltb (length (b ∷ r)) 8)) [
  | inl e ↦ rw e tt
  | inr e ↦ rw e (omega (arith, length-drop 8 (b ∷ r)))
]

pub entry-Takes : {A : Type 0} (l : List A) (i n : ℕ) → Takes 0 n (entry l i)
unfolding Takes Ends
entry-Takes [] i n refs r short = tt
entry-Takes (x ∷ l) zero n refs r short = omega arith
entry-Takes (x ∷ l) (suc i) n refs r short = entry-Takes l i n refs r short

pub string_at-Takes : (n i : ℕ) → Takes 0 n (string_at i)
unfolding Takes string_at
string_at-Takes n i refs r short = entry-Takes refs.strings i n refs r short

pub object_at-Takes : (n i : ℕ) → Takes 0 n (object_at i)
unfolding Takes object_at
object_at-Takes n i refs r short = entry-Takes refs.objects i n refs r short

pub trait_at-Takes : (n i : ℕ) → Takes 0 n (trait_at i)
unfolding Takes trait_at
trait_at-Takes n i refs r short = entry-Takes refs.traits i n refs r short

pub keep_string-Takes : (n : ℕ) (s : List ℕ) → Takes 0 n (keep_string s)
unfolding Takes Ends keep_string
keep_string-Takes n [] refs r short = omega arith
keep_string-Takes n (c ∷ s) refs r short = omega arith

pub keep_object-Takes : (n : ℕ) (v : Item) → Takes 0 n (keep_object v)
unfolding Takes Ends keep_object
keep_object-Takes n v refs r short = omega arith

pub keep_trait-Takes : (n : ℕ) (t : Trait) → Takes 0 n (keep_trait t)
unfolding Takes Ends keep_trait
keep_trait-Takes n t refs r short = omega arith

pub assert_marker-Takes : (n : ℕ) (mark : Bool) (m : ℕ) → Takes 0 n (assert_marker mark m)
unfolding assert_marker
assert_marker-Takes n false m = give-Takes n tt
assert_marker-Takes n true m =
    then-Takes n read_byte _ (weaken n read_byte (read_byte-Takes n))
      λ b. if-Takes 0 n (b == m) _ _ (give-Takes n tt) (fail-Takes _ n _)

pub u29_rounds-Takes : (k result n : ℕ) → Takes 1 n (u29_rounds k result)
unfolding u29_rounds
u29_rounds-Takes zero result n =
    first-Takes n read_byte _ (read_byte-Takes n) λ b. give-Takes (n - 1) _
u29_rounds-Takes (suc k) result n = first-Takes n read_byte _ (read_byte-Takes n) λ b.
    if-Takes 0 (n - 1) (bit_and b 0x80 == 0) _ _ (give-Takes (n - 1) _)
      (weaken (n - 1) _ (u29_rounds-Takes k _ (n - 1)))

pub decode_reference-Takes : (n : ℕ) → Takes 1 n decode_reference
unfolding decode_reference decode_u29
decode_reference-Takes n =
    first-Takes n (u29_rounds 3 0) _ (u29_rounds-Takes 3 0 n) λ u29. give-Takes (n - 1) _
