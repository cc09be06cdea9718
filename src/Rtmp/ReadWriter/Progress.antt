-- ===== src/Rtmp/ReadWriter/Progress.antt =====
-- Reading never gives input back, and an error that was met stays.
use yoshiera_huang_livego.Prelude.{ℕ, zero, suc, ◌+◌, ◌*◌, ◌%◌, ◌^◌, ◌≤◌, ◌<◌, ◌≡◌, refl, arith}
use yoshiera_huang_livego.Prelude.{Option, none, some, List, [], ◌∷◌, length, length-drop}
use yoshiera_huang_livego.Pio.{shl}
use yoshiera_huang_livego.Rtmp.ReadWriter.{
  Error, ReadWriter, read_at_least, read_be_loop, read_uint_be, read_le_loop, read_uint_le, read,
  discard,
}

-- `r'` is `r` after some reading.
pub record IsLater (r r' : ReadWriter) : Type 0 where
  pub shorter : length r'.input ≤ length r.input
  pub sticky : r'.read_error ≡ none → r.read_error ≡ none

pub IsLater-refl : (r : ReadWriter) → IsLater r r
IsLater-refl r = record { shorter = omega arith; sticky = λ e. e }

pub IsLater-trans : {r s t : ReadWriter} → IsLater r s → IsLater s t → IsLater r t
IsLater-trans h k = record {
  shorter = omega (arith, h.shorter, k.shorter);
  sticky = λ e. h.sticky (k.sticky e);
}

-- The input may go down; the error that was not there before may be there now.
from_clean :
    (r r' : ReadWriter) → r.read_error ≡ none → length r'.input ≤ length r.input → IsLater r r'
from_clean r r' h short = record { shorter = short; sticky = λ _. h }

read_be_loop-shorter :
    (n v : ℕ) (l : List ℕ) (r : ReadWriter)
    → length (read_be_loop n v (record r { input = l })).1.input ≤ length l
unfolding read_be_loop
read_be_loop-shorter zero v l r = omega arith
read_be_loop-shorter (suc n) v [] r = omega arith
read_be_loop-shorter (suc n) v (b ∷ l) r =
    omega (arith, read_be_loop-shorter n ((shl 32 v 8 + b) % 2 ^ 32) l r)

read_le_loop-shorter :
    (n i v : ℕ) (l : List ℕ) (r : ReadWriter)
    → length (read_le_loop n i v (record r { input = l })).1.input ≤ length l
unfolding read_le_loop
read_le_loop-shorter zero i v l r = omega arith
read_le_loop-shorter (suc n) i v [] r = omega arith
read_le_loop-shorter (suc n) i v (b ∷ l) r =
    omega (arith, read_le_loop-shorter n (i + 1) ((v + shl 32 b (i * 8)) % 2 ^ 32) l r)

be_of :
    (e : Option Error) (n : ℕ) (r : ReadWriter)
    → IsLater (record r { read_error = e }) (read_uint_be n (record r { read_error = e })).1
unfolding read_uint_be
be_of (some e) n r = IsLater-refl (record r { read_error = some e })
be_of none n r =
    from_clean (record r { read_error = none }) _ refl
      (read_be_loop-shorter n 0 r.input (record r { read_error = none }))

pub read_uint_be-IsLater : (n : ℕ) (r : ReadWriter) → IsLater r (read_uint_be n r).1
read_uint_be-IsLater n r = be_of r.read_error n r

le_of :
    (e : Option Error) (n : ℕ) (r : ReadWriter)
    → IsLater (record r { read_error = e }) (read_uint_le n (record r { read_error = e })).1
unfolding read_uint_le
le_of (some e) n r = IsLater-refl (record r { read_error = some e })
le_of none n r =
    from_clean (record r { read_error = none }) _ refl
      (read_le_loop-shorter n 0 0 r.input (record r { read_error = none }))

pub read_uint_le-IsLater : (n : ℕ) (r : ReadWriter) → IsLater r (read_uint_le n r).1
read_uint_le-IsLater n r = le_of r.read_error n r

pub discard-IsLater : (n : ℕ) (r : ReadWriter) → IsLater r (discard n r)
unfolding discard
discard-IsLater n r = record { shorter = omega (arith, length-drop n r.input); sticky = λ e. e }

bytes_of :
    (e : Option Error) (n : ℕ) (r : ReadWriter)
    → IsLater (record r { read_error = e }) (read n (record r { read_error = e })).1
unfolding read
bytes_of (some e) n r = IsLater-refl (record r { read_error = some e })
bytes_of none n r =
    from_clean (record r { read_error = none }) _ refl
      (omega (arith, length-drop (length (read_at_least n r.input).0) r.input))

pub read-IsLater : (n : ℕ) (r : ReadWriter) → IsLater r (read n r).1
read-IsLater n r = bytes_of r.read_error n r

-- A byte that is read without an error is gone from the input.
one_byte :
    (l : List ℕ) (r : ReadWriter)
    → (read_be_loop 1 0 (record r { input = l })).1.read_error ≡ none
    → length (read_be_loop 1 0 (record r { input = l })).1.input < length l
unfolding read_be_loop
one_byte [] r h = absurd (cc)
one_byte (b ∷ l) r h = omega arith

one_byte_of :
    (e : Option Error) (r : ReadWriter)
    → (read_uint_be 1 (record r { read_error = e })).1.read_error ≡ none
    → length (read_uint_be 1 (record r { read_error = e })).1.input < length r.input
unfolding read_uint_be
one_byte_of (some e) r h = absurd (cc)
one_byte_of none r h = one_byte r.input (record r { read_error = none }) h

pub read_uint_be-one_byte :
    (r : ReadWriter)
    → (read_uint_be 1 r).1.read_error ≡ none
    → length (read_uint_be 1 r).1.input < length r.input
read_uint_be-one_byte r h = one_byte_of r.read_error r h
