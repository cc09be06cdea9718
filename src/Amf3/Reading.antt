-- ===== src/Amf3/Reading.antt =====
-- What the decoder of version 3 reads of numbers, lengths and strings.
use yoshiera_huang_livego.Prelude.{
  ℕ, suc, ◌+◌, ◌-◌, ◌*◌, ◌/◌, ◌^◌, ◌<◌, ◌≡◌, refl, ap, ◌∙◌, arith, false, List, [], ◌∷◌, ◌++◌,
  length, length-append, take-length_append, drop-length_append, append_assoc, append-nil,
  le→not_ltb, bit_and,
}
use native.Mathlib.Nat.{mod-eq_of_lt}
use yoshiera_huang_livego.Prelude.Bits.{bit_and-mod}
use yoshiera_huang_livego.Rtmp.ReadWriter.Emit.{be_bytes}
use yoshiera_huang_livego.Pio.{from_be}
use yoshiera_huang_livego.Amf.RoundTrip.{from_be-be_bytes}
use yoshiera_huang_livego.Amf3.Item.{Item, Refs}
use yoshiera_huang_livego.Amf3.Reader.{
  done, read_some, read_be8, assert_marker, decode_reference, keep_string,
}
use yoshiera_huang_livego.Amf3.Integers.{u29_bytes, decode_u29_bytes}
use yoshiera_huang_livego.Amf3.Format.{utf8_bytes}
use yoshiera_huang_livego.Amf3.Decoder.{decode_string}

-- The caches behind a string and behind an object.
abbrev pub with_string : List ℕ → Refs → Refs
with_string [] refs = refs
with_string (c ∷ s) refs = record refs { strings = refs.strings ++ (c ∷ s) ∷ [] }

abbrev pub with_object : Item → Refs → Refs
with_object v refs = record refs { objects = refs.objects ++ v ∷ [] }

pub read_some_lem :
    (s : List ℕ) (refs : Refs) (r : List ℕ)
    → 0 < length r
    → read_some (length s) refs (s ++ r) ≡ done s refs r
unfolding read_some
read_some_lem [] refs [] h = absurd (omega arith)
read_some_lem [] refs (x ∷ r) h =
    let none_missing : 0 - suc (length r) ≡ 0 = omega arith in rw none_missing refl
read_some_lem (c ∷ s) refs r h =
    let none_missing : suc (length s) - suc (length (s ++ r)) ≡ 0 =
      omega (arith, length-append s r) in
    rw (none_missing, take-length_append s r, drop-length_append s r, append-nil s) refl

pub read_be8_lem :
    (x : ℕ) (refs : Refs) (r : List ℕ)
    → x < 2 ^ 64
    → read_be8 refs (be_bytes 8 x ++ r) ≡ done x refs r
unfolding read_be8
read_be8_lem x refs r h =
    let whole : from_be 0 (be_bytes 8 x) ≡ x =
      from_be-be_bytes 8 0 x ∙ (omega (arith, mod-eq_of_lt h)) in
    let long = le→not_ltb (length (be_bytes 8 x ++ r)) 8 (omega arith) in
    rw long (ap (λ (n : ℕ). done n refs r) whole)

-- The length of what follows.
pub reference_lem :
    (n : ℕ) (refs : Refs) (r : List ℕ)
    → n < 2 ^ 28
    → decode_reference refs (u29_bytes (n * 2 + 1) ++ r) ≡ done (false, n) refs r
unfolding decode_reference
reference_lem n refs r h =
    let odd : bit_and (n * 2 + 1) 1 ≡ 1 = omega (arith, bit_and-mod 1 (n * 2 + 1)) in
    let half : (n * 2 + 1) / 2 ^ 1 ≡ n = omega arith in
    rw (decode_u29_bytes (n * 2 + 1) refs r (omega arith), odd, half) refl

keep_string_lem :
    (s : List ℕ) (refs : Refs) (r : List ℕ) → keep_string s refs r ≡ done tt (with_string s refs) r
unfolding keep_string
keep_string_lem [] refs r = refl
keep_string_lem (c ∷ s) refs r = refl

pub decode_string_lem :
    (s : List ℕ) (refs : Refs) (r : List ℕ)
    → length s < 2 ^ 28
    → 0 < length r
    → decode_string false refs (utf8_bytes s ++ r) ≡ done s (with_string s refs) r
unfolding decode_string assert_marker
decode_string_lem s refs r h more =
    rw
      (
        append_assoc (u29_bytes (length s * 2 + 1)) s r,
        reference_lem (length s) refs (s ++ r) h,
        read_some_lem s refs r more,
        keep_string_lem s refs r,
      )
      refl
