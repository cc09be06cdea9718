-- ===== src/Amf3/Parts.antt =====
-- What the parts of a value take of the input of a decoder of version 3.
use yoshiera_huang_livego.Prelude.{
  ℕ, zero, suc, ◌+◌, ◌-◌, ◌/◌, ◌^◌, bit_and, arith, inl, inr, Bool, false, Bool-cases, List, [],
  ◌∷◌, length, ◌==◌, if◌then◌else◌,
}
use yoshiera_huang_livego.Amf3.Item.{Item, Fields, no_fields, assign, Refs}
use yoshiera_huang_livego.Amf3.Reader.{
  Reads, ◌>>=◌, ◌>>◌, give, read_byte, read_some, assert_marker, decode_u29, decode_reference,
  string_at, keep_string,
}
use yoshiera_huang_livego.Amf3.External.{
  read_flags, read_fields, extra_name, read_extras, set_of, later_sets, read_extra_bits, read_sets,
  decode_external, abstract_sets, async_sets, decode_abstract_message, decode_async_message,
  decode_acknowledge_message,
}
use yoshiera_huang_livego.Amf3.Takes.{
  Ends, Takes, fewer, weaken, on_done-Ends, then-Takes, first-Takes, if-Takes, give-Takes,
  read_byte-Takes, read_some-Takes, read_be8-Takes, string_at-Takes, keep_string-Takes,
  assert_marker-Takes, u29_rounds-Takes, decode_reference-Takes,
}
use yoshiera_huang_livego.Amf3.Decoder.{decode_integer, decode_double, decode_string}

-- The classes that encode themselves.
flags-Ends : (refs : Refs) (r : List ℕ) → Ends 0 (length r) (read_flags refs r)
unfolding Ends Takes read_flags
flags-Ends refs [] = tt
flags-Ends refs (b ∷ r) = elim (Bool-cases (bit_and b 0x80 == 0)) [
  | inl e ↦ rw e (omega arith)
  | inr e ↦ rw e (
      fewer 0 (length r) 0 (suc (length r)) _ (omega arith) (
        on_done-Ends 0 0 (length r) (suc (length r)) (λ flags. give (b ∷ flags)) (read_flags refs r)
          (omega arith) (flags-Ends refs r) (λ flags refs' r' short. omega arith)))
]

flags-Takes : (n : ℕ) → Takes 0 n read_flags
unfolding Takes
flags-Takes n refs r short = flags-Ends refs r

module _ (n : ℕ) (one : Reads Item) (one-Takes : Takes 0 n one) where
  fields-Takes :
      (flags p : ℕ) (names : List (List ℕ)) (obj : Fields)
      → Takes 0 n (read_fields one flags p names obj)
  unfolding read_fields
  fields-Takes flags p [] obj = give-Takes n obj
  fields-Takes flags p (name ∷ names) obj =
      if-Takes 0 n (bit_and flags (2 ^ p) == 0) _ _ (fields-Takes flags (p + 1) names obj)
        (then-Takes n one _ one-Takes λ v. fields-Takes flags (p + 1) names (assign name v obj))

  extras-Takes :
      (i flags rounds j : ℕ) (obj : Fields) → Takes 0 n (read_extras one i flags rounds j obj)
  unfolding read_extras
  extras-Takes i flags zero j obj = give-Takes n obj
  extras-Takes i flags (suc rounds) j obj =
      if-Takes 0 n (bit_and (flags / 2 ^ j) 0x01 == 0) _ _ (extras-Takes i flags rounds (j + 1) obj)
        (then-Takes n one _ one-Takes
          λ v. extras-Takes i flags rounds (j + 1) (assign (extra_name i j) v obj))

  extra_bits-Takes :
      (i flags reserved : ℕ) (obj : Fields) → Takes 0 n (read_extra_bits one i flags reserved obj)
  unfolding read_extra_bits
  extra_bits-Takes i flags reserved obj =
      if-Takes 0 n (flags / 2 ^ reserved == 0) _ _ (give-Takes n obj)
        (extras-Takes i flags (6 - reserved) reserved obj)

  sets-Takes :
      (i : ℕ) (flags : List ℕ) (sets : List (List (List ℕ))) (obj : Fields)
      → Takes 0 n (read_sets one i flags sets obj)
  unfolding read_sets
  sets-Takes i [] sets obj = give-Takes n obj
  sets-Takes i (flags ∷ rest) sets obj =
      then-Takes n _ _ (fields-Takes flags 0 (set_of sets) obj) λ obj.
        then-Takes n _ _ (extra_bits-Takes i flags (length (set_of sets)) obj)
          λ obj. sets-Takes (i + 1) rest (later_sets sets) obj

  external-Takes :
      (sets : List (List (List ℕ))) (obj : Fields) → Takes 0 n (decode_external one sets obj)
  unfolding decode_external
  external-Takes sets obj =
      then-Takes n read_flags _ (flags-Takes n) λ flags. sets-Takes 0 flags sets obj

  pub async-Takes : Takes 0 n (decode_async_message one)
  unfolding decode_async_message decode_abstract_message
  async-Takes =
      then-Takes n _ _ (external-Takes abstract_sets no_fields) λ obj. external-Takes async_sets obj

  pub acknowledge-Takes : Takes 0 n (decode_acknowledge_message one)
  unfolding decode_acknowledge_message
  acknowledge-Takes = then-Takes n _ _ async-Takes λ obj. external-Takes [] obj

-- The values that hold no others.
pub reference-Takes : (n : ℕ) → Takes 0 n decode_reference
reference-Takes n = weaken n decode_reference (decode_reference-Takes n)

pub byte-Takes : (n : ℕ) → Takes 0 n read_byte
byte-Takes n = weaken n read_byte (read_byte-Takes n)

pub integer-Takes : (n : ℕ) (mark : Bool) → Takes 0 n (decode_integer mark)
unfolding decode_integer decode_u29
integer-Takes n mark =
    then-Takes n _ _ (assert_marker-Takes n mark 0x04)
      λ _. then-Takes n _ _ (weaken n _ (u29_rounds-Takes 3 0 n)) λ u29. give-Takes n _

pub double-Takes : (n : ℕ) (mark : Bool) → Takes 0 n (decode_double mark)
unfolding decode_double
double-Takes n mark = then-Takes n _ _ (assert_marker-Takes n mark 0x05) λ _. read_be8-Takes n

text-Takes :
    (n : ℕ) (p : Bool × ℕ)
    → Takes 0 n (if p.0 then string_at p.1 else (do s ← read_some p.1; keep_string s; give s))
text-Takes n p = if-Takes 0 n p.0 _ _ (string_at-Takes n p.1) (
    then-Takes n _ _ (read_some-Takes n p.1)
      λ s. then-Takes n _ _ (keep_string-Takes n s) λ _. give-Takes n s)

pub string-Takes : (n : ℕ) → Takes 1 n (decode_string false)
unfolding decode_string assert_marker
string-Takes n =
    first-Takes n decode_reference _ (decode_reference-Takes n) λ p. text-Takes (n - 1) p

pub key-Takes : (n : ℕ) → Takes 0 n (decode_string false)
key-Takes n = weaken n (decode_string false) (string-Takes n)
