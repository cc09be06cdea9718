-- ===== src/Amf3/Marked.antt =====
-- An integer and an array of bytes, with and without their marker.
use yoshiera_huang_livego.Prelude.{
  ℕ, ◌+◌, ◌-◌, ◌*◌, ◌^◌, ◌<◌, ◌≡◌, refl, ◌∙◌, arith, inl, inr, Bool, true, false, none, List, ◌++◌,
  length, ltb, if◌then◌else◌, append_assoc, le→not_ltb, lt→ltb, Bool-cases, ==_refl,
}
use yoshiera_huang_livego.Amf.Encoder.{wrote, marker}
use yoshiera_huang_livego.Amf.Format.{wrote_lem, behind, then_lem}
use yoshiera_huang_livego.Amf3.Item.{Refs, bytes}
use yoshiera_huang_livego.Amf3.Reader.{done, read_byte, assert_marker, keep_object}
use yoshiera_huang_livego.Amf3.Integers.{u29_bytes, decode_u29_bytes}
use yoshiera_huang_livego.Amf3.Encoder.{
  encode_u29, length_u29, at_last, encode_integer, encode_byte_array,
}
use yoshiera_huang_livego.Amf3.Decoder.{to_signed, decode_integer, decode_byte_array}
use yoshiera_huang_livego.Amf3.Format.{utf8_bytes, last_lem, u29_writes, length_writes}
use yoshiera_huang_livego.Amf3.Reading.{with_object, read_some_lem, reference_lem}

-- The integer of 29 bits with a sign that `n` stands for, as an int64.
abbrev pub with_sign : ℕ → ℕ
with_sign n = if ltb n (2 ^ 28) then n else n + (2 ^ 64 - 2 ^ 29)

to_signed-with_sign : (n : ℕ) → to_signed n ≡ with_sign n
unfolding to_signed
to_signed-with_sign n = elim (Bool-cases (ltb n (2 ^ 28))) [
  | inl e ↦ rw (e, le→not_ltb 0xfffffff n (ground arith)) refl
  | inr e ↦ rw (e, lt→ltb 0xfffffff n (ground arith)) refl
]

assert_marker_lem :
    (mark : Bool) (m : ℕ) (refs : Refs) (r : List ℕ)
    → assert_marker mark m refs (marker mark m ++ r) ≡ done tt refs r
unfolding assert_marker read_byte
assert_marker_lem true m refs r = rw (==_refl m) refl
assert_marker_lem false m refs r = refl

-- An integer below 2 ^ 29 is encoded, with its marker or without, without an error to bytes that go
-- behind what the buffer holds and are as many as the encoder counts. Decoding them gives the
-- integer below 2 ^ 28, and from there on the integer less 2 ^ 29, and leaves what follows.
pub decode_integer-encode_integer :
    (n : ℕ) (mark : Bool) (w : List ℕ) (refs : Refs) (r : List ℕ)
    → n < 2 ^ 29
    → (bs : List ℕ) × (encode_integer n mark w ≡ ((length bs, none), w ++ bs))
      × (decode_integer mark refs (bs ++ r) ≡ done (with_sign n) refs r)
unfolding encode_integer decode_integer
decode_integer-encode_integer n mark w refs r h =
    let m = marker mark 0x04 in
    let bs = m ++ u29_bytes n in
    let count : 0 + length bs ≡ length bs = omega arith in
    (
      bs,
      behind 0 (length m) m (u29_bytes n) w (omega arith) (
            last_lem (encode_u29 n (w ++ m)) (length m) (u29_bytes n) (w ++ m)
              (u29_writes n (w ++ m) h))
          ∙ (λ i. ((count i, none), w ++ bs)),
      rw
          (
            append_assoc m (u29_bytes n) r,
            assert_marker_lem mark 0x04 refs (u29_bytes n ++ r),
            decode_u29_bytes n refs r h,
            to_signed-with_sign n,
          )
          refl,
    )

-- Fewer than 2 ^ 28 bytes are encoded by EncodeAmf3ByteArray, with a marker or without, without an
-- error to bytes that go behind what the buffer holds and are as many as it counts. With at least
-- one byte behind them, DecodeAmf3ByteArray gives the bytes back, leaves what follows, and puts
-- the bytes behind the objects of its cache.
pub decode_byte_array-encode_byte_array :
    (val : List ℕ) (mark : Bool) (w : List ℕ) (refs : Refs) (r : List ℕ)
    → length val < 2 ^ 28
    → 0 < length r
    → (bs : List ℕ) × (encode_byte_array val mark w ≡ ((length bs, none), w ++ bs))
      × (decode_byte_array mark refs (bs ++ r) ≡ done val (with_object (bytes val) refs) r)
unfolding encode_byte_array decode_byte_array keep_object
decode_byte_array-encode_byte_array val mark w refs r h more =
    let m = marker mark 0x0c in
    let front = u29_bytes (length val * 2 + 1) in
    let bs = m ++ utf8_bytes val in
    let count : 0 + length bs ≡ length bs = omega arith in
    (
      bs,
      behind 0 (length m) m (utf8_bytes val) w (omega arith) (
            then_lem (encode_u29 (length_u29 (length val)) (w ++ m))
              (λ n w. at_last n (wrote val w)) (length m) front val (w ++ m)
              (length_writes (length val) (w ++ m) h)
              (λ k.
                last_lem (wrote val ((w ++ m) ++ front)) k val ((w ++ m) ++ front)
                  (wrote_lem val val ((w ++ m) ++ front) refl)))
          ∙ (λ i. ((count i, none), w ++ bs)),
      rw
          (
            append_assoc m (utf8_bytes val) r,
            append_assoc front val r,
            assert_marker_lem mark 0x0c refs (front ++ (val ++ r)),
            reference_lem (length val) refs (val ++ r) h,
            read_some_lem val refs r more,
          )
          refl,
    )
