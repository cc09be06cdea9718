-- ===== src/Pio/RoundTrip.antt =====
-- What a Put function of utils/pio writes is what the reader of that width reads back.
use yoshiera_huang_livego.Prelude.{ℕ, ◌+◌, ◌-◌, ◌/◌, ◌%◌, ◌^◌, ◌≤◌, ◌<◌, ◌≡◌, refl, sym, ap, ◌∙◌}
use yoshiera_huang_livego.Prelude.{
  List, ◌∷◌, Option, some, ◌>>=◌, arith, length, ltb, if◌then◌else◌,
}
use yoshiera_huang_livego.Pio.Words.{
  byte, sign_extend, push, push_wraps, push-byte, push_last, push_agree, push-lt, sign_extend_agree,
  eight_bytes,
}
use yoshiera_huang_livego.Pio.{
  u8, i16be, u16be, i24be, u24be, i32be, u32be, u32le, u40be, u64be, i64be,
}
use yoshiera_huang_livego.Pio.{
  put_u8, put_i16be, put_u16be, put_i24be, put_u24be, put_i32be, put_u32be, put_u32le, put_u40be,
  put_u64be, put_i64be,
}
use native.Mathlib.Nat.{mod-eq_of_lt}

-- The bytes of a word, pushed one after the other, are the word.
join16 : (w v : ℕ) → v < 2 ^ 16 → v < 2 ^ w → push w (byte (v / 2 ^ 8)) (byte v) ≡ v
join16 w v h hw = push_last w v _ hw (omega arith)

join24 :
    (v : ℕ) → v < 2 ^ 24 → push 32 (push 32 (byte (v / 2 ^ 16)) (byte (v / 2 ^ 8))) (byte v) ≡ v
join24 v h = push_last 32 v _ (omega arith) (push-byte 32 (2 ^ 8) v _ (omega arith) (omega arith))

join32 :
    (v : ℕ)
    → v < 2 ^ 32
    → push 32
        (push 32 (push 32 (byte (v / 2 ^ 24)) (byte (v / 2 ^ 16))) (byte (v / 2 ^ 8)))
        (byte v)
      ≡ v
join32 v h =
    push_last 32 v _ (omega arith) (
      push-byte 32 (2 ^ 8) v _ (omega arith)
        (push-byte 32 (2 ^ 16) v _ (omega arith) (omega arith)))

-- U32BE of the four bytes of a word.
pub u32be-bytes :
    (v : ℕ) (rest : List ℕ)
    → v < 2 ^ 32
    → u32be (byte (v / 2 ^ 24) ∷ byte (v / 2 ^ 16) ∷ byte (v / 2 ^ 8) ∷ byte v ∷ rest) ≡ some v
unfolding u32be
u32be-bytes v rest h = ap some (join32 v h)

join40 :
    (v : ℕ)
    → v < 2 ^ 40
    → push 64
        (push 64
          (push 64 (push 64 (byte (v / 2 ^ 32)) (byte (v / 2 ^ 24))) (byte (v / 2 ^ 16)))
          (byte (v / 2 ^ 8)))
        (byte v)
      ≡ v
join40 v h = push_last 64 v _ (omega arith) (
    push-byte 64 (2 ^ 8) v _ (omega arith) (
      push-byte 64 (2 ^ 16) v _ (omega arith)
        (push-byte 64 (2 ^ 24) v _ (omega arith) (omega arith))))

join64 :
    (v : ℕ)
    → v < 2 ^ 64
    → push 64
        (push 64
          (push 64
            (push 64
              (push 64
                (push 64 (push 64 (byte (v / 2 ^ 56)) (byte (v / 2 ^ 48))) (byte (v / 2 ^ 40)))
                (byte (v / 2 ^ 32)))
              (byte (v / 2 ^ 24)))
            (byte (v / 2 ^ 16)))
          (byte (v / 2 ^ 8)))
        (byte v)
      ≡ v
join64 v h = push_last 64 v _ (omega arith) (
    push-byte 64 (2 ^ 8) v _ (omega arith) (
      push-byte 64 (2 ^ 16) v _ (omega arith) (
        push-byte 64 (2 ^ 24) v _ (omega arith) (
          push-byte 64 (2 ^ 32) v _ (omega arith) (
            push-byte 64 (2 ^ 40) v _ (omega arith)
              (push-byte 64 (2 ^ 48) v _ (omega arith) (omega arith)))))))

-- Only the low byte of the first operand is left when a word of 32 bits is full.
same32 :
    (x y b0 b1 b2 : ℕ)
    → b0 < 256
    → b1 < 256
    → b2 < 256
    → x % 256 ≡ y % 256
    → push 32 (push 32 (push 32 x b0) b1) b2 ≡ push 32 (push 32 (push 32 y b0) b1) b2
same32 x y b0 b1 b2 l0 l1 l2 h =
    sym (mod-eq_of_lt (push-lt 32 24 _ b2 refl l2))
    ∙ push_agree 32 24 (2 ^ 24) _ _ b2 refl refl (omega arith) l2 (
        push_agree 32 24 (2 ^ 16) _ _ b1 refl refl (omega arith) l1
          (push_agree 32 24 (2 ^ 8) _ _ b0 refl refl (omega arith) l0 h))
    ∙ mod-eq_of_lt (push-lt 32 24 _ b2 refl l2)

-- Only the low byte of the first operand is left when a word of 64 bits is full.
same64 :
    (x y b0 b1 b2 b3 b4 b5 b6 : ℕ)
    → b0 < 256
    → b1 < 256
    → b2 < 256
    → b3 < 256
    → b4 < 256
    → b5 < 256
    → b6 < 256
    → x % 256 ≡ y % 256
    → push 64 (push 64 (push 64 (push 64 (push 64 (push 64 (push 64 x b0) b1) b2) b3) b4) b5) b6
      ≡ push 64 (push 64 (push 64 (push 64 (push 64 (push 64 (push 64 y b0) b1) b2) b3) b4) b5) b6
same64 x y b0 b1 b2 b3 b4 b5 b6 l0 l1 l2 l3 l4 l5 l6 h =
    sym (mod-eq_of_lt (push-lt 64 56 _ b6 refl l6))
    ∙ push_agree 64 56 (2 ^ 56) _ _ b6 refl refl (omega arith) l6 (
        push_agree 64 56 (2 ^ 48) _ _ b5 refl refl (omega arith) l5 (
          push_agree 64 56 (2 ^ 40) _ _ b4 refl refl (omega arith) l4 (
            push_agree 64 56 (2 ^ 32) _ _ b3 refl refl (omega arith) l3 (
              push_agree 64 56 (2 ^ 24) _ _ b2 refl refl (omega arith) l2 (
                push_agree 64 56 (2 ^ 16) _ _ b1 refl refl (omega arith) l1
                  (push_agree 64 56 (2 ^ 8) _ _ b0 refl refl (omega arith) l0 h))))))
    ∙ mod-eq_of_lt (push-lt 64 56 _ b6 refl l6)

-- The low 24 bits of a word with the sign that bit 23 gives them, as an int32.
abbrev pub sign24 : ℕ → ℕ
sign24 v = if ltb (v % 2 ^ 24) (2 ^ 23) then v % 2 ^ 24 else v % 2 ^ 24 + (2 ^ 32 - 2 ^ 24)

join_sign24 :
    (v : ℕ)
    → push 32 (push 32 (sign_extend 32 (byte (v / 2 ^ 16))) (byte (v / 2 ^ 8))) (byte v) ≡ sign24 v
join_sign24 v =
    let i = sign_extend 32 (byte (v / 2 ^ 16)) in
    ground (
      arith,
      push_wraps 32 24 i (byte (v / 2 ^ 8)) refl (omega arith),
      push_wraps 32 24 (push 32 i (byte (v / 2 ^ 8))) (byte v) refl (omega arith),
    )

-- `get` reads `v'` from the slice that `put` writes `v` to.
abbrev pub WritesBack :
    (List ℕ → ℕ → Option (List ℕ)) → (List ℕ → Option ℕ) → List ℕ → ℕ → ℕ → Type 0
WritesBack put get b v v' = (put b v >>= get) ≡ some v'

abbrev pub UnsignedRoundTrip : ℕ → List ℕ → Type 0
UnsignedRoundTrip v b =
    WritesBack put_u8 u8 b (v % 2 ^ 8) (v % 2 ^ 8)
    × WritesBack put_u16be u16be b (v % 2 ^ 16) (v % 2 ^ 16)
    × WritesBack put_u24be u24be b (v % 2 ^ 24) (v % 2 ^ 24)
    × WritesBack put_u32be u32be b (v % 2 ^ 32) (v % 2 ^ 32)
    × WritesBack put_u32le u32le b (v % 2 ^ 32) (v % 2 ^ 32)
    × WritesBack put_u40be u40be b (v % 2 ^ 40) (v % 2 ^ 40)
    × WritesBack put_u64be u64be b (v % 2 ^ 64) (v % 2 ^ 64)

abbrev pub SignedRoundTrip : ℕ → List ℕ → Type 0
SignedRoundTrip v b =
    WritesBack put_i16be i16be b (v % 2 ^ 16) (v % 2 ^ 16)
    × WritesBack put_i24be i24be b (v % 2 ^ 32) (sign24 v)
    × WritesBack put_i32be i32be b (v % 2 ^ 32) (v % 2 ^ 32)
    × WritesBack put_i64be i64be b (v % 2 ^ 64) (v % 2 ^ 64)

-- In a slice of eight bytes or more, PutU8, PutU16BE, PutU24BE, PutU32BE, PutU32LE, PutU40BE and
-- PutU64BE store a word of their width that the reader of the same width and order reads back.
pub unsigned_round_trip : (b : List ℕ) (v : ℕ) → 8 ≤ length b → UnsignedRoundTrip v b
unfolding put_u8 u8 put_u16be u16be put_u24be u24be put_u32be u32be put_u32le u32le put_u40be u40be
    put_u64be u64be
unsigned_round_trip b v =
    eight_bytes (UnsignedRoundTrip v)
      (λ _ _ _ _ _ _ _ _ _. (
        refl,
        ap some (join16 16 (v % 2 ^ 16) (omega arith) (omega arith)),
        ap some (join24 (v % 2 ^ 24) (omega arith)),
        ap some (join32 (v % 2 ^ 32) (omega arith)),
        ap some (join32 (v % 2 ^ 32) (omega arith)),
        ap some (join40 (v % 2 ^ 40) (omega arith)),
        ap some (join64 (v % 2 ^ 64) (omega arith)),
      ))
      b

-- In a slice of eight bytes or more, PutI16BE, PutI32BE and PutI64BE store a bit pattern that the
-- reader of the same width reads back, and PutI24BE stores one that I24BE reads back as the low 24
-- bits with their sign extended to 32.
pub signed_round_trip : (b : List ℕ) (v : ℕ) → 8 ≤ length b → SignedRoundTrip v b
unfolding put_i16be i16be put_i24be i24be put_i32be i32be put_i64be i64be
signed_round_trip b v =
    eight_bytes (SignedRoundTrip v)
      (λ _ _ _ _ _ _ _ _ _. (
        ap some (join16 16 (v % 2 ^ 16) (omega arith) (omega arith)),
        ap some (join_sign24 (v % 2 ^ 32) ∙ same_sign24),
        ap some (
            same32 _ _ _ _ _ (omega arith) (omega arith) (omega arith)
              (sign_extend_agree 32 _ refl (omega arith) (omega arith))
            ∙ join32 (v % 2 ^ 32) (omega arith)),
        ap some (
            same64 _ _ _ _ _ _ _ _ _ (omega arith) (omega arith) (omega arith) (omega arith)
              (omega arith) (omega arith) (omega arith)
              (sign_extend_agree 64 _ refl (omega arith) (omega arith))
            ∙ join64 (v % 2 ^ 64) (omega arith)),
      ))
      b
  where
    same_sign24 : sign24 (v % 2 ^ 32) ≡ sign24 v
    same_sign24 =
        let low : v % 2 ^ 32 % 2 ^ 24 ≡ v % 2 ^ 24 = omega arith in
        ap (λ (x : ℕ). if ltb x (2 ^ 23) then x else x + (2 ^ 32 - 2 ^ 24)) low
