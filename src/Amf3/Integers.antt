-- ===== src/Amf3/Integers.antt =====
-- The integers of one to four bytes: what the encoder writes, the decoder reads back.
use yoshiera_huang_livego.Prelude.{
  ℕ, zero, suc, ◌+◌, ◌*◌, ◌/◌, ◌%◌, ◌^◌, ◌<◌, bit_and, bit_or, ◌≡◌, refl, ap, ◌∙◌, arith, inl, inr,
  Bool, true, false, not, List, [], ◌∷◌, ◌++◌, leb, ◌==◌, Bool-cases, le→leb, if◌then◌else◌, ◌&&◌,
}
use yoshiera_huang_livego.Prelude.Bits.{bit_and-mod}
use yoshiera_huang_livego.Prelude.Finite.{holds_below, holds_below_lem}
use yoshiera_huang_livego.Pio.{byte, shl}
use yoshiera_huang_livego.Amf.Encoder.{wrote}
use yoshiera_huang_livego.Amf3.Item.{Refs}
use yoshiera_huang_livego.Amf3.Reader.{done, read_byte, u29_rounds, decode_u29}
use yoshiera_huang_livego.Amf3.Encoder.{encode_u29}

-- The bytes of a number below 2 ^ 29: seven bits to a byte, the top bit set while more follow, and
-- eight bits in a fourth.
abbrev pub u29_bytes : ℕ → List ℕ
u29_bytes v =
    if leb v 0x7f
    then v ∷ []
    else if leb v 0x3fff
    then (128 + v / 128) ∷ v % 128 ∷ []
    else if leb v 0x1fffff
    then (128 + v / 16384) ∷ (128 + v / 128 % 128) ∷ v % 128 ∷ []
    else (128 + v / 4194304) ∷ (128 + v / 32768 % 128) ∷ (128 + v / 256 % 128) ∷ v % 256 ∷ []

-- Setting the top bit of seven, and testing it.
abbrev bits_right : ℕ → Bool
bits_right x =
    (bit_or x 0x80 == 128 + x) && (bit_and x 0x80 == 0) && not (bit_and (128 + x) 0x80 == 0)

bits_lem :
    (x : ℕ)
    → x < 128
    → (bit_or x 0x80 ≡ 128 + x)
      × ((bit_and x 0x80 == 0) ≡ true)
      × ((bit_and (128 + x) 0x80 == 0) ≡ false)
unfolding holds_below
bits_lem x h = ground (arith, holds_below_lem bits_right 128 x refl h)

top_byte : (x : ℕ) → x < 128 → byte (bit_or x 0x80) ≡ 128 + x
top_byte x h = omega (arith, (bits_lem x h).0)

mid_byte : (x : ℕ) → byte (bit_or (bit_and x 0x7f) 0x80) ≡ 128 + x % 128
mid_byte x =
    ap (λ (t : ℕ). byte (bit_or t 0x80)) (bit_and-mod 7 x) ∙ top_byte (x % 128) (omega arith)

low_byte : (x : ℕ) → byte (bit_and x 0x7f) ≡ x % 128
low_byte x = omega (arith, bit_and-mod 7 x)

pub encode_u29_lem : (v : ℕ) (w : List ℕ) → v < 2 ^ 29 → encode_u29 v w ≡ wrote (u29_bytes v) w
unfolding encode_u29
encode_u29_lem v w h = elim (Bool-cases (leb v 0x7f)) [
  | inl e ↦ let one : byte v ≡ v = ground arith in rw (e, one)
  | inr e ↦ elim (Bool-cases (leb v 0x3fff)) [
    | inl e2 ↦ rw (e, e2, top_byte (v / 2 ^ 7) (ground arith), low_byte v)
    | inr e2 ↦ elim (Bool-cases (leb v 0x1fffff)) [
      | inl e3 ↦
          rw (e, e2, e3, top_byte (v / 2 ^ 14) (ground arith), mid_byte (v / 2 ^ 7), low_byte v)
      | inr e3 ↦ rw (
        e,
        e2,
        e3,
        le→leb v 0x1fffffff (omega arith),
        top_byte (v / 2 ^ 22) (omega arith),
        mid_byte (v / 2 ^ 15),
        mid_byte (v / 2 ^ 8),
      )
    ]
  ]
]

-- A byte with seven bits, the last one or not.
rounds_end :
    (k result x : ℕ) (refs : Refs) (r : List ℕ)
    → x < 128
    → result < 2 ^ 21
    → u29_rounds (suc k) result refs (x ∷ r) ≡ done (result * 128 + x) refs r
unfolding u29_rounds read_byte
rounds_end k result x refs r h small =
    let low : (shl 32 result 7 + bit_and x 0x7f) % 2 ^ 32 ≡ result * 128 + x =
      omega (arith, bit_and-mod 7 x) in
    rw ((bits_lem x h).1, low)

rounds_more :
    (k result x : ℕ) (refs : Refs) (r : List ℕ)
    → x < 128
    → result < 2 ^ 21
    → u29_rounds (suc k) result refs ((128 + x) ∷ r) ≡ u29_rounds k (result * 128 + x) refs r
unfolding u29_rounds read_byte
rounds_more k result x refs r h small =
    let low : (shl 32 result 7 + bit_and (128 + x) 0x7f) % 2 ^ 32 ≡ result * 128 + x =
      omega (arith, bit_and-mod 7 (128 + x)) in
    rw ((bits_lem x h).2, low)

rounds_last :
    (result b : ℕ) (refs : Refs) (r : List ℕ)
    → result < 2 ^ 21
    → b < 256
    → u29_rounds zero result refs (b ∷ r) ≡ done (result * 256 + b) refs r
unfolding u29_rounds read_byte
rounds_last result b refs r small h =
    let low : (shl 32 result 8 + b) % 2 ^ 32 ≡ result * 256 + b = omega arith in rw low

pub decode_u29_bytes :
    (v : ℕ) (refs : Refs) (r : List ℕ)
    → v < 2 ^ 29
    → decode_u29 refs (u29_bytes v ++ r) ≡ done v refs r
unfolding decode_u29
decode_u29_bytes v refs r h = elim (Bool-cases (leb v 0x7f)) [
  | inl e ↦
      let whole : 0 * 128 + v ≡ v = omega arith in
      rw e
        (rounds_end 2 0 v refs r (ground arith) (omega arith) ∙ ap (λ (n : ℕ). done n refs r) whole)
  | inr e ↦ elim (Bool-cases (leb v 0x3fff)) [
    | inl e2 ↦
        let whole : (0 * 128 + v / 128) * 128 + v % 128 ≡ v = omega arith in
        let small : v / 128 < 128 = ground arith in
        rw (e, e2)
          (rounds_more 2 0 (v / 128) refs _ small (omega arith)
            ∙ rounds_end 1 (0 * 128 + v / 128) (v % 128) refs r (omega arith) (omega arith)
            ∙ ap (λ (n : ℕ). done n refs r) whole)
    | inr e2 ↦ elim (Bool-cases (leb v 0x1fffff)) [
      | inl e3 ↦
          let a = v / 16384 in
          let b = v / 128 % 128 in
          let small : a < 128 = ground arith in
          let whole : ((0 * 128 + a) * 128 + b) * 128 + v % 128 ≡ v = omega arith in
          rw (e, e2, e3)
            (rounds_more 2 0 a refs _ small (omega arith)
              ∙ rounds_more 1 (0 * 128 + a) b refs _ (omega arith) (omega arith)
              ∙ rounds_end 0 ((0 * 128 + a) * 128 + b) (v % 128) refs r (omega arith) (omega arith)
              ∙ ap (λ (n : ℕ). done n refs r) whole)
      | inr e3 ↦
          let a = v / 4194304 in
          let b = v / 32768 % 128 in
          let c = v / 256 % 128 in
          let whole : (((0 * 128 + a) * 128 + b) * 128 + c) * 256 + v % 256 ≡ v = omega arith in
          rw (e, e2, e3)
            (rounds_more 2 0 a refs _ (omega arith) (omega arith)
              ∙ rounds_more 1 (0 * 128 + a) b refs _ (omega arith) (omega arith)
              ∙ rounds_more 0 ((0 * 128 + a) * 128 + b) c refs _ (omega arith) (omega arith)
              ∙ rounds_last (((0 * 128 + a) * 128 + b) * 128 + c) (v % 256) refs r (omega arith)
                  (omega arith)
              ∙ ap (λ (n : ℕ). done n refs r) whole)
    ]
  ]
]
