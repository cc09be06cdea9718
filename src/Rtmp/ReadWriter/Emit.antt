-- ===== src/Rtmp/ReadWriter/Emit.antt =====
-- What the writing methods of ReadWriter do where the writer accepts all that they write.
use yoshiera_huang_livego.Prelude.{ℕ, zero, suc, ◌-◌, ◌*◌, ◌/◌, ◌%◌, ◌^◌, ◌≤◌, ◌<◌, bit_and}
use yoshiera_huang_livego.Prelude.{◌≡◌, refl, sym, ap, ◌∙◌, none, arith}
use yoshiera_huang_livego.Prelude.{
  List, [], ◌∷◌, ◌++◌, length, length-append, append_assoc, append-nil,
}
use yoshiera_huang_livego.Prelude.Bits.{bit_and-mod}
use yoshiera_huang_livego.Pio.{byte}
use yoshiera_huang_livego.Rtmp.ReadWriter.{
  ReadWriter, write_byte, after_byte, write_be_loop, write_le_loop, write_uint_be, write_uint_le,
  write,
}

-- The bytes of a number, highest and lowest first.
abbrev pub be_bytes : ℕ → ℕ → List ℕ
be_bytes zero v = []
be_bytes (suc n) v = byte (v / 2 ^ (n * 8)) ∷ be_bytes n v

abbrev pub le_bytes : ℕ → ℕ → List ℕ
le_bytes zero v = []
le_bytes (suc n) v = byte v ∷ le_bytes n (v / 2 ^ 8)

pub length-be_bytes : (n v : ℕ) → length (be_bytes n v) ≡ n
length-be_bytes zero v = refl
length-be_bytes (suc n) v = ap suc (length-be_bytes n v)

pub length-le_bytes : (n v : ℕ) → length (le_bytes n v) ≡ n
length-le_bytes zero v = refl
length-le_bytes (suc n) v = ap suc (length-le_bytes n (v / 2 ^ 8))

-- The writer after `bs`.
unfoldable pub emit : List ℕ → ReadWriter → ReadWriter
emit bs s = record s { output = s.output ++ bs; room = s.room - length bs }

pub emit-nil : (s : ReadWriter) → emit [] s ≡ s
unfolding emit
emit-nil s = λ i. record s {
  output = append-nil s.output i;
  room = (let z : s.room - 0 ≡ s.room = omega arith in z) i;
}

pub emit-emit : (bs cs : List ℕ) (s : ReadWriter) → emit cs (emit bs s) ≡ emit (bs ++ cs) s
unfolding emit
emit-emit bs cs s = λ i. record s {
  output = append_assoc s.output bs cs i;
  room =
      (let z : s.room - length bs - length cs ≡ s.room - length (bs ++ cs) =
            omega (arith, length-append bs cs) in
          z)
        i;
}

mask : (x : ℕ) → bit_and (byte x) 0xff ≡ byte x
mask x = bit_and-mod 8 (x % 256) ∙ (let z : x % 256 % 256 ≡ x % 256 = omega arith in z)

write_byte_lem : (b : ℕ) (s : ReadWriter) → 0 < s.room → write_byte b s ≡ (none, emit (b ∷ []) s)
unfolding write_byte emit
write_byte_lem b s h = ground arith

write_be_loop_lem :
    (n v : ℕ) (s : ReadWriter) → n ≤ s.room → write_be_loop n v s ≡ (none, emit (be_bytes n v) s)
unfolding write_be_loop after_byte
write_be_loop_lem zero v s h = ap (λ r. (none, r)) (sym (emit-nil s))
write_be_loop_lem (suc n) v s h =
    let b = byte (v / 2 ^ (n * 8)) in
    rw (mask, write_byte_lem b s (omega arith))
      (write_be_loop_lem n v (emit (b ∷ []) s) (unfold emit in omega arith)
        ∙ ap (λ r. (none, r)) (emit-emit (b ∷ []) (be_bytes n v) s))

write_le_loop_lem :
    (n v : ℕ) (s : ReadWriter) → n ≤ s.room → write_le_loop n v s ≡ (none, emit (le_bytes n v) s)
unfolding write_le_loop after_byte
write_le_loop_lem zero v s h = ap (λ r. (none, r)) (sym (emit-nil s))
write_le_loop_lem (suc n) v s h =
    rw (mask, write_byte_lem (byte v) s (omega arith))
      (write_le_loop_lem n (v / 2 ^ 8) (emit (byte v ∷ []) s) (unfold emit in omega arith)
        ∙ ap (λ r. (none, r)) (emit-emit (byte v ∷ []) (le_bytes n (v / 2 ^ 8)) s))

module _ (n v : ℕ) (s : ReadWriter) (ready : s.write_error ≡ none) (h : n ≤ s.room) where
  pub write_uint_be_lem : write_uint_be v n s ≡ (none, emit (be_bytes n v) s)
  unfolding write_uint_be
  write_uint_be_lem = ground (arith, write_be_loop_lem n v s h)

  pub write_uint_le_lem : write_uint_le v n s ≡ (none, emit (le_bytes n v) s)
  unfolding write_uint_le
  write_uint_le_lem = ground (arith, write_le_loop_lem n v s h)

pub write_lem :
    (p : List ℕ) (s : ReadWriter)
    → s.write_error ≡ none
    → length p ≤ s.room
    → write p s ≡ (none, emit p s)
unfolding write emit
write_lem p rw ready h = ground arith
