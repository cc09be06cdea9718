-- ===== src/Rtmp/ReadWriter/Steady.antt =====
-- Writing leaves the input as it is.
use yoshiera_huang_livego.Prelude.{
  ℕ, zero, suc, ◌*◌, ◌/◌, ◌^◌, ◌≡◌, refl, ◌∙◌, inl, inr, bit_and, Bool-cases, Option, none, some,
  Option-cases, List, length, ltb,
}
use yoshiera_huang_livego.Pio.{byte}
use yoshiera_huang_livego.Rtmp.ReadWriter.{
  Error, ReadWriter, write_byte, after_byte, write_be_loop, write_uint_be, write_le_loop,
  write_uint_le, write,
}

-- What a writer returns, with the input `i`.
abbrev pub Leaves : List ℕ → Option Error × ReadWriter → Type 0
Leaves i r = r.1.input ≡ i

write_byte-room : (b n : ℕ) (w : ReadWriter) → w.room ≡ n → Leaves w.input (write_byte b w)
unfolding write_byte
write_byte-room b zero w h = rw (write_byte, h) refl
write_byte-room b (suc n) w h = rw (write_byte, h) refl

after_byte-Leaves :
    (i : List ℕ) (next : ReadWriter → Option Error × ReadWriter) (r : Option Error × ReadWriter)
    → Leaves i r
    → ((w : ReadWriter) → w.input ≡ i → Leaves i (next w))
    → Leaves i (after_byte next r)
unfolding after_byte
after_byte-Leaves i next (some e, w) h k = h
after_byte-Leaves i next (none, w) h k = k w h

be_loop-Leaves :
    (n v : ℕ) (i : List ℕ) (w : ReadWriter) → w.input ≡ i → Leaves i (write_be_loop n v w)
unfolding write_be_loop
be_loop-Leaves zero v i w h = h
be_loop-Leaves (suc n) v i w h =
    after_byte-Leaves i (write_be_loop n v) (write_byte (bit_and (byte (v / 2 ^ (n * 8))) 0xff) w)
      (write_byte-room _ w.room w refl ∙ h) (λ w' h'. be_loop-Leaves n v i w' h')

le_loop-Leaves :
    (n v : ℕ) (i : List ℕ) (w : ReadWriter) → w.input ≡ i → Leaves i (write_le_loop n v w)
unfolding write_le_loop
le_loop-Leaves zero v i w h = h
le_loop-Leaves (suc n) v i w h =
    after_byte-Leaves i (write_le_loop n (v / 2 ^ 8)) (write_byte (bit_and (byte v) 0xff) w)
      (write_byte-room _ w.room w refl ∙ h) (λ w' h'. le_loop-Leaves n (v / 2 ^ 8) i w' h')

pub write_uint_be-Leaves : (v n : ℕ) (w : ReadWriter) → Leaves w.input (write_uint_be v n w)
unfolding write_uint_be
write_uint_be-Leaves v n w = elim (Option-cases w.write_error) [
  | inl e ↦ rw (write_uint_be, e) (be_loop-Leaves n v w.input w refl)
  | inr (x, e) ↦ rw (write_uint_be, e) refl
]

pub write_uint_le-Leaves : (v n : ℕ) (w : ReadWriter) → Leaves w.input (write_uint_le v n w)
unfolding write_uint_le
write_uint_le-Leaves v n w = elim (Option-cases w.write_error) [
  | inl e ↦ rw (write_uint_le, e) (le_loop-Leaves n v w.input w refl)
  | inr (x, e) ↦ rw (write_uint_le, e) refl
]

pub write-Leaves : (p : List ℕ) (w : ReadWriter) → Leaves w.input (write p w)
unfolding write
write-Leaves p w = elim (Option-cases w.write_error) [
  | inl e ↦ elim (Bool-cases (ltb w.room (length p))) [
    | inl k ↦ rw (write, e, k) refl
    | inr k ↦ rw (write, e, k) refl
  ]
  | inr (x, e) ↦ rw (write, e) refl
]
