-- ===== src/Ts/Room.antt =====
-- The room that the muxer makes in a packet: the clock, the stuffing, and where the data starts.
use yoshiera_huang_livego.Prelude.{ℕ, zero, suc, ◌+◌, ◌-◌, ◌%◌, ◌≤◌, ◌<◌, bit_or}
use yoshiera_huang_livego.Prelude.{Bool, true, false, ◌≡◌, refl, ap, arith}
use yoshiera_huang_livego.Prelude.{
  List, [], ◌∷◌, ◌++◌, some, length, take, drop, take-append-drop, length-take, length-drop,
}
use yoshiera_huang_livego.Prelude.{lt→not_leb, le→leb}
use yoshiera_huang_livego.Pio.{byte}
use yoshiera_huang_livego.Ts.Muxer.{
  blank, adaptation_buf_init, remain_bytes, full_data_len, make_room, write_clock, write_pcr,
}

pub length-blank : (b : List ℕ) → length (blank b) ≡ length b
length-blank [] = refl
length-blank (x ∷ b) = ap suc (length-blank b)

-- Some number of stuffing bytes behind the length, as many as there were.
adaptation_buf_init_lem :
    (remain x : ℕ) (src : List ℕ)
    → 0 < remain
    → remain ≤ 184
    → remain ≤ length src
    → (more : List ℕ) × (adaptation_buf_init remain (x ∷ src) ≡ some ((remain - 1) ∷ more))
      × (length more ≡ length src)
unfolding adaptation_buf_init
adaptation_buf_init_lem zero x src p h k = absurd (omega arith)
adaptation_buf_init_lem (suc zero) x src p h k = (src, refl, refl)
adaptation_buf_init_lem (suc (suc r)) x [] p h k = absurd (omega arith)
adaptation_buf_init_lem (suc (suc r)) x (y ∷ src) p h k =
    (0x00 ∷ blank src, ground arith, ap suc (length-blank src))

remain_bytes_lem :
    (first : Bool) (left : ℕ) → left < 184 → remain_bytes first (byte left) 4 ≡ 184 - left
unfolding remain_bytes
remain_bytes_lem true left h = omega arith
remain_bytes_lem false left h = omega arith

-- In a packet that the data does not fill, with only a header in front.
module _ (first : Bool) (left h0 h1 h2 h3 x : ℕ) (src : List ℕ) where
  abbrev pub IsStuffed : List ℕ → List ℕ → Type 0
  IsStuffed gap tail =
      (make_room first left 4 (h0 ∷ h1 ∷ h2 ∷ h3 ∷ x ∷ src)
        ≡ some (left, 188 - left, h0 ∷ h1 ∷ h2 ∷ bit_or h3 0x20 ∷ length gap ∷ (gap ++ tail)))
      × (length gap ≡ 183 - left)
      × (length tail ≡ left)

  cut_stuffing :
      (more : List ℕ)
      → left < 184
      → adaptation_buf_init (184 - left) (x ∷ src) ≡ some ((184 - left - 1) ∷ more)
      → length more ≡ 183
      → IsStuffed (take (183 - left) more) (drop (183 - left) more)
  unfolding make_room
  cut_stuffing more h e n =
      let same : left % 256 ≡ left = omega arith in
      let at : (4 + (184 - left)) % 256 ≡ 188 - left = omega arith in
      let len : length (take (183 - left) more) ≡ 184 - left - 1 =
        omega (arith, length-take (183 - left) more) in
      (
        rw (
          lt→not_leb 184 left h,
          remain_bytes_lem first left h,
          e,
          take-append-drop (183 - left) more,
          same,
          at,
          len,
        ),
        omega (arith, length-take (183 - left) more),
        omega (arith, length-drop (183 - left) more),
      )

  pub make_room-short :
      0 < left → left < 184 → length src ≡ 183 → (gap tail : List ℕ) × IsStuffed gap tail
  make_room-short p h k =
      let (more, e, n) =
        adaptation_buf_init_lem (184 - left) x src (omega arith) (omega arith) (omega arith) in
      (take (183 - left) more, drop (183 - left) more, cut_stuffing more h e (omega arith))

-- In a packet that the data fills.
pub make_room-full :
    (first : Bool) (left i : ℕ) (b : List ℕ)
    → 184 ≤ left
    → make_room first left i b ≡ some (full_data_len first i, i, b)
unfolding make_room
make_room-full first left i b h = rw (le→leb 184 left h)

-- The clock: eight bytes of the adaptation field, and its length in front.
pub write_clock_lem :
    (dts h0 h1 h2 h3 c4 c5 c6 c7 c8 c9 c10 c11 : ℕ) (suf : List ℕ)
    → (gap : List ℕ) × (write_clock dts
          (h0 ∷ h1 ∷ h2 ∷ h3 ∷ c4 ∷ c5 ∷ c6 ∷ c7 ∷ c8 ∷ c9 ∷ c10 ∷ c11 ∷ suf)
        ≡ some (12, h0 ∷ h1 ∷ h2 ∷ bit_or h3 0x20 ∷ 7 ∷ (gap ++ suf)))
      × (length gap ≡ 7)
unfolding write_clock write_pcr
write_clock_lem dts h0 h1 h2 h3 c4 c5 c6 c7 c8 c9 c10 c11 suf =
    (_ ∷ _ ∷ _ ∷ _ ∷ _ ∷ _ ∷ _ ∷ [], refl, refl)
