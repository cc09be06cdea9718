-- ===== src/Amf3/Format.antt =====
-- The bytes of values in version 3, and that the encoder writes them.
use yoshiera_huang_livego.Prelude.{
  ℕ, ◌+◌, ◌*◌, ◌%◌, ◌^◌, ◌<◌, ◌≡◌, refl, ap, ◌∙◌, arith, true, false, none, List, [], ◌∷◌, ◌++◌,
  length, le→leb, lt→ltb, ltb, leb, ◌&&◌, bit_or,
}
use yoshiera_huang_livego.Prelude.Bits.{bit_or-add}
use yoshiera_huang_livego.Pio.{shl}
use yoshiera_huang_livego.Rtmp.ReadWriter.Emit.{be_bytes}
use yoshiera_huang_livego.Amf.Encoder.{Encoded, wrote, go_on}
use yoshiera_huang_livego.Amf.Format.{Writes, wrote_lem, behind, nothing_more, then_lem}
use yoshiera_huang_livego.Amf3.Item.{
  Item, nothing, truth, signed, unsigned, signed64, unsigned64, double, chars, bytes, date, list,
  map_of, typed, other_map, other, Items, no_items, item, count_items, Floats,
}
use yoshiera_huang_livego.Amf3.Integers.{u29_bytes, encode_u29_lem}
use yoshiera_huang_livego.Amf3.Encoder.{
  encode_u29, length_u29, integer_max, at_last, encode_utf8, encode_null, encode_false, encode_true,
  encode_integer, encode_double, encode_string, encode_date, encode_signed, encode_array, encode,
  encode_items,
}

-- A string behind its length.
abbrev pub utf8_bytes : List ℕ → List ℕ
utf8_bytes s = u29_bytes (length s * 2 + 1) ++ s

length_u29_lem : (n : ℕ) → n < 2 ^ 28 → length_u29 n ≡ n * 2 + 1
length_u29_lem n h =
    let shifted : shl 32 (n % 2 ^ 32) 1 ≡ n * 2 ^ 1 = omega arith in
    ap (λ (t : ℕ). bit_or t 1) shifted ∙ bit_or-add 1 n 1 (omega arith)

pub last_lem : (e : Encoded) (n : ℕ) (bs w : List ℕ) → Writes e 0 bs w → Writes (at_last n e) n bs w
last_lem e n bs w h =
    let sum : n + (0 + length bs) ≡ n + length bs = omega arith in
    ap (at_last n) h ∙ (λ i. ((sum i, none), w ++ bs))

pub u29_writes : (v : ℕ) (w : List ℕ) → v < 2 ^ 29 → Writes (encode_u29 v w) 0 (u29_bytes v) w
u29_writes v w h = encode_u29_lem v w h ∙ wrote_lem (u29_bytes v) (u29_bytes v) w refl

-- The length of what follows.
pub length_writes :
    (n : ℕ) (w : List ℕ)
    → n < 2 ^ 28
    → Writes (encode_u29 (length_u29 n) w) 0 (u29_bytes (n * 2 + 1)) w
length_writes n w h =
    ap (λ (t : ℕ). encode_u29 t w) (length_u29_lem n h) ∙ u29_writes (n * 2 + 1) w (omega arith)

pub utf8_writes : (s w : List ℕ) → length s < 2 ^ 28 → Writes (encode_utf8 s w) 0 (utf8_bytes s) w
unfolding encode_utf8
utf8_writes s w h =
    then_lem (encode_u29 (length_u29 (length s)) w) (λ n w. at_last n (wrote s w)) 0
      (u29_bytes (length s * 2 + 1)) s w (length_writes (length s) w h)
      (λ m.
        let front = w ++ u29_bytes (length s * 2 + 1) in
        last_lem (wrote s front) m s front (wrote_lem s s front refl))

-- A marker in front.
marked_lem :
    {e : Encoded} (m : ℕ) (rest w : List ℕ)
    → Writes e 1 rest (w ++ m ∷ [])
    → Writes e 0 (m ∷ rest) w
marked_lem m rest w h = behind 0 1 (m ∷ []) rest w (omega arith) h

pub integer_writes :
    (n : ℕ) (w : List ℕ) → n < 2 ^ 29 → Writes (encode_integer n true w) 0 (0x04 ∷ u29_bytes n) w
unfolding encode_integer
integer_writes n w h =
    marked_lem 0x04 (u29_bytes n) w (last_lem (encode_u29 n _) 1 (u29_bytes n) _ (u29_writes n _ h))

double_writes : (x : ℕ) (w : List ℕ) → Writes (encode_double x true w) 0 (0x05 ∷ be_bytes 8 x) w
unfolding encode_double
double_writes x w =
    marked_lem 0x05 (be_bytes 8 x) w (last_lem (wrote (be_bytes 8 x) _) 1 (be_bytes 8 x) _ refl)

string_writes :
    (s w : List ℕ) → length s < 2 ^ 28 → Writes (encode_string s true w) 0 (0x06 ∷ utf8_bytes s) w
unfolding encode_string
string_writes s w h =
    marked_lem 0x06 (utf8_bytes s) w
      (last_lem (encode_utf8 s _) 1 (utf8_bytes s) _ (utf8_writes s _ h))

module _ (f : Floats) where
  -- The bytes of a value: a marker, then the lengths and the parts in order.
  unfoldable mutual
    pub bytes_of : Item → List ℕ
    bytes_of nothing = 0x01 ∷ []
    bytes_of (truth true) = 0x03 ∷ []
    bytes_of (truth false) = 0x02 ∷ []
    bytes_of (signed n) = 0x04 ∷ u29_bytes n
    bytes_of (double x) = 0x05 ∷ be_bytes 8 x
    bytes_of (chars s) = 0x06 ∷ utf8_bytes s
    bytes_of (date t) = 0x08 ∷ 0x01 ∷ be_bytes 8 (f.millis t)
    bytes_of (list vs) = 0x09 ∷ (u29_bytes (count_items vs * 2 + 1) ++ (0x01 ∷ items_bytes vs))
    bytes_of _ = []

    pub items_bytes : Items → List ℕ
    items_bytes no_items = []
    items_bytes (item v vs) = bytes_of v ++ items_bytes vs

  -- Null, booleans, integers from 0 to 2 ^ 28 - 1, float64, strings and arrays of fewer than
  -- 2 ^ 28 bytes or elements, and times that are a float64 of milliseconds and back.
  unfoldable mutual
    pub IsPlain : Item → Type 0
    IsPlain nothing = Unit
    IsPlain (truth b) = Unit
    IsPlain (signed n) = n < 2 ^ 28
    IsPlain (double x) = x < 2 ^ 64
    IsPlain (chars s) = length s < 2 ^ 28
    IsPlain (date t) = (f.millis t < 2 ^ 64) × (f.seconds (f.millis t) ≡ t)
    IsPlain (list vs) = (count_items vs < 2 ^ 28) × ArePlain vs
    IsPlain _ = ⊥

    pub ArePlain : Items → Type 0
    ArePlain no_items = Unit
    ArePlain (item v vs) = IsPlain v × ArePlain vs

  signed_writes :
      (n : ℕ) (w : List ℕ) → n < 2 ^ 28 → Writes (encode_signed f n w) 0 (0x04 ∷ u29_bytes n) w
  unfolding encode_signed
  signed_writes n w h =
      let both : (ltb n (2 ^ 63) && leb n integer_max) ≡ true =
        rw (lt→ltb n (2 ^ 63) (omega arith), le→leb n 536870911 (omega arith)) refl in
      rw both (integer_writes n w (omega arith))

  date_writes :
      (t : ℕ) (w : List ℕ)
      → Writes (encode_date f t true w) 0 (0x08 ∷ 0x01 ∷ be_bytes 8 (f.millis t)) w
  unfolding encode_date
  date_writes t w =
      let bs = be_bytes 8 (f.millis t) in
      marked_lem 0x08 (0x01 ∷ bs) w (
        then_lem (wrote (0x01 ∷ []) _) (λ n w. at_last n (wrote bs w)) 1 (0x01 ∷ []) bs _ refl
          (λ m. last_lem (wrote bs _) m bs _ refl))

  array_writes :
      (len : ℕ) (elements : ℕ → List ℕ → Encoded) (bs w : List ℕ)
      → len < 2 ^ 28
      → ((n : ℕ) (w : List ℕ) → Writes (elements n w) n bs w)
      → Writes
          (encode_array f len elements true w)
          0
          (0x09 ∷ (u29_bytes (len * 2 + 1) ++ (0x01 ∷ bs)))
          w
  unfolding encode_array
  array_writes len elements bs w h each =
      marked_lem 0x09 (u29_bytes (len * 2 + 1) ++ (0x01 ∷ bs)) w (
        then_lem (encode_u29 (length_u29 len) _) (λ n w. go_on n (encode_utf8 [] w) elements) 1
          (u29_bytes (len * 2 + 1)) (0x01 ∷ bs) _ (length_writes len _ h)
          (λ m.
            then_lem (encode_utf8 [] _) elements m (0x01 ∷ []) bs _ (utf8_writes [] _ (omega arith))
              (λ m. each m _)))

  mutual
    unfolding bytes_of IsPlain encode encode_null encode_true encode_false

    pub encode_lem : (v : Item) (w : List ℕ) → IsPlain v → Writes (encode f v w) 0 (bytes_of v) w
    encode_lem nothing w h = refl
    encode_lem (truth true) w h = refl
    encode_lem (truth false) w h = refl
    encode_lem (signed n) w h = signed_writes n w h
    encode_lem (double x) w h = double_writes x w
    encode_lem (chars s) w h = string_writes s w h
    encode_lem (date t) w h = date_writes t w
    encode_lem (list vs) w (fits, h) =
        array_writes (count_items vs) (λ n w. encode_items f n vs w) (items_bytes vs) w fits
          (λ n w. encode_items_lem vs n w h)
    encode_lem (unsigned n) w h = absurd h
    encode_lem (signed64 n) w h = absurd h
    encode_lem (unsigned64 n) w h = absurd h
    encode_lem (bytes bs) w h = absurd h
    encode_lem (map_of fs) w h = absurd h
    encode_lem (typed c fs) w h = absurd h
    encode_lem other_map w h = absurd h
    encode_lem other w h = absurd h

    encode_items_lem :
        (vs : Items) (n : ℕ) (w : List ℕ)
        → ArePlain vs
        → Writes (encode_items f n vs w) n (items_bytes vs) w
    encode_items_lem no_items n w h = nothing_more n w
    encode_items_lem (item v vs) n w (hv, hs) =
        then_lem (encode f v w) (λ n w. encode_items f n vs w) n (bytes_of v) (items_bytes vs) w
          (encode_lem v w hv) (λ m. encode_items_lem vs m _ hs)
