-- ===== src/Amf3/RoundTrip.antt =====
-- What version 3 encodes, it decodes to the same value.
use yoshiera_huang_livego.Prelude.{
  ℕ, zero, suc, ◌+◌, ◌*◌, ◌^◌, ◌<◌, ◌≡◌, refl, ap, ◌∙◌, arith, true, false, none, List, [], ◌∷◌,
  ◌++◌, length, length-append, append_assoc, le→not_ltb, Option,
}
use yoshiera_huang_livego.Rtmp.ReadWriter.Emit.{be_bytes}
use yoshiera_huang_livego.Amf3.Item.{
  Item, nothing, truth, signed, unsigned, signed64, unsigned64, double, chars, bytes, date, list,
  map_of, typed, other_map, other, Items, no_items, item, count_items, Refs, Floats,
}
use yoshiera_huang_livego.Amf3.Reader.{
  done, on_done, Reads, ◌>>=◌, give, read_byte, assert_marker, keep_object,
}
use yoshiera_huang_livego.Amf3.Integers.{u29_bytes, decode_u29_bytes}
use yoshiera_huang_livego.Amf3.Format.{bytes_of, items_bytes, IsPlain, ArePlain, encode_lem}
use yoshiera_huang_livego.Amf3.Encoder.{encode}
use yoshiera_huang_livego.Amf3.Decoder.{
  to_signed, decode_integer, decode_double, decode_items, decode_elements, decode_array,
  decode_date, decode_marked, decode, decode_amf3,
}
use yoshiera_huang_livego.Amf3.Reading.{
  with_string, with_object, read_be8_lem, reference_lem, decode_string_lem,
}

-- The caches behind a value: strings and arrays in the order in which they end.
unfoldable mutual
  pub after : Item → Refs → Refs
  after (chars s) refs = with_string s refs
  after (date t) refs = with_object (date t) refs
  after (list vs) refs = with_object (list vs) (after_items vs refs)
  after v refs = refs

  pub after_items : Items → Refs → Refs
  after_items no_items refs = refs
  after_items (item v vs) refs = after_items vs (after v refs)

to_signed_lem : (n : ℕ) → n < 2 ^ 28 → to_signed n ≡ n
unfolding to_signed
to_signed_lem n h = rw (le→not_ltb 0xfffffff n (omega arith)) refl

integer_lem :
    (n : ℕ) (refs : Refs) (r : List ℕ)
    → n < 2 ^ 28
    → decode_integer false refs (u29_bytes n ++ r) ≡ done n refs r
unfolding decode_integer assert_marker
integer_lem n refs r h = rw (decode_u29_bytes n refs r (omega arith), to_signed_lem n h) refl

double_lem :
    (x : ℕ) (refs : Refs) (r : List ℕ)
    → x < 2 ^ 64
    → decode_double false refs (be_bytes 8 x ++ r) ≡ done x refs r
unfolding decode_double assert_marker
double_lem x refs r h = read_be8_lem x refs r h

array_lem :
    (one : Reads Item) (vs : Items) (n : ℕ) (refs refs' : Refs) (bs r : List ℕ)
    → n < 2 ^ 28
    → 0 < length (bs ++ r)
    → decode_items one n refs (bs ++ r) ≡ done vs refs' r
    → decode_array one false refs ((u29_bytes (n * 2 + 1) ++ (0x01 ∷ bs)) ++ r)
      ≡ done vs (with_object (list vs) refs') r
unfolding decode_array decode_elements keep_object assert_marker
array_lem one vs n refs refs' bs r h more each =
    rw
      (
        append_assoc (u29_bytes (n * 2 + 1)) (0x01 ∷ bs) r,
        reference_lem n refs (0x01 ∷ (bs ++ r)) h,
        decode_string_lem [] refs (bs ++ r) (omega arith) more,
        each,
      )
      refl

module _ (f : Floats) (handlers : List ℕ → Option (Reads Item)) where
  date_lem :
      (t : ℕ) (refs : Refs) (r : List ℕ)
      → f.millis t < 2 ^ 64
      → f.seconds (f.millis t) ≡ t
      → decode_date f handlers false refs (0x01 ∷ (be_bytes 8 (f.millis t) ++ r))
        ≡ done t (with_object (date t) refs) r
  unfolding decode_date keep_object assert_marker
  date_lem t refs r fits back =
      rw
        (
          reference_lem 0 refs (be_bytes 8 (f.millis t) ++ r) (omega arith),
          read_be8_lem (f.millis t) refs r fits,
          back,
        )
        refl

  mutual
    unfolding bytes_of IsPlain after decode decode_marked decode_items read_byte

    decode_lem :
        (v : Item) (k : ℕ) (refs : Refs) (r : List ℕ)
        → IsPlain f v
        → 0 < length r
        → length (bytes_of f v) < suc k
        → decode f handlers (suc k) refs (bytes_of f v ++ r) ≡ done v (after v refs) r
    decode_lem nothing k refs r h more fuel = refl
    decode_lem (truth true) k refs r h more fuel = refl
    decode_lem (truth false) k refs r h more fuel = refl
    decode_lem (signed n) k refs r h more fuel =
        ap (on_done (λ n. give (signed n))) (integer_lem n refs r h)
    decode_lem (double x) k refs r h more fuel =
        ap (on_done (λ x. give (double x))) (double_lem x refs r h)
    decode_lem (chars s) k refs r h more fuel =
        ap (on_done (λ s. give (chars s))) (decode_string_lem s refs r h more)
    decode_lem (date t) k refs r (fits, back) more fuel =
        ap (on_done (λ t. give (date t))) (date_lem t refs r fits back)
    decode_lem (list vs) k refs r (fits, h) more fuel =
        let bs = items_bytes f vs in
        let each =
          decode_items_lem vs k refs r h more
            (omega (arith, length-append (u29_bytes (count_items vs * 2 + 1)) (0x01 ∷ bs))) in
        ap (on_done (λ vs. give (list vs))) (
          array_lem (decode f handlers k) vs (count_items vs) refs (after_items vs refs) bs r fits
            (omega (arith, length-append bs r)) each)
    decode_lem (unsigned n) k refs r h more fuel = absurd h
    decode_lem (signed64 n) k refs r h more fuel = absurd h
    decode_lem (unsigned64 n) k refs r h more fuel = absurd h
    decode_lem (bytes bs) k refs r h more fuel = absurd h
    decode_lem (map_of fs) k refs r h more fuel = absurd h
    decode_lem (typed c fs) k refs r h more fuel = absurd h
    decode_lem other_map k refs r h more fuel = absurd h
    decode_lem other k refs r h more fuel = absurd h

    decode_items_lem :
        (vs : Items) (k : ℕ) (refs : Refs) (r : List ℕ)
        → ArePlain f vs
        → 0 < length r
        → length (items_bytes f vs) < k
        → decode_items (decode f handlers k) (count_items vs) refs (items_bytes f vs ++ r)
          ≡ done vs (after_items vs refs) r
    decode_items_lem vs zero refs r h more fuel = absurd (omega arith)
    decode_items_lem no_items (suc k) refs r h more fuel = refl
    decode_items_lem (item v vs) (suc k) refs r (hv, hs) more fuel =
        let bv = bytes_of f v in
        let behind = items_bytes f vs ++ r in
        let size = length-append bv (items_bytes f vs) in
        let one = decode f handlers (suc k) in
        let rest = on_done (λ v. decode_items one (count_items vs) >>= λ vs. give (item v vs)) in
        ap (λ b. rest (one refs b)) (append_assoc bv (items_bytes f vs) r)
        ∙ ap rest (
            decode_lem v k refs behind hv (omega (arith, length-append (items_bytes f vs) r))
              (omega (arith, size)))
        ∙ ap (on_done (λ vs. give (item v vs)))
            (decode_items_lem vs (suc k) (after v refs) r hs more (omega (arith, size)))

  -- Null, a boolean, an integer from 0 to 2 ^ 28 - 1, a float64, a string or an array of fewer than
  -- 2 ^ 28 bytes or elements, or a time that is a float64 of milliseconds and back is encoded
  -- without an error to bytes that go behind what the buffer holds and are as many as the encoder
  -- counts. Decoding them, with at least one byte behind them and whatever is in the caches, gives
  -- the value back, leaves that byte and what follows, and puts the strings and objects in the
  -- caches in the order in which they end.
  pub decode_amf3-encode :
      (v : Item) (w : List ℕ) (refs : Refs) (r : List ℕ)
      → IsPlain f v
      → 0 < length r
      → (bs : List ℕ) × (encode f v w ≡ ((length bs, none), w ++ bs))
        × (decode_amf3 f handlers refs (bs ++ r) ≡ done v (after v refs) r)
  unfolding decode_amf3
  decode_amf3-encode v w refs r h more =
      let bs = bytes_of f v in
      let count : 0 + length bs ≡ length bs = omega arith in
      let enough : length (bs ++ r) + 1 ≡ suc (length (bs ++ r)) = omega arith in
      (
        bs,
        encode_lem f v w h ∙ (λ i. ((count i, none), w ++ bs)),
        ap (λ (k : ℕ). decode f handlers k refs (bs ++ r)) enough
            ∙ decode_lem v (length (bs ++ r)) refs r h more (omega (arith, length-append bs r)),
      )
