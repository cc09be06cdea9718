-- ===== src/Amf/RoundTrip.antt =====
-- What version 0 encodes, it decodes to the same value.
use yoshiera_huang_livego.Prelude.{
  ℕ, zero, suc, ◌+◌, ◌*◌, ◌/◌, ◌%◌, ◌^◌, ◌<◌, ◌≡◌, refl, sym, ap, ◌∙◌, arith, inl, inr,
}
use yoshiera_huang_livego.Prelude.{true, false, none, List, [], ◌∷◌, ◌++◌, length, leb}
use yoshiera_huang_livego.Prelude.{
  length-append, take-length_append, drop-length_append, append_assoc, le→not_ltb, Bool-cases,
}
use native.Mathlib.Nat.{mod-eq_of_lt}
use yoshiera_huang_livego.Pio.{byte, from_be}
use yoshiera_huang_livego.Rtmp.ReadWriter.Emit.{be_bytes, length-be_bytes}
use yoshiera_huang_livego.Rtmp.ReadWriter.Integers.{be_value}
use yoshiera_huang_livego.Amf.Value.{
  Value, number, boolean, text, null, object, array, typed_object, integer, opaque, Members,
  no_members, member, Values, no_values, value, count, string_max, assign,
}
use yoshiera_huang_livego.Amf.Encoder.{encode}
use yoshiera_huang_livego.Amf.Maps.{as_map, assign_all, as_maps, IsMap, as_map_lem}
use yoshiera_huang_livego.Amf.Format.{
  bytes_of, members_bytes, values_bytes, IsEncodable, AreMembers, AreValues, encode_lem,
}
use yoshiera_huang_livego.Amf.Version3.{Setup}
use yoshiera_huang_livego.Amf3.Item.{Refs}
use yoshiera_huang_livego.Amf.Decoder.{
  got, as_value, run_value, then_run, on_key, read_full, read_bytes, read_byte, assert_marker,
  read_be, decode_number, decode_boolean, decode_sized, decode_string, decode_long_string,
  decode_marked, decode, decode_members, decode_values, decode_amf0,
}

pub from_be-be_bytes :
    (n acc v : ℕ) → from_be acc (be_bytes n v) ≡ acc * 2 ^ (n * 8) + v % 2 ^ (n * 8)
from_be-be_bytes zero acc v = omega arith
from_be-be_bytes (suc n) acc v = from_be-be_bytes n _ v ∙ sym (be_value n acc v)

-- As many bytes as are asked for stand in front.
read_full_lem :
    (b : ℕ) (bs r : List ℕ) → read_full (suc (length bs)) ((b ∷ bs) ++ r) ≡ got (b ∷ bs) r
unfolding read_full
read_full_lem b bs r =
    let enough =
      le→not_ltb (suc (length (bs ++ r))) (suc (length bs)) (omega (arith, length-append bs r)) in
    rw (enough) ((λ i. got (b ∷ take-length_append bs r i) (drop-length_append bs r i)))

read_be_lem :
    (n v : ℕ) (r : List ℕ)
    → v < 2 ^ (suc n * 8)
    → read_be (suc n) (be_bytes (suc n) v ++ r) ≡ got v r
unfolding read_be
read_be_lem n v r fits =
    let tail = be_bytes n v in
    let b = byte (v / 2 ^ (n * 8)) in
    let size : suc (length tail) ≡ suc n = ap suc (length-be_bytes n v) in
    let bytes : read_full (suc n) ((b ∷ tail) ++ r) ≡ got (b ∷ tail) r =
      ap (λ k. read_full k ((b ∷ tail) ++ r)) (sym size) ∙ read_full_lem b tail r in
    let whole : from_be 0 (b ∷ tail) ≡ v =
      from_be-be_bytes (suc n) 0 v ∙ (omega (arith, mod-eq_of_lt fits)) in
    rw bytes (ap (λ (x : ℕ). got x r) whole)

read_bytes_lem : (s : List ℕ) (r : List ℕ) → 0 < length r → read_bytes (length s) (s ++ r) ≡ got s r
unfolding read_bytes
read_bytes_lem [] [] h = absurd (omega arith)
read_bytes_lem [] (x ∷ r) h = rw (le→not_ltb (suc (length r)) 0 (omega arith)) refl
read_bytes_lem (b ∷ s) r h =
    let enough =
      le→not_ltb (suc (length (s ++ r))) (suc (length s)) (omega (arith, length-append s r)) in
    rw enough (λ i. got (b ∷ take-length_append s r i) (drop-length_append s r i))

-- A string behind its length of `n` bytes.
sized_lem :
    (n : ℕ) (s r : List ℕ)
    → length s < 2 ^ (suc n * 8)
    → 0 < length r
    → decode_sized (suc n) (be_bytes (suc n) (length s) ++ (s ++ r)) ≡ got s r
unfolding decode_sized
sized_lem n s r fits more = rw (read_be_lem n (length s) (s ++ r) fits) (read_bytes_lem s r more)

bytes_of-pos : (v : Value) → IsEncodable v → 0 < length (bytes_of v)
unfolding bytes_of IsEncodable
bytes_of-pos (number x) h = omega arith
bytes_of-pos (boolean b) h = omega arith
bytes_of-pos (text s) h = ground arith
bytes_of-pos null h = omega arith
bytes_of-pos (object ms) h = omega arith
bytes_of-pos (array vs) h = omega arith
bytes_of-pos (typed_object t ms) h = absurd h
bytes_of-pos (integer x) h = absurd h
bytes_of-pos opaque h = absurd h

short_text :
    (s : List ℕ)
    → leb (length s) string_max ≡ true
    → bytes_of (text s) ≡ 0x02 ∷ (be_bytes 2 (length s) ++ s)
unfolding bytes_of
short_text s e = rw e refl

long_text :
    (s : List ℕ)
    → leb (length s) string_max ≡ false
    → bytes_of (text s) ≡ 0x0c ∷ (be_bytes 4 (length s) ++ s)
unfolding bytes_of
long_text s e = rw e refl

module _ (d : Setup) (refs : Refs) where
  decode_text :
      (s r : List ℕ) (f : ℕ)
      → length s < 2 ^ 32
      → 0 < length r
      → decode d (suc f) refs (bytes_of (text s) ++ r) ≡ (got (text s) r, refs)
  unfolding decode decode_marked read_byte assert_marker decode_string decode_long_string
  decode_text s r f h more = elim (Bool-cases (leb (length s) string_max)) [
    | inl e ↦
        ap (λ b. decode d (suc f) refs (b ++ r)) (short_text s e)
        ∙ ap (λ x. (as_value text x, refs)) (sized_lem 1 s r (ground arith) more)
    | inr e ↦
        ap (λ b. decode d (suc f) refs (b ++ r)) (long_text s e)
        ∙ ap (λ x. (as_value text x, refs)) (sized_lem 3 s r h more)
  ]

  mutual
    unfolding bytes_of IsEncodable as_map decode decode_marked read_byte assert_marker decode_number
        decode_boolean decode_string decode_long_string

    decode_lem :
        (v : Value) (f : ℕ) (r : List ℕ)
        → IsEncodable v
        → 0 < length r
        → length (bytes_of v ++ r) < f
        → decode d f refs (bytes_of v ++ r) ≡ (got (as_map v) r, refs)
    decode_lem v zero r h more fuel = absurd (omega arith)
    decode_lem (number x) (suc f) r h more fuel =
        ap (λ y. (as_value number y, refs)) (read_be_lem 7 x r h)
    decode_lem (boolean true) (suc f) r h more fuel = refl
    decode_lem (boolean false) (suc f) r h more fuel = refl
    decode_lem (text s) (suc f) r h more fuel = decode_text s r f h more
    decode_lem null (suc f) r h more fuel = refl
    decode_lem (object ms) (suc f) r h more fuel =
        ap (run_value object) (decode_members_lem ms f no_members r h more (omega arith))
    decode_lem (array vs) (suc f) r (fits, h) more fuel =
        ap (λ y. run_value array (then_run (decode_values d f) (y, refs)))
          (read_be_lem 3 (count vs) (values_bytes vs ++ r) fits)
        ∙ ap (run_value array) (decode_values_lem vs f r h more (omega arith))
    decode_lem (typed_object t ms) (suc f) r h more fuel = absurd h
    decode_lem (integer x) (suc f) r h more fuel = absurd h
    decode_lem opaque (suc f) r h more fuel = absurd h

    decode_members_lem :
        (ms : Members) (f : ℕ) (acc : Members) (r : List ℕ)
        → AreMembers ms
        → 0 < length r
        → length (members_bytes ms ++ r) < f
        → decode_members d f acc refs (members_bytes ms ++ r) ≡ (got (assign_all acc ms) r, refs)
    decode_members_lem ms zero acc r h more fuel = absurd (omega arith)
    decode_members_lem no_members (suc f) acc r h more fuel =
        ap
          (λ y.
            then_run
              (on_key
                (λ key s r.
                  then_run (λ v s r. decode_members d f (assign key v acc) s r) (decode d f s r))
                acc)
              (y, refs))
          (sized_lem 1 [] (0x09 ∷ r) (omega arith) (omega arith))
    decode_members_lem (member [] v ms) (suc f) acc r (some_key, short, hv, hs) more fuel =
        absurd (omega arith)
    decode_members_lem (member (x ∷ k) v ms) (suc f) acc r (some_key, short, hv, hs) more fuel =
        let key : List ℕ = x ∷ k in
        let bv = bytes_of v in
        let behind = members_bytes ms ++ r in
        let next =
          on_key
            (λ key s r.
              then_run (λ v s r. decode_members d f (assign key v acc) s r) (decode d f s r))
            acc in
        let input : (key ++ (bv ++ members_bytes ms)) ++ r ≡ key ++ (bv ++ behind) =
          append_assoc key (bv ++ members_bytes ms) r
          ∙ ap (λ b. key ++ b) (append_assoc bv (members_bytes ms) r) in
        let left : length (key ++ (bv ++ behind)) < f = omega (arith, ap length input) in
        let left' : length (bv ++ behind) < f = omega (arith, length-append key (bv ++ behind)) in
        ap (λ b. then_run next (decode_sized 2 (be_bytes 2 (length key) ++ b), refs)) input
        ∙ ap (λ y. then_run next (y, refs))
            (sized_lem 1 key (bv ++ behind) short
              (omega (arith, length-append bv behind, length-append (members_bytes ms) r)))
        ∙ ap (then_run (λ v s r. decode_members d f (assign key v acc) s r))
            (decode_lem v f behind hv (omega (arith, length-append (members_bytes ms) r)) left')
        ∙ decode_members_lem ms f (assign key (as_map v) acc) r hs more
            (omega (arith, length-append bv behind))

    decode_values_lem :
        (vs : Values) (f : ℕ) (r : List ℕ)
        → AreValues vs
        → 0 < length r
        → length (values_bytes vs ++ r) + 1 < f
        → decode_values d f (count vs) refs (values_bytes vs ++ r) ≡ (got (as_maps vs) r, refs)
    decode_values_lem vs zero r h more fuel = absurd (omega arith)
    decode_values_lem no_values (suc f) r h more fuel = refl
    decode_values_lem (value v vs) (suc f) r (hv, hs) more fuel =
        let bv = bytes_of v in
        let behind = values_bytes vs ++ r in
        let input = append_assoc bv (values_bytes vs) r in
        let left : length (bv ++ behind) + 1 < suc f = omega (arith, ap length input) in
        let some_byte : 0 < length bv = bytes_of-pos v hv in
        let rest = then_run (λ v s r.
          then_run (λ vs s r. (got (value v vs) r, s)) (decode_values d f (count vs) s r)) in
        ap (λ b. rest (decode d f refs b)) input
        ∙ ap rest (
            decode_lem v f behind hv (omega (arith, length-append (values_bytes vs) r))
              (omega arith))
        ∙ ap (then_run (λ vs s r. (got (value (as_map v) vs) r, s)))
            (decode_values_lem vs f r hs more (omega (arith, length-append bv behind)))

  -- The bytes of a value and at least one byte behind them.
  pub decode_amf0-bytes_of :
      (v : Value) (r : List ℕ)
      → IsEncodable v
      → IsMap v
      → 0 < length r
      → decode_amf0 d refs (bytes_of v ++ r) ≡ (got v r, refs)
  unfolding decode_amf0
  decode_amf0-bytes_of v r h distinct more =
      decode_lem v (length (bytes_of v ++ r) + 2) r h more (omega arith)
      ∙ ap (λ x. (got x r, refs)) (as_map_lem v distinct)

  -- A number may stand at the end.
  pub decode_amf0-number :
      (x : ℕ) → x < 2 ^ 64 → decode_amf0 d refs (bytes_of (number x)) ≡ (got (number x) [], refs)
  unfolding decode_amf0 bytes_of decode decode_marked read_byte assert_marker decode_number
  decode_amf0-number x h = ap (λ y. (as_value number y, refs)) (read_be_lem 7 x [] h)

  -- A value of version 0 without typed objects, with numbers of 64 bits, lengths that fit their fields, and
  -- objects whose keys are distinct and not empty, is encoded without an error to bytes that go
  -- behind what the buffer holds and are as many as the encoder counts. Decoding them, with at
  -- least one byte behind them, gives the value back and leaves that byte, what follows and the caches.
  pub decode-encode :
      (v : Value) (w r : List ℕ)
      → IsEncodable v
      → IsMap v
      → 0 < length r
      → (bs : List ℕ) × (encode v w ≡ ((length bs, none), w ++ bs))
        × (decode_amf0 d refs (bs ++ r) ≡ (got v r, refs))
  decode-encode v w r h distinct more =
      let bs = bytes_of v in
      let count : 0 + length bs ≡ length bs = omega arith in
      (
        bs,
        encode_lem v w h ∙ (λ i. ((count i, none), w ++ bs)),
        decode_amf0-bytes_of v r h distinct more,
      )
