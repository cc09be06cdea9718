-- ===== src/Amf/Decoder.antt =====
-- protocol/amf/decoder_amf0.go, util.go. The reader is a bytes.Reader: the list of the bytes that
-- are left. Its Read fails at the end even for no bytes. Version 0 neither reads nor writes the caches of
-- version 3, which a marker switches to; its own cache is never read.
pub use yoshiera_huang_livego.Amf.Version3.{Decoded, got, failed, panicked, stuck}
use yoshiera_huang_livego.Pio.{from_be}
use yoshiera_huang_livego.Amf3.Item.{Refs}
use yoshiera_huang_livego.Amf.Version3.{Setup, Run, decode_version3}
use yoshiera_huang_livego.Prelude.{
  ℕ, zero, suc, ◌+◌, Bool, true, false, List, [], ◌∷◌, length, take, drop, ltb, ◌==◌, if◌then◌else◌,
}
use yoshiera_huang_livego.Amf.Value.{
  Value, number, boolean, text, null, object, array, typed_object, Members, no_members, Values,
  no_values, value, assign, eof, unexpected_eof, short_read, unsupported_type, bad_boolean,
  bad_marker,
}

-- `if err != nil { return }`, else what follows.
abbrev pub on_got : {A B : Type 0} → (A → List ℕ → Decoded B) → Decoded A → Decoded B
on_got next (got a r) = next a r
on_got next (failed e) = failed e
on_got next panicked = panicked
on_got next stuck = stuck

-- io.ReadFull, in binary.Read, for one byte or more
unfoldable pub read_full : ℕ → List ℕ → Decoded (List ℕ)
read_full n [] = failed eof
read_full n (b ∷ r) =
    if ltb (length (b ∷ r)) n then failed unexpected_eof else got (take n (b ∷ r)) (drop n (b ∷ r))

-- ReadBytes
unfoldable pub read_bytes : ℕ → List ℕ → Decoded (List ℕ)
read_bytes n [] = failed eof
read_bytes n (b ∷ r) =
    if ltb (length (b ∷ r)) n then failed short_read else got (take n (b ∷ r)) (drop n (b ∷ r))

-- ReadByte and ReadMarker
unfoldable pub read_byte : List ℕ → Decoded ℕ
read_byte [] = failed eof
read_byte (b ∷ r) = got b r

-- AssertMarker
unfoldable pub assert_marker : Bool → ℕ → List ℕ → Decoded ℕ
assert_marker false m r = got m r
assert_marker true m r =
    on_got (λ b r. if b == m then got b r else failed (bad_marker m b)) (read_byte r)

-- `binary.Read(r, binary.BigEndian, &x)` for an x of `n` bytes
unfoldable pub read_be : ℕ → List ℕ → Decoded ℕ
read_be n r = on_got (λ bs r. got (from_be 0 bs) r) (read_full n r)

-- DecodeAmf0Number
unfoldable pub decode_number : Bool → List ℕ → Decoded ℕ
decode_number mark r = on_got (λ _ r. read_be 8 r) (assert_marker mark 0x00 r)

-- DecodeAmf0Boolean
unfoldable pub decode_boolean : Bool → List ℕ → Decoded Bool
decode_boolean mark r =
    on_got
      (λ _ r.
        on_got
          (λ b r.
            if b == 0x00
            then got false r
            else if b == 0x01
            then got true r
            else failed (bad_boolean b))
          (read_byte r))
      (assert_marker mark 0x01 r)

-- A length of `n` bytes, and a string.
unfoldable pub decode_sized : ℕ → List ℕ → Decoded (List ℕ)
decode_sized n r = on_got read_bytes (read_be n r)

-- DecodeAmf0String and DecodeAmf0LongString
unfoldable pub decode_string : Bool → List ℕ → Decoded (List ℕ)
decode_string mark r = on_got (λ _ r. decode_sized 2 r) (assert_marker mark 0x02 r)

unfoldable pub decode_long_string : Bool → List ℕ → Decoded (List ℕ)
decode_long_string mark r = on_got (λ _ r. decode_sized 4 r) (assert_marker mark 0x0c r)

-- DecodeAmf0Date
unfoldable pub decode_date : Bool → List ℕ → Decoded ℕ
decode_date mark r =
    on_got (λ _ r. on_got (λ x r. on_got (λ _ r. got x r) (read_bytes 2 r)) (decode_number false r))
      (assert_marker mark 0x0b r)

-- A result as a value.
abbrev pub as_value : {A : Type 0} → (A → Value) → Decoded A → Decoded Value
as_value f (got a r) = got (f a) r
as_value f (failed e) = failed e
as_value f panicked = panicked
as_value f stuck = stuck

abbrev pub run_value : {A : Type 0} → (A → Value) → Run A → Run Value
run_value f p = (as_value f p.0, p.1)

-- `if err != nil { return }`, with the caches.
abbrev pub then_run : {A B : Type 0} → (A → Refs → List ℕ → Run B) → Run A → Run B
then_run next (got a r, s) = next a s r
then_run next (failed e, s) = (failed e, s)
then_run next (panicked, s) = (panicked, s)
then_run next (stuck, s) = (stuck, s)

-- The end of an object, or what follows its next key.
abbrev pub on_key :
    (List ℕ → Refs → List ℕ → Run Members) → Members → List ℕ → Refs → List ℕ → Run Members
on_key next acc [] s r = (on_got (λ _ r. got acc r) (assert_marker true 0x09 r), s)
on_key next acc (b ∷ key) s r = next (b ∷ key) s r

module _ (d : Setup) where
  -- The router of DecodeAmf0 behind the marker; `members` and `values` decode what is nested.
  unfoldable pub decode_marked :
      (Members → Refs → List ℕ → Run Members)
      → (ℕ → Refs → List ℕ → Run Values)
      → ℕ
      → Refs
      → List ℕ
      → Run Value
  decode_marked members values m s r =
      if m == 0x00
      then (as_value number (decode_number false r), s)
      else if m == 0x01
      then (as_value boolean (decode_boolean false r), s)
      else if m == 0x02
      then (as_value text (decode_string false r), s)
      else if m == 0x03
      then run_value object (members no_members s r)
      else if m == 0x05
      then (got null r, s)
      else if m == 0x06
      then (got null r, s)
      else if m == 0x08
      then run_value object (members no_members s (drop 4 r))
      else if m == 0x0a
      then run_value array (then_run values (read_be 4 r, s))
      else if m == 0x0b
      then (as_value number (decode_date false r), s)
      else if m == 0x0c
      then (as_value text (decode_long_string false r), s)
      else if m == 0x0d
      then (got null r, s)
      else if m == 0x0f
      then (as_value text (decode_long_string false r), s)
      else if m == 0x10
      then then_run (λ t s r. run_value (typed_object t) (members no_members s r))
          (decode_string false r, s)
      else if m == 0x11
      then decode_version3 d s r
      else (failed (unsupported_type m), s)

  -- DecodeAmf0, the loop of DecodeAmf0Object and that of DecodeAmf0StrictArray
  unfoldable mutual
    pub decode : ℕ → Refs → List ℕ → Run Value
    decode zero s r = (stuck, s)
    decode (suc f) s r =
        then_run (decode_marked (decode_members f) (decode_values f)) (read_byte r, s)

    pub decode_members : ℕ → Members → Refs → List ℕ → Run Members
    decode_members zero acc s r = (stuck, s)
    decode_members (suc f) acc s r =
        then_run
          (on_key
            (λ key s r. then_run (λ v s r. decode_members f (assign key v acc) s r) (decode f s r))
            acc)
          (decode_string false r, s)

    pub decode_values : ℕ → ℕ → Refs → List ℕ → Run Values
    decode_values zero n s r = (stuck, s)
    decode_values (suc f) zero s r = (got no_values r, s)
    decode_values (suc f) (suc n) s r =
        then_run (λ v s r. then_run (λ vs s r. (got (value v vs) r, s)) (decode_values f n s r))
          (decode f s r)

  -- Each call that is nested in another has a byte less to read, so this fuel is enough.
  unfoldable pub decode_amf0 : Refs → List ℕ → Run Value
  decode_amf0 s r = decode (length r + 2) s r
