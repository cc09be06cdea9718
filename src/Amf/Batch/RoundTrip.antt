-- ===== src/Amf/Batch/RoundTrip.antt =====
-- protocol/amf/amf.go: what EncodeBatch writes, DecodeBatch reads.
use mathlib.Core.Path.{subst}
use yoshiera_huang_livego.Prelude.{
  ℕ, ◌^◌, zero, suc, ◌+◌, ◌<◌, ◌≡◌, refl, sym, ap, ◌∙◌, arith, Bool, true, none, some, List, [],
  ◌∷◌, ◌++◌, length, length-append, append-nil, append_assoc, All,
}
use yoshiera_huang_livego.Amf.Value.{number, eof, Value}
use yoshiera_huang_livego.Amf.Encoder.{Encoded}
use yoshiera_huang_livego.Amf.Version3.{Run, Setup}
use yoshiera_huang_livego.Amf3.Item.{Item, Refs}
use yoshiera_huang_livego.Amf3.Reader.{Reads}
use yoshiera_huang_livego.Amf3.Takes.{Takes}
use yoshiera_huang_livego.Amf.Decoder
use yoshiera_huang_livego.Amf.Decoder.{decode, read_byte, Decoded, got, failed, stuck, decode_amf0}
use yoshiera_huang_livego.Amf.Termination.{Ends, decode-Ends}
use yoshiera_huang_livego.Amf.Format.{IsEncodable, bytes_of, encode_lem}
use yoshiera_huang_livego.Amf.Maps.{IsMap}
use yoshiera_huang_livego.Amf.RoundTrip.{decode_amf0-number, decode_amf0-bytes_of}
use yoshiera_huang_livego.Amf.Batch.{
  ended, fails_at_end, Batch, with_value, after_value, after_encoded, encode_version, encode_batch,
  decode_version, version_fails_at_end, batch_rounds, decode_batch,
}

-- A value that version 0 gives back.
abbrev pub IsPlain : Value → Type 0
IsPlain v = IsEncodable v × IsMap v

-- A batch with values in front.
abbrev pub with_values : List Value → Batch → Batch
with_values [] b = b
with_values (v ∷ vs) b = with_value v (with_values vs b)

abbrev pub batch_bytes : List Value → List ℕ
batch_bytes [] = []
batch_bytes (v ∷ vs) = bytes_of v ++ batch_bytes vs

pub encode_batch_lem :
    (encode_amf3 : Value → List ℕ → Encoded) (vs : List Value) (w : List ℕ)
    → All IsPlain vs
    → encode_batch encode_amf3 0 vs w ≡ (none, w ++ batch_bytes vs)
unfolding encode_batch encode_version
encode_batch_lem encode_amf3 [] w h = ap (λ (l : List ℕ). (none, l)) (sym (append-nil w))
encode_batch_lem encode_amf3 (v ∷ vs) w ((plain, distinct), hs) =
    ap (after_encoded (encode_batch encode_amf3 0 vs)) (encode_lem v w plain)
    ∙ encode_batch_lem encode_amf3 vs (w ++ bytes_of v) hs
    ∙ ap (λ (l : List ℕ). (none, l)) (append_assoc w (bytes_of v) (batch_bytes vs))

module _ (d : Setup)
    (handlers_end : (class : List ℕ) (handler : Reads Item)
      → d.handlers class ≡ some handler
      → (n : ℕ) → Takes 0 n handler) where
  agree :
      (n : ℕ) (io_eof : Bool) (next next' : Refs → List ℕ → Batch) (p : Run Value)
      → Ends n p.0
      → ((s : Refs) (r : List ℕ) → length r < n → next s r ≡ next' s r)
      → after_value io_eof next p ≡ after_value io_eof next' p
  agree n io_eof next next' (got v r, s) h k = ap (with_value v) (k s r h)
  agree n io_eof next next' (failed e, s) h k = refl
  agree n io_eof next next' (Decoder.panicked, s) h k = refl
  agree n io_eof next next' (stuck, s) h k = refl

  -- More fuel than there are bytes makes no difference.
  enough :
      (f g : ℕ) (s : Refs) (r : List ℕ)
      → length r < f
      → length r < g
      → batch_rounds d f 0 s r ≡ batch_rounds d g 0 s r
  unfolding batch_rounds decode_version decode_amf0
  enough zero g s r h k = absurd (omega arith)
  enough (suc f) zero s r h k = absurd (omega arith)
  enough (suc f) (suc g) s r h k =
      agree (length r) (version_fails_at_end d 0 r) (batch_rounds d f 0) (batch_rounds d g 0)
        (decode_amf0 d s r) (decode-Ends d handlers_end (length r + 2) s r (omega arith))
        (λ s' r' h'. enough f g s' r' (omega arith) (omega arith))

  decode_rounds_lem :
      (vs : List Value) (f : ℕ) (s : Refs) (more : List ℕ)
      → All IsPlain vs
      → 0 < length more
      → length (batch_bytes vs ++ more) < f
      → batch_rounds d f 0 s (batch_bytes vs ++ more) ≡ with_values vs (decode_batch d 0 s more)
  unfolding decode_batch batch_rounds decode_version decode_amf0
  decode_rounds_lem [] f s more h some_more enough_fuel =
      enough f (length more + 1) s more enough_fuel (omega arith)
  decode_rounds_lem (v ∷ vs) zero s more h some_more enough_fuel = absurd (omega arith)
  decode_rounds_lem (v ∷ vs) (suc f) s more ((plain, distinct), hs) some_more enough_fuel =
      let rest = batch_bytes vs ++ more in
      let behind : 0 < length rest = omega (arith, length-append (batch_bytes vs) more) in
      let got_v = decode_amf0-bytes_of d s v rest plain distinct behind in
      let input : (bytes_of v ++ batch_bytes vs) ++ more ≡ bytes_of v ++ rest =
        append_assoc (bytes_of v) (batch_bytes vs) more in
      let taken : length rest < length (bytes_of v ++ rest) =
        subst (λ (p : Run Value). Ends (length (bytes_of v ++ rest)) p.0) got_v
          (decode-Ends d handlers_end (length (bytes_of v ++ rest) + 2) s (bytes_of v ++ rest)
            (omega arith)) in
      let less : length rest < f = omega (arith, taken, ap length input) in
      ap (batch_rounds d (suc f) 0 s) input
      ∙ ap (after_value (version_fails_at_end d 0 (bytes_of v ++ rest)) (batch_rounds d f 0)) got_v
      ∙ ap (with_value v) (decode_rounds_lem vs f s more hs some_more less)

  no_bytes : (s : Refs) → batch_rounds d 9 0 s [] ≡ ended [] true eof s
  unfolding batch_rounds decode_version version_fails_at_end fails_at_end decode_amf0 decode
      read_byte
  no_bytes s = refl

  decode_batch-number :
      (x : ℕ) (s : Refs)
      → x < 2 ^ 64
      → decode_batch d 0 s (bytes_of (number x)) ≡ ended (number x ∷ []) true eof s
  unfolding decode_batch batch_rounds decode_version bytes_of
  decode_batch-number x s h =
      ap (after_value (version_fails_at_end d 0 (bytes_of (number x))) (batch_rounds d 9 0))
        (decode_amf0-number d s x h)
      ∙ ap (with_value (number x)) (no_bytes s)

  -- A batch that ends in a number.
  pub decode_batch-last_number :
      (vs : List Value) (x : ℕ) (s : Refs)
      → All IsPlain vs
      → x < 2 ^ 64
      → decode_batch d 0 s (batch_bytes vs ++ bytes_of (number x))
        ≡ with_values vs (ended (number x ∷ []) true eof s)
  unfolding decode_batch bytes_of
  decode_batch-last_number vs x s h small =
      let last = bytes_of (number x) in
      decode_rounds_lem vs (length (batch_bytes vs ++ last) + 1) s last h (omega arith)
        (omega arith)
      ∙ ap (with_values vs) (decode_batch-number x s small)

-- Values of version 0 without typed objects, with numbers of 64 bits, lengths that fit their
-- fields, and objects whose keys are distinct and not empty, are encoded by EncodeBatch in
-- version 0 without an error to bytes behind what the buffer holds. With at least one byte behind
-- them, DecodeBatch gives these values, and behind them what it gives for what follows, its error
-- or panic and the caches included, if every handler of an external class ends and leaves no more
-- bytes than it was given.
pub decode_batch-encode_batch :
    (d : Setup) (s : Refs) (encode_amf3 : Value → List ℕ → Encoded) (vs : List Value)
    (w more : List ℕ)
    → ((class : List ℕ) (handler : Reads Item)
        → d.handlers class ≡ some handler
        → (n : ℕ) → Takes 0 n handler)
    → All IsPlain vs
    → 0 < length more
    → (bs : List ℕ) × (encode_batch encode_amf3 0 vs w ≡ (none, w ++ bs))
      × (decode_batch d 0 s (bs ++ more) ≡ with_values vs (decode_batch d 0 s more))
unfolding decode_batch
decode_batch-encode_batch d s encode_amf3 vs w more handlers_end h some_more =
    let fuel : length (batch_bytes vs ++ more) < length (batch_bytes vs ++ more) + 1 =
      omega arith in
    (
      batch_bytes vs,
      encode_batch_lem encode_amf3 vs w h,
      decode_rounds_lem d handlers_end vs (length (batch_bytes vs ++ more) + 1) s more h some_more
          fuel,
    )
