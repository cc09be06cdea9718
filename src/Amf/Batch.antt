-- ===== src/Amf/Batch.antt =====
-- protocol/amf/amf.go: the choice of a version, and values one after the other. The encoder of version 3
-- is a parameter where it stands beside that of version 0.
pub mod RoundTrip
use yoshiera_huang_livego.Prelude.{◌≡◌}
use yoshiera_huang_livego.Prelude.{
  ℕ, zero, suc, ◌+◌, ◌<◌, ◌≢◌, refl, arith, Bool, true, false, Option, none, some, List, [], ◌∷◌,
  length, ◌==◌, if◌then◌else◌,
}
use yoshiera_huang_livego.Amf.Value.{Value, AmfError, unsupported_version}
use yoshiera_huang_livego.Amf.Encoder.{Encoded, encode}
use yoshiera_huang_livego.Amf.Version3.{Run, Setup, decode_version3}
use yoshiera_huang_livego.Amf3.Item.{Item, Refs}
use yoshiera_huang_livego.Amf3.Reader.{Reads}
use yoshiera_huang_livego.Amf3.Takes.{Takes}
use yoshiera_huang_livego.Amf.Decoder
use yoshiera_huang_livego.Amf.Decoder.{got, failed, stuck, decode_amf0}
use yoshiera_huang_livego.Amf.Termination.{Ends, decode-Ends}

-- The values before the first error, whether it is io.EOF itself, the error and the caches, or a panic.
-- `unfinished` is no end of the program: the fuel was used up.
pub data Batch : Type 0 where
  ended : List Value → Bool → AmfError → Refs → Batch
  panicked unfinished : Batch

abbrev pub with_value : Value → Batch → Batch
with_value v (ended vs io_eof e s) = ended (v ∷ vs) io_eof e s
with_value v panicked = panicked
with_value v unfinished = unfinished

with_value_ne : (v : Value) (b : Batch) → b ≢ unfinished → with_value v b ≢ unfinished
with_value_ne v (ended vs io_eof e s) h = λ k. absurd (cc)
with_value_ne v panicked h = λ k. absurd (cc)
with_value_ne v unfinished h = absurd (h refl)

-- What DecodeBatch does with a value, or with an error.
abbrev pub after_value : Bool → (Refs → List ℕ → Batch) → Run Value → Batch
after_value io_eof next (got v r, s) = with_value v (next s r)
after_value io_eof next (failed e, s) = ended [] io_eof e s
after_value io_eof next (Decoder.panicked, s) = panicked
after_value io_eof next (stuck, s) = unfinished

-- What EncodeBatch does with a value.
abbrev pub after_encoded : (List ℕ → Option AmfError × List ℕ) → Encoded → Option AmfError × List ℕ
after_encoded next ((n, some e), w) = (some e, w)
after_encoded next ((n, none), w) = next w

-- Encode, for a version
unfoldable pub encode_version : (Value → List ℕ → Encoded) → ℕ → Value → List ℕ → Encoded
encode_version encode_amf3 ver v w =
    if ver == 0
    then encode v w
    else if ver == 3
    then encode_amf3 v w
    else ((0, some (unsupported_version ver)), w)

-- EncodeBatch; its number is 0 always.
unfoldable pub encode_batch :
    (Value → List ℕ → Encoded) → ℕ → List Value → List ℕ → Option AmfError × List ℕ
unfolding encode_version
encode_batch encode_amf3 ver [] w = (none, w)
encode_batch encode_amf3 ver (v ∷ vs) w =
    after_encoded (encode_batch encode_amf3 ver vs) (encode_version encode_amf3 ver v w)

-- Whether DecodeAmf3, if it fails, fails with io.EOF itself, and not with an error that only names it: at
-- the marker, or in the number of an integer.
unfoldable pub version3_fails_at_end : List ℕ → Bool
version3_fails_at_end [] = true
version3_fails_at_end (b ∷ r) = b == 0x04

-- The same for DecodeAmf0: at the marker, at the byte of a boolean, or in version 3.
unfoldable pub fails_at_end : List ℕ → Bool
unfolding version3_fails_at_end
fails_at_end [] = true
fails_at_end (b ∷ r) =
    if b == 0x01 then length r == 0 else if b == 0x11 then version3_fails_at_end r else false

module _ (d : Setup) where
  -- Decode, for a version
  unfoldable pub decode_version : ℕ → Refs → List ℕ → Run Value
  decode_version ver s r =
      if ver == 0
      then decode_amf0 d s r
      else if ver == 3
      then decode_version3 d s r
      else (failed (unsupported_version ver), s)

  unfoldable pub version_fails_at_end : ℕ → List ℕ → Bool
  unfolding fails_at_end
  version_fails_at_end ver r =
      if ver == 0 then fails_at_end r else if ver == 3 then version3_fails_at_end r else false

  -- DecodeBatch: each round takes a byte or fails.
  unfoldable pub batch_rounds : ℕ → ℕ → Refs → List ℕ → Batch
  unfolding decode_version version_fails_at_end
  batch_rounds zero ver s r = unfinished
  batch_rounds (suc fuel) ver s r =
      after_value (version_fails_at_end ver r) (batch_rounds fuel ver) (decode_version ver s r)

  unfoldable pub decode_batch : ℕ → Refs → List ℕ → Batch
  unfolding batch_rounds
  decode_batch ver s r = batch_rounds (length r + 1) ver s r

  -- Each round of version 0 takes a byte.
  module _
      (handlers_end : (class : List ℕ) (handler : Reads Item)
        → d.handlers class ≡ some handler
        → (n : ℕ) → Takes 0 n handler) where
    after_value_ne :
        (n : ℕ) (io_eof : Bool) (next : Refs → List ℕ → Batch) (p : Run Value)
        → Ends n p.0
        → ((s : Refs) (r : List ℕ) → length r < n → next s r ≢ unfinished)
        → after_value io_eof next p ≢ unfinished
    after_value_ne n io_eof next (got v r, s) h k = with_value_ne v (next s r) (k s r h)
    after_value_ne n io_eof next (failed e, s) h k = λ e'. absurd (cc)
    after_value_ne n io_eof next (Decoder.panicked, s) h k = λ e'. absurd (cc)
    after_value_ne n io_eof next (stuck, s) h k = absurd h

    rounds_ne :
        (fuel : ℕ) (s : Refs) (r : List ℕ) → length r < fuel → batch_rounds fuel 0 s r ≢ unfinished
    unfolding batch_rounds decode_version decode_amf0
    rounds_ne zero s r h = absurd (omega arith)
    rounds_ne (suc fuel) s r h =
        after_value_ne (length r) (version_fails_at_end 0 r) (batch_rounds fuel 0)
          (decode_amf0 d s r) (decode-Ends d handlers_end (length r + 2) s r (omega arith))
          (λ s' r' h'. rounds_ne fuel s' r' (omega arith))

    -- DecodeBatch of any bytes in version 0, with any caches, ends with an error behind some values or
    -- in a panic, if every handler of an external class ends and leaves no more bytes than it was given.
    pub decode_batch_ends : (s : Refs) (r : List ℕ) → decode_batch 0 s r ≢ unfinished
    unfolding decode_batch
    decode_batch_ends s r = rounds_ne (length r + 1) s r (omega arith)
