-- ===== src/Rtmp/ReadWriter.antt =====
-- protocol/rtmp/core/read_writer.go: buffered input and output with sticky errors.
-- `input` holds the bytes that the peer still delivers before the end of the stream, `output` the
-- bytes that bufio's writer has accepted, and `room` says how many more it accepts before it fails.
pub mod Emit
pub mod Integers
pub mod Progress
pub mod Steady
use yoshiera_huang_livego.Prelude.{
  ℕ, zero, suc, ◌+◌, ◌-◌, ◌*◌, ◌/◌, ◌%◌, ◌^◌, bit_and, Option, none, some,
}
use yoshiera_huang_livego.Prelude.{List, [], ◌∷◌, ◌++◌, length, take, drop, ltb, if◌then◌else◌}
use yoshiera_huang_livego.Pio.{byte, shl}

pub data Error : Type 0 where
  eof unexpected_eof write_failed : Error
  length_too_big invalid_remain invalid_format : ℕ → Error

pub record ReadWriter : Type 0 where
  pub input : List ℕ
  pub output : List ℕ
  pub room : ℕ
  pub read_error : Option Error
  pub write_error : Option Error

-- One round reads a byte; the first failure is kept in readError.
unfoldable pub read_be_loop : ℕ → ℕ → ReadWriter → (ℕ × Option Error) × ReadWriter
read_be_loop zero ret rw = ((ret, none), rw)
read_be_loop (suc n) ret rw = elim rw.input [
  | [] ↦ ((0, some eof), record rw { read_error = some eof })
  | b ∷ rest ↦ read_be_loop n ((shl 32 ret 8 + b) % 2 ^ 32) (record rw { input = rest })
]

-- ReadUintBE
unfoldable pub read_uint_be : ℕ → ReadWriter → (ℕ × Option Error) × ReadWriter
read_uint_be n rw = elim rw.read_error [ some e ↦ ((0, some e), rw) | none ↦ read_be_loop n 0 rw ]

-- `i` counts the bytes that are read.
unfoldable pub read_le_loop : ℕ → ℕ → ℕ → ReadWriter → (ℕ × Option Error) × ReadWriter
read_le_loop zero i ret rw = ((ret, none), rw)
read_le_loop (suc n) i ret rw = elim rw.input [
  | [] ↦ ((0, some eof), record rw { read_error = some eof })
  | b ∷ rest ↦
      read_le_loop n (i + 1) ((ret + shl 32 b (i * 8)) % 2 ^ 32) (record rw { input = rest })
]

-- ReadUintLE
unfoldable pub read_uint_le : ℕ → ReadWriter → (ℕ × Option Error) × ReadWriter
read_uint_le n rw = elim rw.read_error [ some e ↦ ((0, some e), rw) | none ↦ read_le_loop n 0 0 rw ]

-- io.ReadAtLeast(rw, p, len(p)) with `n = len(p)`: the bytes that are read, and the error.
unfoldable pub read_at_least : ℕ → List ℕ → List ℕ × Option Error
read_at_least zero input = ([], none)
read_at_least n [] = ([], some eof)
read_at_least n input =
    if ltb (length input) n then (input, some unexpected_eof) else (take n input, none)

-- Read
unfoldable pub read : ℕ → ReadWriter → (List ℕ × Option Error) × ReadWriter
read n rw = elim rw.read_error [
  | some e ↦ (([], some e), rw)
  | none ↦
      let (p, err) = read_at_least n rw.input in
      ((p, err), record rw { input = drop (length p) rw.input; read_error = err })
]

-- bufio's Peek and Discard, promoted from the embedded reader.
unfoldable pub peek : ℕ → ReadWriter → List ℕ × Option Error
peek n rw = if ltb (length rw.input) n then (rw.input, some eof) else (take n rw.input, none)

unfoldable pub discard : ℕ → ReadWriter → ReadWriter
discard n rw = record rw { input = drop n rw.input }

-- bufio's WriteByte
unfoldable pub write_byte : ℕ → ReadWriter → Option Error × ReadWriter
write_byte b rw = elim rw.room [
  | zero ↦ (some write_failed, rw)
  | suc left ↦ (none, record rw { output = rw.output ++ b ∷ []; room = left })
]

-- What the loop of a writer does after a byte.
unfoldable pub after_byte :
    (ReadWriter → Option Error × ReadWriter) → Option Error × ReadWriter → Option Error × ReadWriter
after_byte next (some e, rw) = (some e, record rw { write_error = some e })
after_byte next (none, rw) = next rw

-- `n` is the number of rounds left, n - i in the source.
unfoldable pub write_be_loop : ℕ → ℕ → ReadWriter → Option Error × ReadWriter
write_be_loop zero v rw = (none, rw)
write_be_loop (suc n) v rw =
    after_byte (write_be_loop n v) (write_byte (bit_and (byte (v / 2 ^ (n * 8))) 0xff) rw)

-- WriteUintBE
unfoldable pub write_uint_be : ℕ → ℕ → ReadWriter → Option Error × ReadWriter
write_uint_be v n rw = elim rw.write_error [ some e ↦ (some e, rw) | none ↦ write_be_loop n v rw ]

unfoldable pub write_le_loop : ℕ → ℕ → ReadWriter → Option Error × ReadWriter
write_le_loop zero v rw = (none, rw)
write_le_loop (suc n) v rw =
    after_byte (write_le_loop n (v / 2 ^ 8)) (write_byte (bit_and (byte v) 0xff) rw)

-- WriteUintLE
unfoldable pub write_uint_le : ℕ → ℕ → ReadWriter → Option Error × ReadWriter
write_uint_le v n rw = elim rw.write_error [ some e ↦ (some e, rw) | none ↦ write_le_loop n v rw ]

-- Write: a failure of bufio's Write is returned and not kept in writeError.
unfoldable pub write : List ℕ → ReadWriter → Option Error × ReadWriter
write p rw = elim rw.write_error [
  | some e ↦ (some e, rw)
  | none ↦
      if ltb rw.room (length p)
      then (some write_failed, record rw { output = rw.output ++ take rw.room p; room = 0 })
      else (none, record rw { output = rw.output ++ p; room = rw.room - length p })
]
