-- ===== src/Pio.antt =====
-- utils/pio: integers in byte slices. A slice is the list of its bytes; `none` is the panic of an
-- index out of range. An intN is its bit pattern, a number below 2 ^ N.
mod Words
pub mod RoundTrip
pub use Words.{at, byte, shl, sign_extend, at, store, eight_bytes, from_be}
unfoldable pub use Words.{at, push}
pub use Words.{at, push_lem}
use yoshiera_huang_livego.Prelude.{ℕ, ◌/◌, ◌^◌, List, Option, some, ◌>>=◌}

-- U8
unfoldable pub u8 : List ℕ → Option ℕ
u8 b = do b0 ← at b 0; some b0

-- U16BE
unfoldable pub u16be : List ℕ → Option ℕ
u16be b = do b0 ← at b 0; b1 ← at b 1; let i = b0; some (push 16 i b1)

-- I16BE
unfoldable pub i16be : List ℕ → Option ℕ
i16be b = do b0 ← at b 0; b1 ← at b 1; let i = b0; some (push 16 i b1)

-- I24BE
unfoldable pub i24be : List ℕ → Option ℕ
i24be b = do
  b0 ← at b 0
  b1 ← at b 1
  b2 ← at b 2
  let i = sign_extend 32 b0
  let i = push 32 i b1
  some (push 32 i b2)

-- U24BE
unfoldable pub u24be : List ℕ → Option ℕ
u24be b = do
  b0 ← at b 0
  b1 ← at b 1
  b2 ← at b 2
  let i = b0
  let i = push 32 i b1
  some (push 32 i b2)

-- I32BE
unfoldable pub i32be : List ℕ → Option ℕ
i32be b = do
  b0 ← at b 0
  b1 ← at b 1
  b2 ← at b 2
  b3 ← at b 3
  let i = sign_extend 32 b0
  let i = push 32 i b1
  let i = push 32 i b2
  some (push 32 i b3)

-- U32LE
unfoldable pub u32le : List ℕ → Option ℕ
u32le b = do
  b3 ← at b 3
  b2 ← at b 2
  b1 ← at b 1
  b0 ← at b 0
  let i = b3
  let i = push 32 i b2
  let i = push 32 i b1
  some (push 32 i b0)

-- U32BE
unfoldable pub u32be : List ℕ → Option ℕ
u32be b = do
  b0 ← at b 0
  b1 ← at b 1
  b2 ← at b 2
  b3 ← at b 3
  let i = b0
  let i = push 32 i b1
  let i = push 32 i b2
  some (push 32 i b3)

-- U40BE
unfoldable pub u40be : List ℕ → Option ℕ
u40be b = do
  b0 ← at b 0
  b1 ← at b 1
  b2 ← at b 2
  b3 ← at b 3
  b4 ← at b 4
  let i = b0
  let i = push 64 i b1
  let i = push 64 i b2
  let i = push 64 i b3
  some (push 64 i b4)

-- U64BE
unfoldable pub u64be : List ℕ → Option ℕ
u64be b = do
  b0 ← at b 0
  b1 ← at b 1
  b2 ← at b 2
  b3 ← at b 3
  b4 ← at b 4
  b5 ← at b 5
  b6 ← at b 6
  b7 ← at b 7
  let i = b0
  let i = push 64 i b1
  let i = push 64 i b2
  let i = push 64 i b3
  let i = push 64 i b4
  let i = push 64 i b5
  let i = push 64 i b6
  some (push 64 i b7)

-- I64BE
unfoldable pub i64be : List ℕ → Option ℕ
i64be b = do
  b0 ← at b 0
  b1 ← at b 1
  b2 ← at b 2
  b3 ← at b 3
  b4 ← at b 4
  b5 ← at b 5
  b6 ← at b 6
  b7 ← at b 7
  let i = sign_extend 64 b0
  let i = push 64 i b1
  let i = push 64 i b2
  let i = push 64 i b3
  let i = push 64 i b4
  let i = push 64 i b5
  let i = push 64 i b6
  some (push 64 i b7)

-- PutU8
unfoldable pub put_u8 : List ℕ → ℕ → Option (List ℕ)
put_u8 b v = store b 0 v

-- PutI16BE
unfoldable pub put_i16be : List ℕ → ℕ → Option (List ℕ)
put_i16be b v = do b ← store b 0 (byte (v / 2 ^ 8)); store b 1 (byte v)

-- PutU16BE
unfoldable pub put_u16be : List ℕ → ℕ → Option (List ℕ)
put_u16be b v = do b ← store b 0 (byte (v / 2 ^ 8)); store b 1 (byte v)

-- PutI24BE
unfoldable pub put_i24be : List ℕ → ℕ → Option (List ℕ)
put_i24be b v = do
  b ← store b 0 (byte (v / 2 ^ 16))
  b ← store b 1 (byte (v / 2 ^ 8))
  store b 2 (byte v)

-- PutU24BE
unfoldable pub put_u24be : List ℕ → ℕ → Option (List ℕ)
put_u24be b v = do
  b ← store b 0 (byte (v / 2 ^ 16))
  b ← store b 1 (byte (v / 2 ^ 8))
  store b 2 (byte v)

-- PutI32BE
unfoldable pub put_i32be : List ℕ → ℕ → Option (List ℕ)
put_i32be b v = do
  b ← store b 0 (byte (v / 2 ^ 24))
  b ← store b 1 (byte (v / 2 ^ 16))
  b ← store b 2 (byte (v / 2 ^ 8))
  store b 3 (byte v)

-- PutU32BE
unfoldable pub put_u32be : List ℕ → ℕ → Option (List ℕ)
put_u32be b v = do
  b ← store b 0 (byte (v / 2 ^ 24))
  b ← store b 1 (byte (v / 2 ^ 16))
  b ← store b 2 (byte (v / 2 ^ 8))
  store b 3 (byte v)

-- PutU32LE
unfoldable pub put_u32le : List ℕ → ℕ → Option (List ℕ)
put_u32le b v = do
  b ← store b 3 (byte (v / 2 ^ 24))
  b ← store b 2 (byte (v / 2 ^ 16))
  b ← store b 1 (byte (v / 2 ^ 8))
  store b 0 (byte v)

-- PutU40BE
unfoldable pub put_u40be : List ℕ → ℕ → Option (List ℕ)
put_u40be b v = do
  b ← store b 0 (byte (v / 2 ^ 32))
  b ← store b 1 (byte (v / 2 ^ 24))
  b ← store b 2 (byte (v / 2 ^ 16))
  b ← store b 3 (byte (v / 2 ^ 8))
  store b 4 (byte v)

-- PutU48BE
unfoldable pub put_u48be : List ℕ → ℕ → Option (List ℕ)
put_u48be b v = do
  b ← store b 0 (byte (v / 2 ^ 40))
  b ← store b 1 (byte (v / 2 ^ 32))
  b ← store b 2 (byte (v / 2 ^ 24))
  b ← store b 3 (byte (v / 2 ^ 16))
  b ← store b 4 (byte (v / 2 ^ 8))
  store b 5 (byte v)

-- PutU64BE
unfoldable pub put_u64be : List ℕ → ℕ → Option (List ℕ)
put_u64be b v = do
  b ← store b 0 (byte (v / 2 ^ 56))
  b ← store b 1 (byte (v / 2 ^ 48))
  b ← store b 2 (byte (v / 2 ^ 40))
  b ← store b 3 (byte (v / 2 ^ 32))
  b ← store b 4 (byte (v / 2 ^ 24))
  b ← store b 5 (byte (v / 2 ^ 16))
  b ← store b 6 (byte (v / 2 ^ 8))
  store b 7 (byte v)

-- PutI64BE
unfoldable pub put_i64be : List ℕ → ℕ → Option (List ℕ)
put_i64be b v = do
  b ← store b 0 (byte (v / 2 ^ 56))
  b ← store b 1 (byte (v / 2 ^ 48))
  b ← store b 2 (byte (v / 2 ^ 40))
  b ← store b 3 (byte (v / 2 ^ 32))
  b ← store b 4 (byte (v / 2 ^ 24))
  b ← store b 5 (byte (v / 2 ^ 16))
  b ← store b 6 (byte (v / 2 ^ 8))
  store b 7 (byte v)
