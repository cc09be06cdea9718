-- ===== src/Rtmp/ChunkStream/State.antt =====
-- protocol/rtmp/core/chunk_stream.go: the state of a chunk stream, and the buffer that it gets.
use yoshiera_huang_livego.Prelude.{ℕ, ◌+◌, ◌-◌, ◌%◌, ◌^◌}
use yoshiera_huang_livego.Prelude.{Bool, false, ◌&&◌, Option, none, some, ◌>>=◌}
use yoshiera_huang_livego.Prelude.{List, [], length, take, drop, replicate}
use yoshiera_huang_livego.Prelude.{leb, if◌then◌else◌}
use yoshiera_huang_livego.Pool
use yoshiera_huang_livego.Pool.{Pool}

pub record ChunkStream : Type 0 where
  pub format : ℕ
  pub csid : ℕ
  pub timestamp : ℕ
  pub length : ℕ
  pub type_id : ℕ
  pub stream_id : ℕ
  pub time_delta : ℕ
  pub exted : Bool
  pub index : ℕ
  pub remain : ℕ
  pub got : Bool
  pub tmp_format : ℕ
  pub payload : List ℕ

-- `ChunkStream{}`
abbrev pub empty : ChunkStream
empty = record {
  format = 0;
  csid = 0;
  timestamp = 0;
  length = 0;
  type_id = 0;
  stream_id = 0;
  time_delta = 0;
  exted = false;
  index = 0;
  remain = 0;
  got = false;
  tmp_format = 0;
  payload = [];
}

-- uint32 a + b and a - b
abbrev pub add32 : ℕ → ℕ → ℕ
add32 a b = (a + b) % 2 ^ 32

abbrev pub sub32 : ℕ → ℕ → ℕ
sub32 a b = (a + 2 ^ 32 - b) % 2 ^ 32

-- full
unfoldable pub full : ChunkStream → Bool
full cs = cs.got

-- new: the slice that the pool hands out is fresh, so it holds zeros.
unfoldable pub new : ChunkStream → Pool → Option (ChunkStream × Pool)
new cs pool = do
  (_, pool') ← Pool.get cs.length pool
  some (
    record cs { got = false; index = 0; remain = cs.length; payload = replicate cs.length 0 },
    pool',
  )

-- `b[lo:hi]`; the capacity is taken to be the length.
unfoldable pub slice : List ℕ → ℕ → ℕ → Option (List ℕ)
slice b lo hi = if leb lo hi && leb hi (length b) then some (take (hi - lo) (drop lo b)) else none
