-- ===== src/Rtmp/ChunkStream/Reader.antt =====
-- protocol/rtmp/core/chunk_stream.go: readChunk.
use yoshiera_huang_livego.Prelude.{ℕ, ◌+◌}
use yoshiera_huang_livego.Prelude.{
  Bool, true, false, not, ◌&&◌, ◌||◌, Option, none, some, ◌>>=◌, ◌>>◌,
}
use yoshiera_huang_livego.Prelude.{List, ◌++◌, length, take, drop}
use yoshiera_huang_livego.Prelude.{ltb, ◌==◌, if◌then◌else◌}
use yoshiera_huang_livego.Pio.{u32be}
use yoshiera_huang_livego.Pool.{Pool}
use yoshiera_huang_livego.Rtmp.ReadWriter.{
  Error, invalid_remain, invalid_format, ReadWriter, read_uint_be, read_uint_le, read, peek,
  discard,
}
use yoshiera_huang_livego.Rtmp.ChunkStream.State.{ChunkStream, add32, sub32, new, slice}

-- `x, _ := r.ReadUintBE(n)`, and the same for ReadUintLE.
unfoldable pub get_be : ℕ → ReadWriter → ℕ × ReadWriter
get_be n r = let ((x, _), r') = read_uint_be n r in (x, r')

unfoldable pub get_le : ℕ → ReadWriter → ℕ × ReadWriter
get_le n r = let ((x, _), r') = read_uint_le n r in (x, r')

-- The state that `readChunk` works on: the chunk stream, the reader and the pool.
pub record Reading : Type 0 where
  pub cs : ChunkStream
  pub r : ReadWriter
  pub pool : Pool

-- The error that ends `readChunk`, or nil, and the state that it leaves.
abbrev pub Read : Type 0
Read = Option (Option Error × Reading)

-- `switch chunkStream.CSID`
unfoldable pub read_csid : ChunkStream → ReadWriter → ChunkStream × ReadWriter
read_csid cs r =
    if cs.csid == 0
    then (let (id, r) = get_le 1 r in (record cs { csid = add32 id 64 }, r))
    else if cs.csid == 1
    then (let (id, r) = get_le 2 r in (record cs { csid = add32 id 64 }, r))
    else (cs, r)

-- A timestamp of 0xffffff is followed by the extended one.
unfoldable pub read_extended : ℕ → ReadWriter → (ℕ × Bool) × ReadWriter
read_extended ts r =
    if ts == 0xffffff then (let (ext, r) = get_be 4 r in ((ext, true), r)) else ((ts, false), r)

unfoldable pub with_new : ChunkStream → ReadWriter → Pool → Read
with_new cs r pool = do
  (cs', pool') ← new cs pool
  some (none, record { cs = cs'; r = r; pool = pool' })

-- case 0 of `switch chunkStream.tmpFromat`
unfoldable pub read_full : ChunkStream → ReadWriter → Pool → Read
read_full cs r pool =
    let (timestamp, r) = get_be 3 r in
    let (len, r) = get_be 3 r in
    let (type_id, r) = get_be 1 r in
    let (stream_id, r) = get_le 4 r in
    let ((timestamp, exted), r) = read_extended timestamp r in
    with_new
      (record cs {
        format = cs.tmp_format;
        timestamp = timestamp;
        length = len;
        type_id = type_id;
        stream_id = stream_id;
        exted = exted;
      })
      r pool

-- case 1
unfoldable pub read_delta_length : ChunkStream → ReadWriter → Pool → Read
read_delta_length cs r pool =
    let (delta, r) = get_be 3 r in
    let (len, r) = get_be 3 r in
    let (type_id, r) = get_be 1 r in
    let ((delta, exted), r) = read_extended delta r in
    with_new
      (record cs {
        format = cs.tmp_format;
        length = len;
        type_id = type_id;
        exted = exted;
        time_delta = delta;
        timestamp = add32 cs.timestamp delta;
      })
      r pool

-- case 2
unfoldable pub read_delta : ChunkStream → ReadWriter → Pool → Read
read_delta cs r pool =
    let (delta, r) = get_be 3 r in
    let ((delta, exted), r) = read_extended delta r in
    with_new
      (record cs {
        format = cs.tmp_format;
        exted = exted;
        time_delta = delta;
        timestamp = add32 cs.timestamp delta;
      })
      r pool

-- case 3 where nothing remains: a new message with the header of the last one.
unfoldable pub read_repeat : ChunkStream → ReadWriter → Pool → Read
read_repeat cs r pool =
    if cs.format == 0
    then if cs.exted
      then (let (ts, r) = get_be 4 r in with_new (record cs { timestamp = ts }) r pool)
      else with_new cs r pool
    else if (cs.format == 1) || (cs.format == 2)
    then if cs.exted
      then (let (delta, r) = get_be 4 r in
          with_new (record cs { timestamp = add32 cs.timestamp delta }) r pool)
      else with_new (record cs { timestamp = add32 cs.timestamp cs.time_delta }) r pool
    else with_new cs r pool

-- `binary.BigEndian.Uint32`, of a slice whose length the callers have not tested.
unfoldable pub be32 : List ℕ → Option ℕ
be32 b = u32be b

-- case 3 within a message: the extended timestamp is skipped if it is repeated.
unfoldable pub read_continue : ChunkStream → ReadWriter → Pool → Read
read_continue cs r pool =
    if cs.exted
    then (let (b, err) = peek 4 r in
        elim err [
          | some e ↦ some (some e, record { cs = cs; r = r; pool = pool })
          | none ↦ do
            tmpts ← be32 b
            some (
              none,
              record { cs = cs; r = if tmpts == cs.timestamp then discard 4 r else r; pool = pool },
            )
        ])
    else some (none, record { cs = cs; r = r; pool = pool })

-- `switch chunkStream.tmpFromat`
unfoldable pub read_message_header : ChunkStream → ReadWriter → Pool → Read
read_message_header cs r pool =
    if cs.tmp_format == 0
    then read_full cs r pool
    else if cs.tmp_format == 1
    then read_delta_length cs r pool
    else if cs.tmp_format == 2
    then read_delta cs r pool
    else if cs.tmp_format == 3
    then (if cs.remain == 0 then read_repeat cs r pool else read_continue cs r pool)
    else some (some (invalid_format cs.format), record { cs = cs; r = r; pool = pool })

-- `copy` of `src` into `dst` from index `i` on, where it fits.
unfoldable pub splice : List ℕ → ℕ → List ℕ → List ℕ
splice dst i src = take i dst ++ (src ++ drop (i + length src) dst)

-- `size`: what remains, or a chunk of it.
unfoldable pub read_size : ℕ → ChunkStream → ℕ
read_size chunk_size cs = if ltb chunk_size cs.remain then chunk_size else cs.remain

-- After the call of Read. What is read stands in Data even where it is too little.
unfoldable pub after_read : ℕ → Reading → (List ℕ × Option Error) × ReadWriter → Read
after_read size st ((p, some e), r) = some (
  some e,
  record st { cs = record st.cs { payload = splice st.cs.payload st.cs.index p }; r = r },
)
after_read size st ((p, none), r) =
    let remain = sub32 st.cs.remain size in
    some (
      r.read_error,
      record st {
        cs = record st.cs {
          payload = splice st.cs.payload st.cs.index p;
          index = add32 st.cs.index size;
          remain = remain;
          got = if remain == 0 then true else st.cs.got;
        };
        r = r;
      },
    )

-- From `size := int(chunkStream.remain)` on.
unfoldable pub read_body : ℕ → Reading → Read
read_body chunk_size st = do
  let size = read_size chunk_size st.cs
  slice st.cs.payload st.cs.index (add32 st.cs.index size)
  after_read size st (read size st.r)

-- The header was read without an error: go on with the body.
unfoldable pub then_body : ℕ → Option Error × Reading → Read
then_body chunk_size (some e, st) = some (some e, st)
then_body chunk_size (none, st) = read_body chunk_size st

-- readChunk
unfoldable pub read_chunk : ChunkStream → ReadWriter → ℕ → Pool → Read
read_chunk cs r chunk_size pool =
    if not (cs.remain == 0) && not (cs.tmp_format == 3)
    then some (some (invalid_remain cs.remain), record { cs = cs; r = r; pool = pool })
    else (let (cs, r) = read_csid cs r in
        do header ← read_message_header cs r pool; then_body chunk_size header)
