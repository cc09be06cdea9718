-- ===== src/Rtmp/ChunkStream/Writer.antt =====
-- protocol/rtmp/core/chunk_stream.go: writeHeader and writeChunk.
use yoshiera_huang_livego.Prelude.{ℕ, zero, suc, ◌+◌, ◌*◌, ◌/◌, ◌%◌, ◌^◌, bit_or}
use yoshiera_huang_livego.Prelude.{◌||◌, Option, none, some, ◌>>=◌}
use yoshiera_huang_livego.Prelude.{length}
use yoshiera_huang_livego.Prelude.{ltb, leb, ◌==◌, if◌then◌else◌}
use yoshiera_huang_livego.Av.{tag_audio, tag_video, tag_script_data_amf0, tag_script_data_amf3}
use yoshiera_huang_livego.Pio.{shl}
use yoshiera_huang_livego.Rtmp.ReadWriter.{
  Error, length_too_big, ReadWriter, write_uint_be, write_uint_le, write,
}
use yoshiera_huang_livego.Rtmp.ChunkStream.State.{ChunkStream, add32, sub32, slice}

-- `w.WriteUintBE(v, n)` with the result dropped, and the same for WriteUintLE.
abbrev pub put_be : ℕ → ℕ → ReadWriter → ReadWriter
put_be v n w = (write_uint_be v n w).1

abbrev pub put_le : ℕ → ℕ → ReadWriter → ReadWriter
put_le v n w = (write_uint_le v n w).1

-- The basic header. An id of 65600 or more writes nothing.
unfoldable pub write_basic_header : ChunkStream → ReadWriter → ReadWriter
write_basic_header cs w =
    let h = shl 32 cs.format 6 in
    if ltb cs.csid 64
    then put_be (bit_or h cs.csid) 1 w
    else if ltb (sub32 cs.csid 64) 256
    then put_le (sub32 cs.csid 64) 1 (put_be (bit_or h 0) 1 w)
    else if ltb (sub32 cs.csid 64) 65536
    then put_le (sub32 cs.csid 64) 2 (put_be (bit_or h 1) 1 w)
    else w

-- From the label END on.
unfoldable pub write_end : ℕ → ChunkStream → ReadWriter → Option Error × ReadWriter
write_end ts cs w =
    let w = if leb 0xffffff ts then put_be cs.timestamp 4 w else w in (w.write_error, w)

-- writeHeader
unfoldable pub write_header : ChunkStream → ReadWriter → Option Error × ReadWriter
write_header cs w =
    let w = write_basic_header cs w in
    if cs.format == 3
    then write_end cs.timestamp cs w
    else let ts = if ltb 0xffffff cs.timestamp then 0xffffff else cs.timestamp in
      let w = put_be ts 3 w in
      if cs.format == 2
      then write_end ts cs w
      else if ltb 0xffffff cs.length
      then (some (length_too_big cs.length), w)
      else let w = put_be cs.type_id 1 (put_be cs.length 3 w) in
        if cs.format == 1 then write_end ts cs w else write_end ts cs (put_le cs.stream_id 4 w)

-- The assignment of CSID by the type of the message.
unfoldable pub media_csid : ChunkStream → ChunkStream
media_csid cs =
    if cs.type_id == tag_audio
    then record cs { csid = 4 }
    else if (cs.type_id == tag_video)
        || (cs.type_id == tag_script_data_amf0)
        || (cs.type_id == tag_script_data_amf3)
    then record cs { csid = 6 }
    else cs

-- What ends a call of `writeChunk`: an error or nil, the chunk stream as it is then, the writer.
abbrev pub Written : Type 0
Written = Option (Option Error × ChunkStream × ReadWriter)

-- `if err != nil { return err }` after a write, else `next`.
unfoldable pub on_write : ChunkStream → (ReadWriter → Written) → Option Error × ReadWriter → Written
on_write cs next (some e, w) = some (some e, cs, w)
on_write cs next (none, w) = next w

-- `inc` of the round that starts at `start`.
unfoldable pub increment : ChunkStream → ℕ → ℕ → ℕ
increment cs start size =
    let left = sub32 (length cs.payload % 2 ^ 32) start in if leb left size then left else size

-- The part of a round behind the header: a part of the payload is written. `next` takes `inc`.
unfoldable pub write_part : ChunkStream → ℕ → ℕ → (ℕ → ReadWriter → Written) → ReadWriter → Written
write_part cs start size next w = do
  let inc = increment cs start size
  buf ← slice cs.payload start (add32 start inc)
  on_write cs (next inc) (write buf w)

-- Round `i` of the loop, for a chunk size of `size` in uint32. `next` is the rounds that follow.
unfoldable pub write_round :
    ℕ → ℕ → ℕ → (ℕ → ChunkStream → ReadWriter → Written) → ChunkStream → ReadWriter → Written
write_round size i total next cs w =
    if total == cs.length
    then some (none, cs, w)
    else (let cs = record cs { format = if i == 0 then 0 else 3 } in
        on_write cs (write_part cs (i * size % 2 ^ 32) size (λ inc. next (add32 total inc) cs))
          (write_header cs w))

-- The loop with `rounds` rounds left.
unfoldable pub write_loop : ℕ → ℕ → ℕ → ℕ → ChunkStream → ReadWriter → Written
write_loop zero size i total cs w = some (none, cs, w)
write_loop (suc rounds) size i total cs w =
    write_round size i total (write_loop rounds size (i + 1)) cs w

-- writeChunk: `i` runs from 0 to Length / chunkSize.
unfoldable pub write_chunk : ChunkStream → ReadWriter → ℕ → Written
write_chunk cs w chunk_size =
    let cs = media_csid cs in
    let size = chunk_size % 2 ^ 32 in
    if size == 0 then none else write_loop (cs.length / size + 1) size 0 0 cs w
