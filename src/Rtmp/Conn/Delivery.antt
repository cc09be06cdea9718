-- ===== src/Rtmp/Conn/Delivery.antt =====
-- A message that one side writes is the message that the other side reads.
use yoshiera_huang_livego.Prelude.{ℕ, ◌^◌, ◌≤◌, ◌<◌, ◌≡◌, ◌≢◌, refl, sym, ap, ◌∙◌}
use yoshiera_huang_livego.Prelude.{none, some, true, List, ◌++◌, length, drop, append-nil}
use yoshiera_huang_livego.Pool.{max_pool_size}
use yoshiera_huang_livego.Rtmp.ReadWriter.{ReadWriter}
use yoshiera_huang_livego.Rtmp.ReadWriter.Emit.{emit}
use yoshiera_huang_livego.Rtmp.ReadWriter.Integers.{feed}
use yoshiera_huang_livego.Rtmp.ChunkStream.{ChunkStream, add32, media_csid, write_chunk}
use yoshiera_huang_livego.Rtmp.ChunkStream.Wire.{IsHeader}
use yoshiera_huang_livego.Rtmp.ChunkStream.Writing.{
  chunks_of, last_format, media_csid_keeps, write_chunk-chunks_of,
}
use yoshiera_huang_livego.Rtmp.ChunkStream.Parsing.{pool_after}
use yoshiera_huang_livego.Rtmp.Conn.{
  Conn, or_empty, message, read, id_set_chunk_size, id_window_ack_size,
}
use yoshiera_huang_livego.Rtmp.Conn.Receive.{ended, base, read-chunks_of}
use yoshiera_huang_livego.Rtmp.Conn.Control.{counted, finish-quiet}

-- `cs` is the whole message `m`.
pub record IsReceived (m cs : ChunkStream) : Type 0 where
  pub same_csid : cs.csid ≡ m.csid
  pub same_timestamp : cs.timestamp ≡ m.timestamp
  pub same_length : cs.length ≡ m.length
  pub same_type_id : cs.type_id ≡ m.type_id
  pub same_stream_id : cs.stream_id ≡ m.stream_id
  pub same_payload : cs.payload ≡ m.payload
  pub complete : cs.got ≡ true
  pub idle : cs.remain ≡ 0

-- The chunk sizes agree, the chunk stream is idle, and the message is one that a pool can hold.
pub record CanDeliver (c : ChunkStream) (s : ReadWriter) (conn : Conn) : Type 0 where
  pub header : IsHeader (media_csid c)
  pub whole : length c.payload ≡ c.length
  pub not_empty : 0 < c.length
  pub served : c.length ≤ max_pool_size
  pub size_pos : 0 < conn.remote_chunk_size
  pub size_fits : conn.remote_chunk_size < 2 ^ 32
  pub ready : s.write_error ≡ none
  pub room : length (chunks_of (media_csid c) conn.remote_chunk_size) ≤ s.room
  pub idle : (or_empty (conn.chunks (media_csid c).csid)).remain ≡ 0

-- A message that `writeChunk` writes without an error appends bytes to the output; Read of a
-- connection whose remote chunk size is that of the writer, with these bytes at the front of its
-- input, returns the message with all its fields and bytes and leaves the input behind it. The
-- message is not empty, fits the pool and the header fields, and is on an idle chunk stream with an
-- id from 2 to 63; it is no control message, and its length leaves the window of the
-- acknowledgement unfilled.
pub read-write_chunk :
    (c : ChunkStream) (s : ReadWriter) (conn : Conn) (r : ReadWriter) (more : List ℕ)
    → CanDeliver c s conn
    → c.type_id ≢ id_set_chunk_size
    → c.type_id ≢ id_window_ack_size
    → add32 conn.ack_received c.length < conn.remote_window_ack_size
    → (bs : List ℕ) × (sent cs : ChunkStream) × (conn' : Conn) × (write_chunk c s
          conn.remote_chunk_size
        ≡ some (none, sent, emit bs s))
      × (read (record conn { rw = feed (bs ++ more) r }) ≡ message cs conn')
      × IsReceived (media_csid c) cs
      × (conn'.rw ≡ feed more r)
read-write_chunk c s conn r more h not_size not_window window =
    let m = media_csid c in
    let (same_payload, same_length, same_type) = media_csid_keeps c in
    let size = conn.remote_chunk_size in
    let whole : length m.payload ≡ m.length = ap length same_payload ∙ h.whole ∙ sym same_length in
    let some_bytes : 0 < m.length = rw same_length h.not_empty in
    let served : m.length ≤ max_pool_size = rw same_length h.served in
    let written =
      write_chunk-chunks_of c s size h.header h.whole h.not_empty h.size_pos h.size_fits h.ready
        h.room in
    let (t, chunks, e) =
      read-chunks_of m conn r more h.header whole some_bytes served h.size_pos h.idle in
    let cs =
      ended m (base m conn r more h.header whole some_bytes served h.size_pos h.idle) t m.payload in
    let conn' = record conn {
      rw = feed more r;
      pool = pool_after m.length conn.pool;
      chunks = chunks;
    } in
    let quiet =
      finish-quiet cs conn' (rw same_type not_size) (rw same_type not_window)
        (rw same_length window) in
    (
      chunks_of m size,
      record m { format = last_format 0 (drop size c.payload) },
      cs,
      counted m.length conn',
      written,
      e ∙ quiet,
      record {
        same_csid = refl;
        same_timestamp = refl;
        same_length = refl;
        same_type_id = refl;
        same_stream_id = refl;
        same_payload = append-nil m.payload;
        complete = refl;
        idle = refl;
      },
      refl,
    )
