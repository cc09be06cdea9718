-- ===== src/Rtmp/Conn/TooLong.antt =====
-- A message header that announces more than a pool can hold.
use yoshiera_huang_livego.Prelude.{ℕ, suc, ◌+◌, ◌<◌, ◌≡◌, refl, ap, ◌∙◌, arith}
use yoshiera_huang_livego.Prelude.{true, none, ◌>>=◌, List, ◌++◌, length, ◌==◌}
use yoshiera_huang_livego.Pool
use yoshiera_huang_livego.Pool.{Pool, max_pool_size, carve}
use yoshiera_huang_livego.Rtmp.ReadWriter.{ReadWriter}
use yoshiera_huang_livego.Rtmp.ReadWriter.Integers.{feed}
use yoshiera_huang_livego.Rtmp.ChunkStream.{
  ChunkStream, new, with_new, read_message_header, then_body, read_chunk,
}
use yoshiera_huang_livego.Rtmp.ChunkStream.Wire.{IsHeader, first_header, header_fields}
use yoshiera_huang_livego.Rtmp.ChunkStream.Parsing.{
  get_be_lem, with_header, read_full_lem, read_csid_lem,
}
use yoshiera_huang_livego.Rtmp.Conn.{
  Conn, or_empty, read_step, panicked, after_step, read_loop, read,
}
use yoshiera_huang_livego.Rtmp.Conn.Receive.{basic_fields, read_loop_step}

with_new-too_long :
    (cs : ChunkStream) (r : ReadWriter) (pool : Pool)
    → max_pool_size < cs.length
    → with_new cs r pool ≡ none
unfolding with_new new Pool.get carve
with_new-too_long cs r pool h = ground arith

module _ (m : ChunkStream) (conn : Conn) (r : ReadWriter) (more : List ℕ) (ok : IsHeader m)
    (long : max_pool_size < m.length) (idle : (or_empty (conn.chunks m.csid)).remain ≡ 0) where
  read_chunk-too_long :
      read_chunk
        (record (or_empty (conn.chunks m.csid)) { tmp_format = 0; csid = m.csid })
        (feed (header_fields m ++ more) r)
        conn.remote_chunk_size
        conn.pool
      ≡ none
  unfolding read_chunk read_message_header
  read_chunk-too_long =
      let cs = record (or_empty (conn.chunks m.csid)) { tmp_format = 0; csid = m.csid } in
      let zero : (cs.remain == 0) ≡ true = ground arith in
      rw
        (
          zero,
          read_csid_lem cs (feed (header_fields m ++ more) r) ok.csid_low,
          read_full_lem m ok more r cs conn.pool,
        )
        (ap (λ h. h >>= then_body conn.remote_chunk_size)
          (with_new-too_long (with_header m cs) (feed more r) conn.pool long))

  read_step-too_long : read_step (record conn { rw = feed (first_header m ++ more) r }) ≡ none
  unfolding read_step
  read_step-too_long =
      let (format, csid) = basic_fields 0 m.csid m.csid ok.csid_high (omega arith) in
      let header =
        get_be_lem 1 m.csid (header_fields m ++ more) r (omega arith)
          (omega (arith, ok.csid_high)) in
      rw (header, format, csid, read_chunk-too_long) refl

  -- Read panics on the header of a message that is longer than the pool's array, whatever follows.
  pub read-too_long : read (record conn { rw = feed (first_header m ++ more) r }) ≡ panicked
  unfolding read after_step
  read-too_long =
      let n = length (first_header m ++ more) in
      let c = record conn { rw = feed (first_header m ++ more) r } in
      ap (λ k. read_loop k c) (let z : n + 1 ≡ suc n = omega arith in z)
      ∙ read_loop_step n c
      ∙ ap (after_step (read_loop n)) read_step-too_long
