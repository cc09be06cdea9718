-- ===== src/Rtmp/Conn/ChunkSize.antt =====
-- The chunk size that one side sets is the one that the other side reads with.
use yoshiera_huang_livego.Prelude.{ℕ, zero, suc, ◌^◌, ◌/◌, ◌≤◌, ◌<◌, ◌≡◌, refl, sym, ap, ◌∙◌, arith}
use yoshiera_huang_livego.Prelude.{
  none, some, List, [], ◌∷◌, ◌++◌, length, drop, take-all, append-nil,
}
use yoshiera_huang_livego.Pio.{byte, put_u32be}
use yoshiera_huang_livego.Pio.RoundTrip.{u32be-bytes}
use yoshiera_huang_livego.Pool.{max_pool_size}
use yoshiera_huang_livego.Rtmp.ReadWriter.{ReadWriter}
use yoshiera_huang_livego.Rtmp.ReadWriter.Emit.{emit}
use yoshiera_huang_livego.Rtmp.ReadWriter.Integers.{feed}
use yoshiera_huang_livego.Rtmp.ChunkStream.{ChunkStream, empty, add32, media_csid, be32}
use yoshiera_huang_livego.Rtmp.ChunkStream.Wire.{IsHeader, first_header, next_header}
use yoshiera_huang_livego.Rtmp.ChunkStream.Writing.{
  next_chunks, chunks_of, last_format, write_chunk-chunks_of,
}
use yoshiera_huang_livego.Rtmp.ChunkStream.Parsing.{pool_after}
use yoshiera_huang_livego.Rtmp.Conn.{
  Conn, or_empty, init_control_msg, new_set_chunk_size, message, handle_control_msg, ack, finish,
  read, write, id_set_chunk_size,
}
use yoshiera_huang_livego.Rtmp.Conn.Receive.{ended, base, read-chunks_of}
use yoshiera_huang_livego.Rtmp.Conn.Control.{counted}

abbrev word_bytes : ℕ → List ℕ
word_bytes n = byte (n / 2 ^ 24) ∷ byte (n / 2 ^ 16) ∷ byte (n / 2 ^ 8) ∷ byte n ∷ []

-- The message that sets the chunk size to `n`.
abbrev setting : ℕ → ChunkStream
setting n = record empty { csid = 2; type_id = 1; length = 4; payload = word_bytes n }

new_set_chunk_size_lem : (n : ℕ) → new_set_chunk_size n ≡ some (setting n)
unfolding new_set_chunk_size init_control_msg put_u32be
new_set_chunk_size_lem n = refl

be32_word : (n : ℕ) → n < 2 ^ 32 → be32 (word_bytes n) ≡ some n
unfolding be32
be32_word n h = u32be-bytes n [] h

setting_keeps : (n : ℕ) → media_csid (setting n) ≡ setting n
unfolding media_csid
setting_keeps n = refl

setting-IsHeader : (n : ℕ) → IsHeader (setting n)
setting-IsHeader n = record {
  csid_low = omega arith;
  csid_high = omega arith;
  timestamp_fits = omega arith;
  length_fits = omega arith;
  type_id_fits = omega arith;
  stream_id_fits = omega arith;
}

next_chunks-nil : (header : List ℕ) (rounds size : ℕ) → next_chunks header rounds size [] ≡ []
unfolding next_chunks
next_chunks-nil header zero size = refl
next_chunks-nil header (suc rounds) size = refl

drop-all : (n : ℕ) (xs : List ℕ) → length xs ≤ n → drop n xs ≡ []
drop-all zero [] h = refl
drop-all zero (x ∷ xs) h = absurd (omega arith)
drop-all (suc n) [] h = refl
drop-all (suc n) (x ∷ xs) h = drop-all n xs (omega arith)

-- A message that fits one chunk.
one_chunk :
    (m : ChunkStream) (size : ℕ)
    → length m.payload ≤ size
    → chunks_of m size ≡ first_header m ++ m.payload
unfolding chunks_of
one_chunk m size h =
    rw
      (
        take-all size m.payload h,
        drop-all size m.payload h,
        next_chunks-nil (next_header m) (m.length / size) size,
      )
      (ap (λ l. first_header m ++ l) (append-nil m.payload))

write-setting :
    (n : ℕ) (a : Conn)
    → 4 ≤ n
    → n < 2 ^ 32
    → a.rw.write_error ≡ none
    → 16 ≤ a.rw.room
    → write (setting n) a
      ≡ some (
        none,
        record (setting n) { format = last_format 0 (drop n (word_bytes n)) },
        record a { chunk_size = n; rw = emit (first_header (setting n) ++ word_bytes n) a.rw },
      )
unfolding write
write-setting n a low high ready room =
    let m = setting n in
    let keeps = setting_keeps n in
    let one = one_chunk m n low in
    let fits : length (chunks_of m n) ≤ a.rw.room = rw one room in
    let written =
      write_chunk-chunks_of m a.rw n (rw keeps (setting-IsHeader n)) refl (omega arith)
        (omega arith) high ready (rw keeps fits) in
    rw (be32_word n high, written)
      (λ i. some (
        none,
        record (keeps i) { format = last_format 0 (drop n (word_bytes n)) },
        record a { chunk_size = n; rw = emit ((ap (λ c. chunks_of c n) keeps ∙ one) i) a.rw },
      ))

-- What follows the loop for this message.
finish-setting :
    (n : ℕ) (cs : ChunkStream) (conn : Conn)
    → n < 2 ^ 32
    → cs.type_id ≡ id_set_chunk_size
    → cs.payload ≡ word_bytes n
    → add32 conn.ack_received cs.length < conn.remote_window_ack_size
    → finish cs conn ≡ message cs (counted cs.length (record conn { remote_chunk_size = n }))
unfolding finish handle_control_msg ack
finish-setting n cs conn high kind bytes window =
    let size : be32 cs.payload ≡ some n = rw bytes (be32_word n high) in ground arith

-- What the two sides of a new chunk size start from.
pub record CanAgree (n : ℕ) (a b : Conn) : Type 0 where
  pub low : 4 ≤ n
  pub high : n < 2 ^ 32
  pub ready : a.rw.write_error ≡ none
  pub room : 16 ≤ a.rw.room
  pub remote_low : 4 ≤ b.remote_chunk_size
  pub idle : (or_empty (b.chunks 2)).remain ≡ 0
  pub window : add32 b.ack_received 4 < b.remote_window_ack_size

-- A side that makes and writes the message for a chunk size of at least 4 then writes in chunks of
-- that size, and the side that reads what was written then reads in chunks of that size, whatever
-- size of at least 4 it read with before; it reads no byte more. The writer has room and no error,
-- the control chunk stream of the reader is idle, and the message leaves the window of the
-- acknowledgement unfilled.
pub set_chunk_size-agrees :
    (n : ℕ) (a b : Conn) (r : ReadWriter) (more : List ℕ)
    → CanAgree n a b
    → (m sent cs : ChunkStream) × (bs : List ℕ) × (a' b' : Conn) × (new_set_chunk_size n ≡ some m)
      × (write m a ≡ some (none, sent, a'))
      × (a'.rw ≡ emit bs a.rw)
      × (read (record b { rw = feed (bs ++ more) r }) ≡ message cs b')
      × (a'.chunk_size ≡ n)
      × (b'.remote_chunk_size ≡ n)
      × (b'.rw ≡ feed more r)
set_chunk_size-agrees n a b r more h =
    let m = setting n in
    let bs = first_header m ++ word_bytes n in
    let size = b.remote_chunk_size in
    let ok = setting-IsHeader n in
    let some_bytes : 0 < m.length = omega arith in
    let served : m.length ≤ max_pool_size = omega arith in
    let size_pos : 0 < size = omega (arith, h.remote_low) in
    let (t, chunks, e) = read-chunks_of m b r more ok refl some_bytes served size_pos h.idle in
    let cs = ended m (base m b r more ok refl some_bytes served size_pos h.idle) t (word_bytes n) in
    let b' = record b { rw = feed more r; pool = pool_after 4 b.pool; chunks = chunks } in
    let input =
      ap (λ l. read (record b { rw = feed (l ++ more) r })) (sym (one_chunk m size h.remote_low)) in
    let last = finish-setting n cs b' h.high refl (append-nil (word_bytes n)) h.window in
    (
      m,
      record m { format = last_format 0 (drop n (word_bytes n)) },
      cs,
      bs,
      record a { chunk_size = n; rw = emit bs a.rw },
      counted 4 (record b' { remote_chunk_size = n }),
      new_set_chunk_size_lem n,
      write-setting n a h.low h.high h.ready h.room,
      refl,
      input ∙ e ∙ last,
      refl,
      refl,
      refl,
    )
