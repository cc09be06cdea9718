-- ===== src/Runs/Transport.antt =====
-- A video message of five bytes in chunks of two, between two connections.
use yoshiera_huang_livego.Prelude.{ℕ, ◌≤◌, ◌≡◌, refl, arith}
use yoshiera_huang_livego.Prelude.{none, some, List, [], ◌∷◌, ◌++◌, length}
use yoshiera_huang_livego.Rtmp.ReadWriter.{ReadWriter}
use yoshiera_huang_livego.Rtmp.ReadWriter.Emit.{emit}
use yoshiera_huang_livego.Rtmp.ReadWriter.Integers.{feed}
use yoshiera_huang_livego.Rtmp.ChunkStream.{ChunkStream, empty, media_csid, write_chunk}
use yoshiera_huang_livego.Rtmp.ChunkStream.Wire.{IsHeader}
use yoshiera_huang_livego.Rtmp.ChunkStream.Writing.{next_chunks, chunks_of}
use yoshiera_huang_livego.Rtmp.Conn.{Conn, new_conn, read, message}
use yoshiera_huang_livego.Rtmp.Conn.Delivery.{IsReceived, CanDeliver, read-write_chunk}

abbrev link : ReadWriter
link = record { input = []; output = []; room = 1000; read_error = none; write_error = none }

abbrev video : ChunkStream
video = record empty {
  timestamp = 0x1000000;
  length = 5;
  type_id = 9;
  stream_id = 1;
  payload = 10 ∷ 20 ∷ 30 ∷ 40 ∷ 50 ∷ [];
}

abbrev peer : Conn
peer = record (new_conn link) { remote_chunk_size = 2 }

video-IsHeader : IsHeader (media_csid video)
unfolding media_csid
video-IsHeader = record {
  csid_low = omega arith;
  csid_high = omega arith;
  timestamp_fits = omega arith;
  length_fits = omega arith;
  type_id_fits = omega arith;
  stream_id_fits = omega arith;
}

video_chunks-fit : length (chunks_of (media_csid video) 2) ≤ 1000
unfolding chunks_of next_chunks media_csid
video_chunks-fit = omega arith

video-CanDeliver : CanDeliver video link peer
unfolding new_conn
video-CanDeliver = record {
  header = video-IsHeader;
  whole = refl;
  not_empty = omega arith;
  served = omega arith;
  size_pos = omega arith;
  size_fits = omega arith;
  ready = refl;
  room = video_chunks-fit;
  idle = refl;
}

read-write_chunk_example :
    (bs : List ℕ) × (sent cs : ChunkStream) × (conn' : Conn) × (write_chunk video link 2
      ≡ some (none, sent, emit bs link))
    × (read (record peer { rw = feed (bs ++ (1 ∷ 2 ∷ [])) link }) ≡ message cs conn')
    × IsReceived (media_csid video) cs
    × (conn'.rw ≡ feed (1 ∷ 2 ∷ []) link)
unfolding new_conn
read-write_chunk_example =
    read-write_chunk video link peer link (1 ∷ 2 ∷ []) video-CanDeliver (omega arith) (omega arith)
      (omega arith)
