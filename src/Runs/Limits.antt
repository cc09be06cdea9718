-- ===== src/Runs/Limits.antt =====
-- The pool and the ends of Read on concrete inputs.
use yoshiera_huang_livego.Prelude.{ℕ, ◌≡◌, ◌≢◌, refl, arith}
use yoshiera_huang_livego.Prelude.{none, some, List, [], ◌∷◌, ◌++◌, map, All}
use yoshiera_huang_livego.Pool.{Pool, Slice, new_pool}
use yoshiera_huang_livego.Pool.Disjoint.{get_each, size_of, IsInside, Disjoint, get_each-Disjoint}
use yoshiera_huang_livego.Rtmp.ReadWriter.{ReadWriter}
use yoshiera_huang_livego.Rtmp.ReadWriter.Integers.{feed}
use yoshiera_huang_livego.Rtmp.ChunkStream.{ChunkStream, empty}
use yoshiera_huang_livego.Rtmp.ChunkStream.Wire.{IsHeader, first_header}
use yoshiera_huang_livego.Rtmp.Conn.{
  Conn, new_conn, new_set_chunk_size, write, read, message, stuck, panicked,
}
use yoshiera_huang_livego.Rtmp.Conn.ChunkSize.{CanAgree, set_chunk_size-agrees}
use yoshiera_huang_livego.Rtmp.ReadWriter.Emit.{emit}
use yoshiera_huang_livego.Rtmp.Conn.Termination.{read_ends}
use yoshiera_huang_livego.Rtmp.Conn.TooLong.{read-too_long}

abbrev sizes : List ℕ
sizes = 300000 ∷ 200000 ∷ 100000 ∷ 0 ∷ []

get_each-Disjoint_example :
    (l : List Slice) × (pool : Pool) × (get_each sizes new_pool ≡ some (l, pool))
    × (map size_of l ≡ sizes)
    × All IsInside l
    × Disjoint l
get_each-Disjoint_example =
    get_each-Disjoint sizes (omega arith, (omega arith, (omega arith, (omega arith, tt))))

abbrev arriving : ReadWriter
arriving = record {
  input = 0x03 ∷ 0 ∷ 0 ∷ 1 ∷ [];
  output = [];
  room = 1000;
  read_error = none;
  write_error = none;
}

read_ends_example : read (new_conn arriving) ≢ stuck
read_ends_example = read_ends (new_conn arriving)

abbrev huge : ChunkStream
huge = record empty { csid = 6; length = 600000; type_id = 9; stream_id = 1 }

huge-IsHeader : IsHeader huge
huge-IsHeader = record {
  csid_low = omega arith;
  csid_high = omega arith;
  timestamp_fits = omega arith;
  length_fits = omega arith;
  type_id_fits = omega arith;
  stream_id_fits = omega arith;
}

read-too_long_example :
    read (record (new_conn arriving) { rw = feed (first_header huge ++ (7 ∷ [])) arriving })
    ≡ panicked
read-too_long_example =
    read-too_long huge (new_conn arriving) arriving (7 ∷ []) huge-IsHeader (omega arith)
      (unfold new_conn in refl)

abbrev sender : Conn
sender = new_conn (record arriving { input = [] })

sender-CanAgree : CanAgree 4096 sender (new_conn arriving)
unfolding new_conn
sender-CanAgree = record {
  low = omega arith;
  high = omega arith;
  ready = refl;
  room = omega arith;
  remote_low = omega arith;
  idle = refl;
  window = omega arith;
}

set_chunk_size-agrees_example :
    (m sent cs : ChunkStream) × (bs : List ℕ) × (a' b' : Conn) × (new_set_chunk_size 4096 ≡ some m)
    × (write m sender ≡ some (none, sent, a'))
    × (a'.rw ≡ emit bs sender.rw)
    × (read (record (new_conn arriving) { rw = feed (bs ++ (7 ∷ [])) arriving }) ≡ message cs b')
    × (a'.chunk_size ≡ 4096)
    × (b'.remote_chunk_size ≡ 4096)
    × (b'.rw ≡ feed (7 ∷ []) arriving)
set_chunk_size-agrees_example =
    set_chunk_size-agrees 4096 sender (new_conn arriving) arriving (7 ∷ []) sender-CanAgree
