-- ===== src/Rtmp/Conn/Control.antt =====
-- What follows the loop of Read: the control messages and the acknowledgement.
use yoshiera_huang_livego.Prelude.{ℕ, ◌<◌, ◌≡◌, ◌≢◌, arith, leb, if◌then◌else◌}
use yoshiera_huang_livego.Rtmp.ChunkStream.{ChunkStream, add32}
use yoshiera_huang_livego.Rtmp.Conn.{
  Conn, id_set_chunk_size, id_window_ack_size, handle_control_msg, ack, message, finish,
}

-- The counters after a message of `size` bytes that asks for no acknowledgement.
abbrev pub counted : ℕ → Conn → Conn
counted size conn = record conn {
  received = if leb 0xf0000000 (add32 conn.received size) then 0 else add32 conn.received size;
  ack_received = add32 conn.ack_received size;
}

pub finish-quiet :
    (cs : ChunkStream) (conn : Conn)
    → cs.type_id ≢ id_set_chunk_size
    → cs.type_id ≢ id_window_ack_size
    → add32 conn.ack_received cs.length < conn.remote_window_ack_size
    → finish cs conn ≡ message cs (counted cs.length conn)
unfolding finish handle_control_msg ack
finish-quiet cs conn h k window = ground arith
