-- ===== src/Rtmp/Conn.antt =====
-- protocol/rtmp/core/conn.go: a connection, its chunk streams by id and its control messages.
pub mod Receive
pub mod Delivery
pub mod Control
pub mod Termination
pub mod TooLong
pub mod ChunkSize
use yoshiera_huang_livego.Prelude.{ℕ, zero, suc, ◌+◌, ◌-◌, ◌*◌, ◌/◌, ◌%◌, ◌^◌, bit_and}
use yoshiera_huang_livego.Prelude.{Option, none, some, ◌>>=◌, true, false, List, length, replicate}
use yoshiera_huang_livego.Prelude.{ltb, leb, ◌==◌, if◌then◌else◌}
use yoshiera_huang_livego.Pio.{put_u32be, store, byte}
use yoshiera_huang_livego.Pool.{Pool, new_pool}
use yoshiera_huang_livego.Rtmp.ReadWriter.{Error, ReadWriter}
use yoshiera_huang_livego.Rtmp.ChunkStream.{
  ChunkStream, empty, full, add32, get_be, Written, write_chunk, Reading, read_chunk, be32,
}

-- The ids of the control messages.
abbrev pub id_set_chunk_size : ℕ
id_set_chunk_size = 1

abbrev pub id_abort_messages : ℕ
id_abort_messages = 2

abbrev pub id_ack : ℕ
id_ack = 3

abbrev pub id_user_control_messages : ℕ
id_user_control_messages = 4

abbrev pub id_window_ack_size : ℕ
id_window_ack_size = 5

abbrev pub id_set_peer_bandwidth : ℕ
id_set_peer_bandwidth = 6

-- `chunks` is the map by the six bits of the basic header. `net.Conn` is behind `rw`.
pub record Conn : Type 0 where
  pub chunk_size : ℕ
  pub remote_chunk_size : ℕ
  pub window_ack_size : ℕ
  pub remote_window_ack_size : ℕ
  pub received : ℕ
  pub ack_received : ℕ
  pub rw : ReadWriter
  pub pool : Pool
  pub chunks : ℕ → Option ChunkStream

-- NewConn
unfoldable pub new_conn : ReadWriter → Conn
new_conn rw = record {
  chunk_size = 128;
  remote_chunk_size = 128;
  window_ack_size = 2500000;
  remote_window_ack_size = 2500000;
  received = 0;
  ack_received = 0;
  rw = rw;
  pool = new_pool;
  chunks = λ _. none;
}

-- `conn.chunks[k] = v`
unfoldable pub put : (ℕ → Option ChunkStream) → ℕ → ChunkStream → ℕ → Option ChunkStream
put m k v j = if j == k then some v else m j

-- `cs, ok := conn.chunks[csid]` with the zero value where there is none
abbrev pub or_empty : Option ChunkStream → ChunkStream
or_empty none = empty
or_empty (some cs) = cs

-- The map once a missing entry was made.
unfoldable pub with_entry :
    (ℕ → Option ChunkStream) → ℕ → Option ChunkStream → ℕ → Option ChunkStream
with_entry m k none = put m k empty
with_entry m k (some _) = m

-- The end of one round of Read's loop: an error, or the chunk stream that was read.
abbrev pub Step : Type 0
Step = Option (Option Error × ChunkStream × Conn)

unfoldable pub store_chunk : Conn → ℕ → Option Error × Reading → Option Error × ChunkStream × Conn
store_chunk conn key (some e, st) = (some e, st.cs, record conn { rw = st.r; pool = st.pool })
store_chunk conn key (none, st) =
    (none, st.cs, record conn { rw = st.r; pool = st.pool; chunks = put conn.chunks key st.cs })

-- One round of the loop of Read. A missing entry is made before the chunk is read.
unfoldable pub read_step : Conn → Step
read_step conn =
    let (h, rw) = get_be 1 conn.rw in
    let format = h / 2 ^ 6 in
    let csid = bit_and h 0x3f in
    let cs = or_empty (conn.chunks csid) in
    let conn = record conn { rw = rw; chunks = with_entry conn.chunks csid (conn.chunks csid) } in
    do
      result ←
          read_chunk (record cs { tmp_format = format; csid = csid }) rw conn.remote_chunk_size
            conn.pool
      some (store_chunk conn csid result)

-- initControlMsg. PutU32BE panics on fewer than four bytes.
unfoldable pub init_control_msg : ℕ → ℕ → ℕ → Option ChunkStream
init_control_msg id size value = do
  payload ← put_u32be (replicate size 0) value
  some (record empty {
    format = 0;
    csid = 2;
    type_id = id;
    stream_id = 0;
    length = size;
    payload = payload;
  })

-- NewAck, NewSetChunkSize and NewWindowAckSize
unfoldable pub new_ack : ℕ → Option ChunkStream
new_ack size = init_control_msg id_ack 4 size

unfoldable pub new_set_chunk_size : ℕ → Option ChunkStream
new_set_chunk_size size = init_control_msg id_set_chunk_size 4 size

unfoldable pub new_window_ack_size : ℕ → Option ChunkStream
new_window_ack_size size = init_control_msg id_window_ack_size 4 size

-- NewSetPeerBandwidth: `ret.Data[4] = 2`
unfoldable pub new_set_peer_bandwidth : ℕ → Option ChunkStream
new_set_peer_bandwidth size = do
  ret ← init_control_msg id_set_peer_bandwidth 5 size
  payload ← store ret.payload 4 2
  some (record ret { payload = payload })

-- handleControlMsg
unfoldable pub handle_control_msg : ChunkStream → Conn → Option Conn
handle_control_msg c conn =
    if c.type_id == id_set_chunk_size
    then (do size ← be32 c.payload; some (record conn { remote_chunk_size = size }))
    else if c.type_id == id_window_ack_size
    then (do size ← be32 c.payload; some (record conn { remote_window_ack_size = size }))
    else some conn

-- The acknowledgement that `ack` writes, whose error is dropped.
unfoldable pub send_ack : Conn → Option Conn
send_ack conn = do
  cs ← new_ack conn.ack_received
  (_, _, rw) ← write_chunk cs conn.rw conn.chunk_size
  some (record conn { rw = rw; ack_received = 0 })

-- ack
unfoldable pub ack : ℕ → Conn → Option Conn
ack size conn =
    let received = add32 conn.received size in
    let conn = record conn {
      received = if leb 0xf0000000 received then 0 else received;
      ack_received = add32 conn.ack_received size;
    } in
    if leb conn.remote_window_ack_size conn.ack_received then send_ack conn else some conn

-- How Read ends. `stuck` is no end of the program: the fuel was used up.
pub data ReadEnd : Type 0 where
  message : ChunkStream → Conn → ReadEnd
  failed : Error → Conn → ReadEnd
  panicked stuck : ReadEnd

-- What follows the loop.
unfoldable pub finish : ChunkStream → Conn → ReadEnd
finish c conn = elim (do conn ← handle_control_msg c conn; ack c.length conn) [
  | none ↦ panicked
  | some conn ↦ message c conn
]

-- What the loop does after a round: `next` is the rounds that follow.
unfoldable pub after_step : (Conn → ReadEnd) → Step → ReadEnd
after_step next none = panicked
after_step next (some (some e, _, conn)) = failed e conn
after_step next (some (none, cs, conn)) = elim (full cs) [
  | true ↦ finish cs conn
  | false ↦ next conn
]

-- The loop of Read, with fuel for its rounds.
unfoldable pub read_loop : ℕ → Conn → ReadEnd
read_loop zero conn = stuck
read_loop (suc fuel) conn = after_step (read_loop fuel) (read_step conn)

-- Read: each round takes a byte of the input or fails, so one more round than bytes is enough.
unfoldable pub read : Conn → ReadEnd
read conn = read_loop (length conn.rw.input + 1) conn

-- Write
unfoldable pub write : ChunkStream → Conn → Option (Option Error × ChunkStream × Conn)
write c conn = do
  size ← if c.type_id == id_set_chunk_size then be32 c.payload else some conn.chunk_size
  (err, c, rw) ← write_chunk c conn.rw size
  some (err, c, record conn { chunk_size = size; rw = rw })

-- The events of the user control messages.
abbrev pub stream_begin : ℕ
stream_begin = 0

abbrev pub stream_is_recorded : ℕ
stream_is_recorded = 4

-- userControlMsg: `& 0xff` of a uint32 and then `byte`.
unfoldable pub user_control_msg : ℕ → ℕ → Option ChunkStream
user_control_msg event_type buflen = do
  let buflen = add32 buflen 2
  payload ← store (replicate buflen 0) 0 (byte (bit_and (event_type / 2 ^ 8) 0xff))
  payload ← store payload 1 (byte (bit_and event_type 0xff))
  some (record empty {
    format = 0;
    csid = 2;
    type_id = 4;
    stream_id = 1;
    length = buflen;
    payload = payload;
  })

-- The loop of SetBegin and SetRecorded: the big-endian 1 from index 2 on, `left` bytes to go.
unfoldable pub put_one : ℕ → List ℕ → Option (List ℕ)
put_one zero b = some b
put_one (suc left) b = do
  b' ← store b (5 - left) (byte (bit_and (1 / 2 ^ (left * 8)) 0xff))
  put_one left b'

unfoldable pub set_event : ℕ → Conn → Option Conn
set_event event conn = do
  ret ← user_control_msg event 4
  payload ← put_one 4 ret.payload
  (_, _, conn) ← write (record ret { payload = payload }) conn
  some conn

-- SetBegin and SetRecorded
unfoldable pub set_begin : Conn → Option Conn
set_begin conn = set_event stream_begin conn

unfoldable pub set_recorded : Conn → Option Conn
set_recorded conn = set_event stream_is_recorded conn
