-- ===== src/Rtmp/Session/Steady.antt =====
-- Writing messages leaves the input of a connection as it is.
use yoshiera_huang_livego.Prelude.{
  ℕ, ◌≡◌, inl, inr, Option, none, some, Option-cases, ◌>>=◌, List, ◌==◌, if◌then◌else◌,
}
use yoshiera_huang_livego.Rtmp.ReadWriter.{Error}
use yoshiera_huang_livego.Rtmp.ChunkStream.{ChunkStream, Written, be32}
use yoshiera_huang_livego.Rtmp.ChunkStream.Steady
use yoshiera_huang_livego.Rtmp.ChunkStream.Steady.{write_chunk-Ends}
use yoshiera_huang_livego.Rtmp.Conn.{
  Conn, write, id_set_chunk_size, user_control_msg, put_one, set_event,
}

abbrev pub Ends : List ℕ → Option (Option Error × ChunkStream × Conn) → Type 0
Ends i none = Unit
Ends i (some (e, c, conn)) = conn.rw.input ≡ i

abbrev pub EndsConn : List ℕ → Option Conn → Type 0
EndsConn i none = Unit
EndsConn i (some conn) = conn.rw.input ≡ i

with_size-Ends :
    (conn : Conn) (size : ℕ) (r : Written)
    → Steady.Ends conn.rw.input r
    → Ends conn.rw.input
        (do (err, c, w) ← r; some (err, c, record conn { chunk_size = size; rw = w }))
with_size-Ends conn size none h = tt
with_size-Ends conn size (some (e, c, w)) h = h

pub write-Ends : (c : ChunkStream) (conn : Conn) → Ends conn.rw.input (write c conn)
unfolding write
write-Ends c conn =
    elim (Option-cases
      (if c.type_id == id_set_chunk_size then be32 c.payload else some conn.chunk_size)) [
        | inl e ↦ rw (write, e) tt
        | inr (size, e) ↦
            rw (write, e) (with_size-Ends conn size _ (write_chunk-Ends c conn.rw size))
      ]

written_conn-Ends :
    (i : List ℕ) (r : Option (Option Error × ChunkStream × Conn))
    → Ends i r
    → EndsConn i (do (_, _, conn) ← r; some conn)
written_conn-Ends i none h = tt
written_conn-Ends i (some (e, c, conn)) h = h

pub set_event-Ends : (event : ℕ) (conn : Conn) → EndsConn conn.rw.input (set_event event conn)
unfolding set_event
set_event-Ends event conn = elim (Option-cases (user_control_msg event 4)) [
  | inl e ↦ rw (set_event, e) tt
  | inr (ret, e) ↦ elim (Option-cases (put_one 4 ret.payload)) [
    | inl k ↦ rw (set_event, e, k) tt
    | inr (payload, k) ↦
        rw (set_event, e, k)
          (written_conn-Ends conn.rw.input _ (write-Ends (record ret { payload = payload }) conn))
  ]
]
