-- ===== src/Rtmp/Session/Crash.antt =====
-- A command message without a command ends the process.
use yoshiera_huang_livego.Prelude.{
  ℕ, suc, ◌+◌, ◌≡◌, refl, ap, ◌∙◌, arith, true, List, [], ◌∷◌, length, ◌⊎◌, inl, inr,
}
use yoshiera_huang_livego.Amf.Value.{eof}
use yoshiera_huang_livego.Amf3.Item.{Refs}
use yoshiera_huang_livego.Amf.Version3.{plain}
use yoshiera_huang_livego.Amf.Decoder.{
  decode_amf0, decode, decode_marked, decode_boolean, read_byte, assert_marker,
}
use yoshiera_huang_livego.Amf.Batch.{
  ended, decode_batch, batch_rounds, decode_version, version_fails_at_end, fails_at_end,
}
use yoshiera_huang_livego.Rtmp.ChunkStream.{ChunkStream}
use yoshiera_huang_livego.Rtmp.Conn.{Conn, read, ReadEnd}
use yoshiera_huang_livego.Rtmp.Session.Server.{Server, Outside, crashed}
use yoshiera_huang_livego.Rtmp.Session.Commands.{handle_cmd_msg, read_msg_rounds, read_msg}

-- Data that holds no value, and fails with io.EOF itself: none, or the marker of a boolean alone.
no_values :
    (o : Outside) (refs : Refs) (d : List ℕ)
    → (d ≡ []) ⊎ (d ≡ 0x01 ∷ [])
    → decode_batch (plain o.floats) 0 refs d ≡ ended [] true eof refs
unfolding decode_batch batch_rounds decode_version version_fails_at_end fails_at_end decode_amf0
    decode decode_marked decode_boolean read_byte assert_marker
no_values o refs d (inl e) = ap (decode_batch (plain o.floats) 0 refs) e ∙ refl
no_values o refs d (inr e) = ap (decode_batch (plain o.floats) 0 refs) e ∙ refl

-- ReadMsg panics on a command message that is empty, or that is the marker of a boolean alone.
pub read_msg-no_command :
    (o : Outside) (s : Server) (c : ChunkStream) (conn : Conn)
    → read s.conn ≡ ReadEnd.message c conn
    → c.type_id ≡ 20
    → (c.payload ≡ []) ⊎ (c.payload ≡ 0x01 ∷ [])
    → read_msg o s ≡ crashed
unfolding read_msg read_msg_rounds handle_cmd_msg
read_msg-no_command o s c conn h command d =
    let one : length s.conn.rw.input + 1 ≡ suc (length s.conn.rw.input) = omega arith in
    ap (λ (n : ℕ). read_msg_rounds o n s) one
    ∙ (rw (h, command, no_values o s.caches c.payload d) refl)
