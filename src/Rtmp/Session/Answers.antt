-- ===== src/Rtmp/Session/Answers.antt =====
-- What the server answers to createStream, as a peer reads it.
use yoshiera_huang_livego.Prelude.{List, [], ◌∷◌}
use yoshiera_huang_livego.Prelude.Text.{ascii}
use yoshiera_huang_livego.Amf.Value.{Value, number, text, null}
use yoshiera_huang_livego.Amf.Batch.RoundTrip.{batch_bytes}
use yoshiera_huang_livego.Rtmp.ReadWriter.{ReadWriter}
use yoshiera_huang_livego.Rtmp.ChunkStream.{ChunkStream}
use yoshiera_huang_livego.Rtmp.Conn.{Conn}
use yoshiera_huang_livego.Rtmp.Session.Server.{Server, Outside, command_message}

-- The values of the answer.
abbrev pub stream_answer : Outside → Server → List Value
stream_answer o s =
    text (ascii "_result")
    ∷ number (o.of_int s.transaction_id)
    ∷ null
    ∷ number (o.of_int s.stream_id)
    ∷ []

-- The message of the answer.
abbrev pub answer_message : Outside → ChunkStream → Server → ChunkStream
answer_message o cur s = command_message cur.csid cur.stream_id (batch_bytes (stream_answer o s))
