-- ===== src/Runs/Sessions.antt =====
-- The handshake and a session on concrete inputs.
use yoshiera_huang_livego.Prelude.{
  ℕ, ◌*◌, ◌/◌, All, ◌≤◌, ◌≡◌, ◌≢◌, inr, refl, arith, true, none, some, Option, List, [], ◌∷◌, ◌++◌,
  length, ◌==◌, replicate, length-replicate, if◌then◌else◌,
}
use yoshiera_huang_livego.Prelude.Text.{ascii}
use yoshiera_huang_livego.Amf.Value.{number, Value, null, text, eof}
use yoshiera_huang_livego.Amf.Version3.{plain}
use yoshiera_huang_livego.Amf3.Item.{Floats, new_decoder}
use yoshiera_huang_livego.Amf.Decoder.{
  decode_amf0, decode, read_byte, decode_marked, decode_string, assert_marker, decode_sized,
  read_be, read_full, read_bytes,
}
use yoshiera_huang_livego.Amf.Batch.{
  encode_batch, ended, unfinished, decode_batch, decode_batch_ends,
}
use yoshiera_huang_livego.Amf.Format.{IsEncodable}
use yoshiera_huang_livego.Amf.Maps.{IsMap}
use yoshiera_huang_livego.Amf.Batch.RoundTrip.{IsPlain, with_values, decode_batch-encode_batch}
use yoshiera_huang_livego.Amf.Termination.{no_handlers}
use yoshiera_huang_livego.Rtmp.ReadWriter.{Error, ReadWriter}
use yoshiera_huang_livego.Rtmp.ReadWriter.Emit.{emit}
use yoshiera_huang_livego.Rtmp.ReadWriter.Integers.{feed}
use yoshiera_huang_livego.Rtmp.ChunkStream.{ChunkStream, empty, media_csid}
use yoshiera_huang_livego.Rtmp.Conn.{Conn, new_conn}
use yoshiera_huang_livego.Rtmp.ChunkStream.Wire.{IsHeader}
use yoshiera_huang_livego.Rtmp.ChunkStream.Writing.{next_chunks, chunks_of}
use yoshiera_huang_livego.Rtmp.Conn.Delivery.{CanDeliver, read-write_chunk}
use yoshiera_huang_livego.Rtmp.Handshake.{
  hs_create01, hs_parse1, handshake_client, handshake_server, client_partial_key, server_full_key,
}
use yoshiera_huang_livego.Rtmp.Handshake.Digest.{hs_parse1-hs_create01}
use yoshiera_huang_livego.Rtmp.Handshake.Exchange.{
  zeros, first_packet, answer_packets, handshakes_meet,
}
use yoshiera_huang_livego.Rtmp.Handshake.Safety.{handshake_server-Safe}
use yoshiera_huang_livego.Rtmp.Session.Server.{
  Server, Outside, crashed, out_of_fuel, new_conn_server,
}
use yoshiera_huang_livego.Rtmp.Session.Commands.{handle_cmd_msg, read_msg}
use yoshiera_huang_livego.Rtmp.Session.Phases.{Moves, phase, asked_phase, handle_cmd_msg-Moves}
use yoshiera_huang_livego.Rtmp.Session.Termination.{read_msg_ends}
use yoshiera_huang_livego.Rtmp.Session.Crash.{read_msg-no_command}

abbrev short_hmac : List ℕ → List ℕ → List ℕ
short_hmac k s = replicate 32 7

short_hmac_size : (k s : List ℕ) → length (short_hmac k s) ≡ 32
short_hmac_size k s = refl

abbrev keep : ReadWriter → Option Error × ReadWriter
keep w = (none, w)

abbrev line : ReadWriter
line = record { input = []; output = []; room = 5000; read_error = none; write_error = none }

hs_parse1-hs_create01_example :
    (c1 : List ℕ) × (digest : List ℕ) × (hs_create01 short_hmac
        (replicate 1537 0)
        5
        0x0d0e0a0d
        client_partial_key
        (replicate 1528 9)
      ≡ some (3 ∷ c1))
    × (length c1 ≡ 1536)
    × (hs_parse1 short_hmac c1 client_partial_key server_full_key ≡ some (some digest))
hs_parse1-hs_create01_example =
    hs_parse1-hs_create01 short_hmac 5 0x0d0e0a0d client_partial_key server_full_key
      (replicate 1528 9) (replicate 1537 0) short_hmac_size (length-replicate {A = ℕ} 1537 0)

-- The bytes of the peer arrive with Flush.
abbrev arriving_with_flush : List ℕ → ReadWriter → Option Error × ReadWriter
arriving_with_flush i w = (none, feed (w.input ++ i) w)

handshakes_meet_example :
    (handshake_client (arriving_with_flush (answer_packets ++ (1 ∷ []))) (feed [] line)
      ≡ some (none, feed (1 ∷ []) (emit (first_packet ++ zeros) line)))
    × (handshake_server short_hmac
          (arriving_with_flush (zeros ++ (2 ∷ [])))
          []
          []
          (feed first_packet line)
        ≡ some (none, feed (2 ∷ []) (emit answer_packets line)))
handshakes_meet_example =
    handshakes_meet short_hmac (arriving_with_flush (answer_packets ++ (1 ∷ [])))
      (arriving_with_flush (zeros ++ (2 ∷ []))) [] [] (1 ∷ []) (2 ∷ []) line line refl refl refl
      (omega arith) refl (omega arith)

handshake_server-Safe_example : handshake_server short_hmac keep [] [] (feed (3 ∷ []) line) ≢ none
handshake_server-Safe_example =
    handshake_server-Safe short_hmac short_hmac_size keep [] [] (feed (3 ∷ []) line)

-- Floats in which a number is its own bit pattern.
abbrev floats : Floats
floats = record {
  of_signed = λ n. n;
  of_unsigned = λ n. n;
  seconds = λ x. x / 1000;
  millis = λ n. n * 1000;
}

abbrev outside : Outside
outside = record {
  floats = floats;
  to_int = λ x. if x == 0x3ff0000000000000 then 1 else 0;
  of_int = λ n. n;
  walk = λ ms. ms;
  flush = keep;
}

-- Version 3 behind the marker 0x11: an array whose header is a reference to an object that is not there.
decode_batch_ends_example :
    decode_batch (plain floats) 0 new_decoder (0x11 ∷ 9 ∷ 2 ∷ []) ≢ unfinished
decode_batch_ends_example =
    decode_batch_ends (plain floats) (no_handlers floats) new_decoder (0x11 ∷ 9 ∷ 2 ∷ [])

abbrev session : Server
session = new_conn_server (new_conn line)

read_msg_ends_example : read_msg outside session ≢ out_of_fuel
read_msg_ends_example = read_msg_ends outside (λ w. refl) session

-- The command "play".
abbrev play_bytes : List ℕ
play_bytes = 0x02 ∷ 0 ∷ 4 ∷ ascii "play"

abbrev play_message : ChunkStream
play_message = record empty { type_id = 20; length = 7; payload = play_bytes }

play_decodes :
    decode_batch (plain floats) 0 new_decoder play_bytes
    ≡ ended (text (ascii "play") ∷ []) true eof new_decoder
unfolding decode_batch decode_amf0 decode read_byte decode_marked decode_string assert_marker
    decode_sized read_be read_full read_bytes
play_decodes = refl

handle_cmd_msg-Moves_example :
    Moves
      (phase session)
      (asked_phase (ascii "play") (phase session))
      (handle_cmd_msg outside play_message session)
unfolding new_conn_server
handle_cmd_msg-Moves_example =
    handle_cmd_msg-Moves outside play_message session play_bytes (ascii "play") [] eof new_decoder
      refl play_decodes

-- One message of type 20 whose only byte is 1.
abbrev no_command : ChunkStream
no_command = record empty { csid = 3; length = 1; type_id = 20; payload = 1 ∷ [] }

no_command-IsHeader : IsHeader (media_csid no_command)
unfolding media_csid
no_command-IsHeader = record {
  csid_low = omega arith;
  csid_high = omega arith;
  timestamp_fits = omega arith;
  length_fits = omega arith;
  type_id_fits = omega arith;
  stream_id_fits = omega arith;
}

no_command_chunks-fit : length (chunks_of (media_csid no_command) 128) ≤ 5000
unfolding chunks_of next_chunks media_csid
no_command_chunks-fit = omega arith

no_command-CanDeliver : CanDeliver no_command line (new_conn line)
unfolding new_conn
no_command-CanDeliver = record {
  header = no_command-IsHeader;
  whole = refl;
  not_empty = omega arith;
  served = omega arith;
  size_pos = omega arith;
  size_fits = omega arith;
  ready = refl;
  room = no_command_chunks-fit;
  idle = refl;
}

read_msg-no_command_example :
    (bs : List ℕ) × (read_msg outside
        (new_conn_server (record (new_conn line) { rw = feed (bs ++ []) line }))
      ≡ crashed)
unfolding new_conn new_conn_server media_csid
read_msg-no_command_example =
    let (bs, sent, cs, conn, w, r, same, left) =
      read-write_chunk no_command line (new_conn line) line [] no_command-CanDeliver (omega arith)
        (omega arith) (omega arith) in
    (
      bs,
      read_msg-no_command outside
          (new_conn_server (record (new_conn line) { rw = feed (bs ++ []) line })) cs conn r
          same.same_type_id (inr same.same_payload),
    )

abbrev named : List Value
named = text (ascii "play") ∷ number 5 ∷ null ∷ []

named-All : All IsPlain named
unfolding IsEncodable IsMap
named-All = ((omega arith, tt), ((omega arith, tt), ((tt, tt), tt)))

decode_batch-encode_batch_example :
    (bs : List ℕ) × (encode_batch (λ v w. ((0, none), w)) 0 named (9 ∷ []) ≡ (none, (9 ∷ []) ++ bs))
    × (decode_batch (plain floats) 0 new_decoder (bs ++ (5 ∷ []))
        ≡ with_values named (decode_batch (plain floats) 0 new_decoder (5 ∷ [])))
decode_batch-encode_batch_example =
    decode_batch-encode_batch (plain floats) new_decoder (λ v w. ((0, none), w)) named (9 ∷ [])
      (5 ∷ []) (no_handlers floats) named-All (omega arith)

-- The command "createStream" on chunk stream 3.
abbrev asked : ChunkStream
asked = record empty { csid = 3; type_id = 20 }
