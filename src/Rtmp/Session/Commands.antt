-- ===== src/Rtmp/Session/Commands.antt =====
-- protocol/rtmp/core/conn_server.go: the commands of a session and the answers of the server.
use yoshiera_huang_livego.Amf.Version3.{plain}
use yoshiera_huang_livego.Prelude.{
  ℕ, zero, suc, ◌+◌, ◌%◌, ◌^◌, true, false, ◌||◌, Option, none, some, List, [], ◌∷◌, ◌++◌, length,
  ◌==◌, if◌then◌else◌,
}
use yoshiera_huang_livego.Prelude.Text.{ascii}
use yoshiera_huang_livego.Av.{tag_script_data_amf0, tag_script_data_amf3}
use yoshiera_huang_livego.Amf.Value.{
  Value, number, boolean, text, null, object, array, typed_object, integer, opaque, Members,
  no_members, member, same_bytes, AmfError,
}
use yoshiera_huang_livego.Amf.Batch.{Batch, ended, panicked, unfinished, decode_batch}
use yoshiera_huang_livego.Amf.Metadata.{Reformed, del_flag, meta_data_reform}
use yoshiera_huang_livego.Rtmp.ReadWriter.{Error, ReadWriter}
use yoshiera_huang_livego.Rtmp.ChunkStream.{ChunkStream}
use yoshiera_huang_livego.Rtmp.Conn.{
  Conn, write, read, ReadEnd, new_window_ack_size, new_set_peer_bandwidth, new_set_chunk_size,
  set_recorded, set_begin,
}
use yoshiera_huang_livego.Rtmp.Session.Server.{
  Server, Outside, bad_request, amf_failed, net_failed, bad_metadata, Ended, returned, crashed,
  out_of_fuel, then_do, find, with_text, with_number, each_value, send, with_conn, encode_all,
  command_message, key_value, status_event,
}

-- `conn.Write(&c)` with its error
abbrev pub after_write : Server → Option (Option Error × ChunkStream × Conn) → Ended
after_write s none = crashed
after_write s (some (none, c, conn)) = returned none (record s { conn = conn })
after_write s (some (some e, c, conn)) = returned (some (net_failed e)) (record s { conn = conn })

abbrev pub without_first : List ℕ → Option (List ℕ)
without_first [] = none
without_first (b ∷ bs) = some bs

-- `c.Data[1:]` for the messages of type 17
abbrev pub command_data : ChunkStream → Option (List ℕ)
command_data c = if c.type_id == 17 then without_first c.payload else some c.payload

-- GetInfo
abbrev pub get_info : Server → List ℕ × List ℕ × List ℕ
get_info s = (s.app, s.publish_name, s.tc_url ++ (ascii "/" ++ s.publish_name))

-- The commands.
pub data Command : Type 0 where
  connect create_stream publish play other : Command

-- `switch vs[0].(string)`; the four commands without an answer do nothing, like unknown ones.
abbrev pub command_of : List ℕ → Command
command_of cmd =
    if same_bytes cmd (ascii "connect")
    then connect
    else if same_bytes cmd (ascii "createStream")
    then create_stream
    else if same_bytes cmd (ascii "publish")
    then publish
    else if same_bytes cmd (ascii "play")
    then play
    else other

module _ (o : Outside) where
  abbrev pub after_flush : Server → Option Error × ReadWriter → Ended
  after_flush s (none, w) = returned none (record s { conn = record s.conn { rw = w } })
  after_flush s (some e, w) =
      returned (some (net_failed e)) (record s { conn = record s.conn { rw = w } })

  -- Flush
  unfoldable pub flush : Server → Ended
  flush s = after_flush s (o.flush s.conn.rw)

  abbrev pub after_args : ℕ → ℕ → Server → Option AmfError × List ℕ → Ended
  after_args csid stream_id s (some e, w) = returned (some (amf_failed e)) s
  after_args csid stream_id s (none, w) =
      then_do (send (some (command_message csid stream_id w)) s) flush

  -- writeMsg
  unfoldable pub write_msg : ℕ → ℕ → List Value → Server → Ended
  write_msg csid stream_id args s = after_args csid stream_id s (encode_all args [])

  -- connect: a value of its arguments
  unfoldable pub connect_object : Members → Server → Ended
  connect_object ms s =
      then_do (with_text (λ t s. record s { app = t }) (find (ascii "app") ms) s) λ s.
        then_do (with_text (λ t s. record s { flash_ver = t }) (find (ascii "flashVer") ms) s) λ s.
          then_do (with_text (λ t s. record s { tc_url = t }) (find (ascii "tcUrl") ms) s) λ s.
            with_number (λ x s. record s { object_encoding = o.to_int x })
              (find (ascii "objectEncoding") ms) s

  unfoldable pub connect_value : ℕ → Value → Server → Ended
  connect_value k (number x) s =
      if o.to_int x == 1
      then returned none (record s { transaction_id = o.to_int x })
      else returned (some bad_request) s
  connect_value k (object ms) s = connect_object ms s
  connect_value k (text t) s = returned none s
  connect_value k (boolean b) s = returned none s
  connect_value k null s = returned none s
  connect_value k (array vs) s = returned none s
  connect_value k (typed_object t ms) s = returned none s
  connect_value k (integer x) s = returned none s
  connect_value k opaque s = returned none s

  -- createStream
  unfoldable pub create_stream_value : ℕ → Value → Server → Ended
  create_stream_value k (number x) s = returned none (record s { transaction_id = o.to_int x })
  create_stream_value k _ s = returned none s

  -- publishOrPlay
  abbrev pub name_stream : ℕ → List ℕ → Server → Server
  name_stream k t s =
      if k == 2
      then record s { publish_name = t }
      else if k == 3
      then record s { publish_type = t }
      else s

  unfoldable pub publish_or_play_value : ℕ → Value → Server → Ended
  publish_or_play_value k (text t) s = returned none (name_stream k t s)
  publish_or_play_value k (number x) s = returned none (record s { transaction_id = o.to_int x })
  publish_or_play_value k _ s = returned none s

  -- connectResp
  abbrev pub connect_event : Server → Members
  connect_event s = key_value "level" "status" (
      key_value "code" "NetConnection.Connect.Success" (
        key_value "description" "Connection succeeded."
          (member (ascii "objectEncoding") (number (o.of_int s.object_encoding)) no_members)))

  abbrev pub connect_result : Members
  connect_result =
      key_value "fmsVer" "FMS/3,0,1,123"
        (member (ascii "capabilities") (number (o.of_int 31)) no_members)

  unfoldable pub connect_resp : ChunkStream → Server → Ended
  connect_resp cur s = then_do (send (new_window_ack_size 2500000) s) λ s.
      then_do (send (new_set_peer_bandwidth 2500000) s) λ s.
        then_do (send (new_set_chunk_size 1024) s) λ s.
          write_msg cur.csid cur.stream_id
            (text (ascii "_result")
              ∷ number (o.of_int s.transaction_id)
              ∷ object (o.walk connect_result)
              ∷ object (o.walk (connect_event s))
              ∷ [])
            s

  -- createStreamResp
  unfoldable pub create_stream_resp : ChunkStream → Server → Ended
  create_stream_resp cur s =
      write_msg cur.csid cur.stream_id
        (text (ascii "_result")
          ∷ number (o.of_int s.transaction_id)
          ∷ null
          ∷ number (o.of_int s.stream_id)
          ∷ [])
        s

  -- `writeMsg(cur.CSID, cur.StreamID, "onStatus", 0, nil, event)`
  unfoldable pub write_status : ChunkStream → Members → Server → Ended
  write_status cur event s =
      write_msg cur.csid cur.stream_id
        (text (ascii "onStatus") ∷ number (o.of_int 0) ∷ null ∷ object (o.walk event) ∷ []) s

  -- publishResp and playResp
  unfoldable pub publish_resp : ChunkStream → Server → Ended
  publish_resp cur s =
      write_status cur (status_event "NetStream.Publish.Start" "Start publising.") s

  unfoldable pub play_resp : ChunkStream → Server → Ended
  play_resp cur s = then_do (with_conn (set_recorded s.conn) s) λ s.
      then_do (with_conn (set_begin s.conn) s) λ s.
        then_do
          (write_status cur (status_event "NetStream.Play.Reset" "Playing and resetting stream.") s)
          λ s.
            then_do
              (write_status cur (status_event "NetStream.Play.Start" "Started playing stream.") s)
              λ s.
                then_do
                  (write_status cur (status_event "NetStream.Data.Start" "Started playing stream.")
                    s)
                  λ s.
                    then_do
                      (write_status cur
                        (status_event "NetStream.Play.PublishNotify" "Started playing notify.") s)
                      flush

  -- A command with its arguments, vs[1:].
  unfoldable pub run_command : ChunkStream → List Value → Server → Command → Ended
  run_command c vs s connect = then_do (each_value connect_value 0 vs s) (connect_resp c)
  run_command c vs s create_stream =
      then_do (each_value create_stream_value 0 vs s) (create_stream_resp c)
  run_command c vs s publish = then_do (each_value publish_or_play_value 0 vs s) λ s.
      then_do (publish_resp c s) λ s. returned none (record s { done = true; is_publisher = true })
  run_command c vs s play = then_do (each_value publish_or_play_value 0 vs s) λ s.
      then_do (play_resp c s) λ s. returned none (record s { done = true; is_publisher = false })
  run_command c vs s other = returned none s

  -- `switch vs[0].(type)`
  abbrev pub run_values : ChunkStream → Server → List Value → Ended
  run_values c s [] = crashed
  run_values c s (text cmd ∷ vs) = run_command c vs s (command_of cmd)
  run_values c s (_ ∷ vs) = returned none s

  abbrev pub run_batch : ChunkStream → Server → Batch → Ended
  run_batch c s (ended vs true e refs) = run_values c (record s { caches = refs }) vs
  run_batch c s (ended vs false e refs) =
      returned (some (amf_failed e)) (record s { caches = refs })
  run_batch c s panicked = crashed
  run_batch c s unfinished = out_of_fuel

  -- handleCmdMsg
  abbrev pub handle_data : ChunkStream → Server → Option (List ℕ) → Ended
  handle_data c s none = crashed
  handle_data c s (some data') = run_batch c s (decode_batch (plain o.floats) 0 s.caches data')

  unfoldable pub handle_cmd_msg : ChunkStream → Server → Ended
  handle_cmd_msg c s = handle_data c s (command_data c)

  -- ReadMsg: a round for a message, `next` the rounds that follow.
  abbrev pub after_handled : (Server → Ended) → Ended → Ended
  after_handled next e = then_do e λ s. if s.done then returned none s else next s

  abbrev pub after_read : (Server → Ended) → Server → ReadEnd → Ended
  after_read next s (ReadEnd.message c conn) =
      let s = record s { conn = conn } in
      after_handled next
        (if (c.type_id == 20) || (c.type_id == 17) then handle_cmd_msg c s else returned none s)
  after_read next s (ReadEnd.failed e conn) =
      returned (some (net_failed e)) (record s { conn = conn })
  after_read next s ReadEnd.panicked = crashed
  after_read next s ReadEnd.stuck = out_of_fuel

  unfoldable pub read_msg_rounds : ℕ → Server → Ended
  read_msg_rounds zero s = out_of_fuel
  read_msg_rounds (suc fuel) s = after_read (read_msg_rounds fuel) s (read s.conn)

  -- A message takes a byte of the input at least, so one round more than there are bytes is enough.
  unfoldable pub read_msg : Server → Ended
  read_msg s = read_msg_rounds (length s.conn.rw.input + 1) s

  -- Write, of a message that is passed by value. MetaDataReform takes the string @setDataFrame off.
  abbrev pub with_data : ChunkStream → Server → Reformed → Ended
  with_data c s (Reformed.reformed bs) =
      after_write s (write (record c { payload = bs; length = length bs % 2 ^ 32 }) s.conn)
  with_data c s (Reformed.refused e) = returned (some (amf_failed e)) s
  with_data c s Reformed.no_text = returned (some bad_metadata) s
  with_data c s Reformed.panicked = crashed
  with_data c s Reformed.unfinished = out_of_fuel
  with_data c s (Reformed.invalid_flag flag) = returned (some bad_metadata) s

  unfoldable pub server_write : ChunkStream → Server → Ended
  server_write c s =
      if (c.type_id == tag_script_data_amf0) || (c.type_id == tag_script_data_amf3)
      then with_data c s (meta_data_reform o.floats c.payload del_flag)
      else after_write s (write c s.conn)
