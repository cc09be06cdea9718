-- ===== src/Rtmp/Session/Server.antt =====
-- protocol/rtmp/core/conn_server.go: the state of a session and what its commands are made of. The buffer that
-- writeMsg fills is reset first, so it is no state.
use Prim.Native.String.{String}
use yoshiera_huang_livego.Amf3.Item.{Refs, Floats, new_decoder}
use yoshiera_huang_livego.Prelude.{
  ℕ, suc, ◌%◌, ◌^◌, Bool, false, Option, none, some, List, [], ◌∷◌, length, if◌then◌else◌,
}
use yoshiera_huang_livego.Prelude.Text.{ascii}
use yoshiera_huang_livego.Amf.Value.{
  Value, number, text, Members, no_members, member, same_bytes, AmfError,
}
use yoshiera_huang_livego.Amf.Encoder.{encode}
use yoshiera_huang_livego.Amf.Batch.{after_encoded}
use yoshiera_huang_livego.Rtmp.ReadWriter.{Error, ReadWriter}
use yoshiera_huang_livego.Rtmp.ChunkStream.{ChunkStream, empty}
use yoshiera_huang_livego.Rtmp.Conn.{Conn, write}

-- ConnServer, with the fields of ConnectInfo and PublishInfo that it sets. Of its decoder, which has no handlers,
-- it keeps the caches.
pub record Server : Type 0 where
  pub app : List ℕ
  pub flash_ver : List ℕ
  pub tc_url : List ℕ
  pub object_encoding : ℕ
  pub publish_name : List ℕ
  pub publish_type : List ℕ
  pub done : Bool
  pub stream_id : ℕ
  pub is_publisher : Bool
  pub conn : Conn
  pub transaction_id : ℕ
  pub caches : Refs

-- What is not of this program: the operations on float64 that DecodeAmf3 needs, the conversions
-- `int(x)` and `float64(n)`, the order in which a map is walked, and Flush, which calls the
-- socket.
pub record Outside : Type 0 where
  pub floats : Floats
  pub to_int : ℕ → ℕ
  pub of_int : ℕ → ℕ
  pub walk : Members → Members
  pub flush : ReadWriter → Option Error × ReadWriter

pub data Failure : Type 0 where
  bad_request : Failure
  amf_failed : AmfError → Failure
  net_failed : Error → Failure
  bad_metadata : Failure

-- How a call ends: with nil or an error, with a panic, or not at all within the fuel.
pub data Ended : Type 0 where
  returned : Option Failure → Server → Ended
  crashed out_of_fuel : Ended

-- `if err != nil { return err }`
abbrev pub then_do : Ended → (Server → Ended) → Ended
then_do (returned none s) next = next s
then_do (returned (some e) s) next = returned (some e) s
then_do crashed next = crashed
then_do out_of_fuel next = out_of_fuel

-- NewConnServer
unfoldable pub new_conn_server : Conn → Server
new_conn_server conn = record {
  app = [];
  flash_ver = [];
  tc_url = [];
  object_encoding = 0;
  publish_name = [];
  publish_type = [];
  done = false;
  stream_id = 1;
  is_publisher = false;
  conn = conn;
  transaction_id = 0;
  caches = new_decoder;
}

-- `obimap[key]`
abbrev pub find : List ℕ → Members → Option Value
find key no_members = none
find key (member k v ms) = if same_bytes key k then some v else find key ms

-- `x.(string)` and `x.(float64)`, which panic on another type.
abbrev pub with_text : (List ℕ → Server → Server) → Option Value → Server → Ended
with_text set none s = returned none s
with_text set (some (text t)) s = returned none (set t s)
with_text set (some _) s = crashed

abbrev pub with_number : (ℕ → Server → Server) → Option Value → Server → Ended
with_number set none s = returned none s
with_number set (some (number x)) s = returned none (set x s)
with_number set (some _) s = crashed

-- A loop over the values.
unfoldable pub each_value : (ℕ → Value → Server → Ended) → ℕ → List Value → Server → Ended
each_value f k [] s = returned none s
each_value f k (v ∷ vs) s = then_do (f k v s) (each_value f (suc k) vs)

-- `conn.Write(&c)` with its error dropped
abbrev pub after_send : Server → Option (Option Error × ChunkStream × Conn) → Ended
after_send s none = crashed
after_send s (some (err, c, conn)) = returned none (record s { conn = conn })

unfoldable pub send : Option ChunkStream → Server → Ended
send none s = crashed
send (some c) s = after_send s (write c s.conn)

-- SetRecorded and SetBegin
abbrev pub with_conn : Option Conn → Server → Ended
with_conn none s = crashed
with_conn (some conn) s = returned none (record s { conn = conn })

-- The loop of writeMsg over its arguments.
unfoldable pub encode_all : List Value → List ℕ → Option AmfError × List ℕ
encode_all [] w = (none, w)
encode_all (v ∷ vs) w = after_encoded (encode_all vs) (encode v w)

-- The message of writeMsg.
abbrev pub command_message : ℕ → ℕ → List ℕ → ChunkStream
command_message csid stream_id msg = record empty {
  format = 0;
  csid = csid;
  timestamp = 0;
  type_id = 20;
  stream_id = stream_id;
  length = length msg % 2 ^ 32;
  payload = msg;
}

abbrev pub key_value : String → String → Members → Members
key_value k v ms = member (ascii k) (text (ascii v)) ms

abbrev pub status_event : String → String → Members
status_event code description =
    key_value "level" "status"
      (key_value "code" code (key_value "description" description no_members))
