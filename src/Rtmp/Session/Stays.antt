-- ===== src/Rtmp/Session/Stays.antt =====
-- What the calls of a session leave as it was: a property of the phase and of the connection that
-- holds of any connection with the same input.
use yoshiera_huang_livego.Prelude.{
  inl, inr, Bool-cases, ℕ, suc, ◌≡◌, Bool, true, false, Option, none, some, List, [], ◌∷◌, ◌==◌,
  if◌then◌else◌,
}
use yoshiera_huang_livego.Prelude.Text.{ascii}
use yoshiera_huang_livego.Amf.Value.{
  Value, number, boolean, text, null, object, array, typed_object, integer, opaque, Members,
  AmfError,
}
use yoshiera_huang_livego.Rtmp.ReadWriter.{Error, ReadWriter}
use yoshiera_huang_livego.Rtmp.ChunkStream.{ChunkStream}
use yoshiera_huang_livego.Rtmp.Conn.{
  Conn, write, new_window_ack_size, new_set_peer_bandwidth, new_set_chunk_size, set_recorded,
  set_begin, stream_is_recorded, stream_begin,
}
use yoshiera_huang_livego.Rtmp.Session.Steady.{Ends, EndsConn, write-Ends, set_event-Ends}
use yoshiera_huang_livego.Rtmp.Session.Server.{
  Server, Outside, Failure, Ended, returned, crashed, out_of_fuel, then_do, find, with_text,
  with_number, each_value, after_send, send, with_conn, encode_all, command_message,
}
use yoshiera_huang_livego.Rtmp.Session.Commands.{
  after_flush, flush, after_args, write_msg, connect_object, connect_value, name_stream,
  create_stream_value, publish_or_play_value, connect_resp, create_stream_resp, write_status,
  play_resp,
}

-- What stays is about the two fields of the phase and the connection only.
module _ (J : Bool → Bool → Conn → Type 0) where
  abbrev pub I : Server → Type 0
  I s = J s.done s.is_publisher s.conn

  -- Where a call returns, with nil or an error, it holds.
  unfoldable pub Stays : Ended → Type 0
  Stays (returned r s) = I s
  Stays crashed = Unit
  Stays out_of_fuel = ⊥

  pub returned-Stays : (r : Option Failure) (s : Server) → I s → Stays (returned r s)
  unfolding Stays
  returned-Stays r s h = h

  pub then-Stays :
      (e : Ended) (next : Server → Ended)
      → Stays e
      → ((s : Server) → I s → Stays (next s))
      → Stays (then_do e next)
  unfolding Stays
  then-Stays (returned none s) next h k = k s h
  then-Stays (returned (some e) s) next h k = h
  then-Stays crashed next h k = tt
  then-Stays out_of_fuel next h k = absurd h

  pub each-Stays :
      (f : ℕ → Value → Server → Ended)
      → ((k : ℕ) (v : Value) (s : Server) → I s → Stays (f k v s))
      → (k : ℕ) (vs : List Value) (s : Server) → I s
      → Stays (each_value f k vs s)
  unfolding Stays each_value
  each-Stays f each k [] s h = h
  each-Stays f each k (v ∷ vs) s h =
      then-Stays (f k v s) (each_value f (suc k) vs) (each k v s h) (each-Stays f each (suc k) vs)

  text-Stays :
      (set : List ℕ → Server → Server) (v : Option Value) (s : Server)
      → ((t : List ℕ) → I (set t s))
      → I s
      → Stays (with_text set v s)
  unfolding Stays
  text-Stays set none s k h = h
  text-Stays set (some (text t)) s k h = k t
  text-Stays set (some (number x)) s k h = tt
  text-Stays set (some (boolean b)) s k h = tt
  text-Stays set (some null) s k h = tt
  text-Stays set (some (object ms)) s k h = tt
  text-Stays set (some (array vs)) s k h = tt
  text-Stays set (some (typed_object t ms)) s k h = tt
  text-Stays set (some (integer x)) s k h = tt
  text-Stays set (some opaque) s k h = tt

  number-Stays :
      (set : ℕ → Server → Server) (v : Option Value) (s : Server)
      → ((x : ℕ) → I (set x s))
      → I s
      → Stays (with_number set v s)
  unfolding Stays
  number-Stays set none s k h = h
  number-Stays set (some (number x)) s k h = k x
  number-Stays set (some (text t)) s k h = tt
  number-Stays set (some (boolean b)) s k h = tt
  number-Stays set (some null) s k h = tt
  number-Stays set (some (object ms)) s k h = tt
  number-Stays set (some (array vs)) s k h = tt
  number-Stays set (some (typed_object t ms)) s k h = tt
  number-Stays set (some (integer x)) s k h = tt
  number-Stays set (some opaque) s k h = tt

  pub if-Stays : (b : Bool) (x y : Ended) → Stays x → Stays y → Stays (if b then x else y)
  if-Stays true x y h k = h
  if-Stays false x y h k = k

  module _ (same : (d p : Bool) (c c' : Conn) → c'.rw.input ≡ c.rw.input → J d p c → J d p c') where
    after_send-Stays :
        (s : Server) (r : Option (Option Error × ChunkStream × Conn))
        → Ends s.conn.rw.input r
        → I s
        → Stays (after_send s r)
    unfolding Stays
    after_send-Stays s none e h = tt
    after_send-Stays s (some (x, c, conn)) e h = same s.done s.is_publisher s.conn conn e h

    send-Stays : (c : Option ChunkStream) (s : Server) → I s → Stays (send c s)
    unfolding send Stays
    send-Stays none s h = tt
    send-Stays (some c) s h = after_send-Stays s (write c s.conn) (write-Ends c s.conn) h

    conn-Stays :
        (c : Option Conn) (s : Server) → EndsConn s.conn.rw.input c → I s → Stays (with_conn c s)
    unfolding Stays
    conn-Stays none s e h = tt
    conn-Stays (some conn) s e h = same s.done s.is_publisher s.conn conn e h

    module _ (o : Outside)
        (flushed : (d p : Bool) (c : Conn)
          → J d p c
          → J d p (record c { rw = (o.flush c.rw).1 })) where
      after_flush-Stays :
          (s : Server) (r : Option Error × ReadWriter)
          → I (record s { conn = record s.conn { rw = r.1 } })
          → Stays (after_flush o s r)
      unfolding Stays
      after_flush-Stays s (none, w) h = h
      after_flush-Stays s (some e, w) h = h

      flush-Stays : (s : Server) → I s → Stays (flush o s)
      unfolding flush
      flush-Stays s h =
          after_flush-Stays s (o.flush s.conn.rw) (flushed s.done s.is_publisher s.conn h)

      after_args-Stays :
          (csid stream_id : ℕ) (s : Server) (r : Option AmfError × List ℕ)
          → I s
          → Stays (after_args o csid stream_id s r)
      unfolding Stays
      after_args-Stays csid stream_id s (some e, w) h = h
      after_args-Stays csid stream_id s (none, w) h =
          let c = some (command_message csid stream_id w) in
          then-Stays (send c s) (flush o) (send-Stays c s h) flush-Stays

      msg-Stays :
          (csid stream_id : ℕ) (args : List Value) (s : Server)
          → I s
          → Stays (write_msg o csid stream_id args s)
      unfolding write_msg
      msg-Stays csid stream_id args s h = after_args-Stays csid stream_id s (encode_all args []) h

      object-Stays : (ms : Members) (s : Server) → I s → Stays (connect_object o ms s)
      unfolding connect_object
      object-Stays ms s h =
          then-Stays _ _ (text-Stays _ (find (ascii "app") ms) s (λ t. h) h) λ s h.
            then-Stays _ _ (text-Stays _ (find (ascii "flashVer") ms) s (λ t. h) h) λ s h.
              then-Stays _ _ (text-Stays _ (find (ascii "tcUrl") ms) s (λ t. h) h)
                λ s h. number-Stays _ (find (ascii "objectEncoding") ms) s (λ x. h) h

      pub connect-Stays : (k : ℕ) (v : Value) (s : Server) → I s → Stays (connect_value o k v s)
      unfolding connect_value
      connect-Stays k (number x) s h =
          if-Stays (o.to_int x == 1) _ _ (returned-Stays _ _ h) (returned-Stays _ _ h)
      connect-Stays k (object ms) s h = object-Stays ms s h
      connect-Stays k (text t) s h = returned-Stays _ _ h
      connect-Stays k (boolean b) s h = returned-Stays _ _ h
      connect-Stays k null s h = returned-Stays _ _ h
      connect-Stays k (array vs) s h = returned-Stays _ _ h
      connect-Stays k (typed_object t ms) s h = returned-Stays _ _ h
      connect-Stays k (integer x) s h = returned-Stays _ _ h
      connect-Stays k opaque s h = returned-Stays _ _ h

      pub create-Stays :
          (k : ℕ) (v : Value) (s : Server) → I s → Stays (create_stream_value o k v s)
      unfolding Stays create_stream_value
      create-Stays k (number x) s h = h
      create-Stays k (text t) s h = h
      create-Stays k (boolean b) s h = h
      create-Stays k null s h = h
      create-Stays k (object ms) s h = h
      create-Stays k (array vs) s h = h
      create-Stays k (typed_object t ms) s h = h
      create-Stays k (integer x) s h = h
      create-Stays k opaque s h = h

      name_lem : (k : ℕ) (t : List ℕ) (s : Server) → I s → I (name_stream o k t s)
      name_lem k t s h = elim (Bool-cases (k == 2)) [
        | inl e ↦ rw e h
        | inr e ↦ elim (Bool-cases (k == 3)) [ inl e' ↦ rw (e, e') h | inr e' ↦ rw (e, e') h ]
      ]

      pub publish-Stays :
          (k : ℕ) (v : Value) (s : Server) → I s → Stays (publish_or_play_value o k v s)
      unfolding Stays publish_or_play_value
      publish-Stays k (text t) s h = name_lem k t s h
      publish-Stays k (number x) s h = h
      publish-Stays k (boolean b) s h = h
      publish-Stays k null s h = h
      publish-Stays k (object ms) s h = h
      publish-Stays k (array vs) s h = h
      publish-Stays k (typed_object t ms) s h = h
      publish-Stays k (integer x) s h = h
      publish-Stays k opaque s h = h

      pub connect_resp-Stays : (c : ChunkStream) (s : Server) → I s → Stays (connect_resp o c s)
      unfolding connect_resp
      connect_resp-Stays c s h =
          then-Stays _ _ (send-Stays (new_window_ack_size 2500000) s h) λ s h.
            then-Stays _ _ (send-Stays (new_set_peer_bandwidth 2500000) s h) λ s h.
              then-Stays _ _ (send-Stays (new_set_chunk_size 1024) s h)
                λ s h. msg-Stays c.csid c.stream_id _ s h

      pub create_resp-Stays :
          (c : ChunkStream) (s : Server) → I s → Stays (create_stream_resp o c s)
      unfolding create_stream_resp
      create_resp-Stays c s h = msg-Stays c.csid c.stream_id _ s h

      pub status-Stays :
          (c : ChunkStream) (event : Members) (s : Server) → I s → Stays (write_status o c event s)
      unfolding write_status
      status-Stays c event s h = msg-Stays c.csid c.stream_id _ s h

      pub play_resp-Stays : (c : ChunkStream) (s : Server) → I s → Stays (play_resp o c s)
      unfolding play_resp set_recorded set_begin
      play_resp-Stays c s h =
          then-Stays _ _
            (conn-Stays (set_recorded s.conn) s (set_event-Ends stream_is_recorded s.conn) h)
            λ s h.
              then-Stays _ _
                (conn-Stays (set_begin s.conn) s (set_event-Ends stream_begin s.conn) h)
                λ s h. then-Stays _ _ (status-Stays c _ s h) λ s h.
                  then-Stays _ _ (status-Stays c _ s h) λ s h.
                    then-Stays _ _ (status-Stays c _ s h)
                      λ s h. then-Stays _ _ (status-Stays c _ s h) flush-Stays
