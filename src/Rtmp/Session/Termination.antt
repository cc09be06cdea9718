-- ===== src/Rtmp/Session/Termination.antt =====
-- ReadMsg returns: each message takes a byte of the input at least.
use yoshiera_huang_livego.Amf.Termination.{no_handlers}
use yoshiera_huang_livego.Amf.Version3.{plain}
use yoshiera_huang_livego.Amf.Batch.{decode_batch_ends}
use yoshiera_huang_livego.Rtmp.Conn.Termination.{ReadsOn, read-ReadsOn}
use yoshiera_huang_livego.Prelude.{
  zero, ◌+◌, ◌<◌, ◌≢◌, arith, length, ℕ, suc, ◌≡◌, refl, ap, ◌∙◌, Bool, true, false, ◌||◌, Option,
  none, some, List, [], ◌∷◌, ◌==◌, if◌then◌else◌,
}
use yoshiera_huang_livego.Amf.Value.{
  Value, number, boolean, text, null, object, array, typed_object, integer, opaque,
}
use yoshiera_huang_livego.Amf.Batch.{Batch, ended, panicked, unfinished}
use yoshiera_huang_livego.Rtmp.ReadWriter.{ReadWriter}
use yoshiera_huang_livego.Rtmp.ChunkStream.{ChunkStream}
use yoshiera_huang_livego.Rtmp.Conn.{Conn, read, ReadEnd}
use yoshiera_huang_livego.Rtmp.Session.Stays.{
  Stays, then-Stays, returned-Stays, if-Stays, each-Stays, connect-Stays, create-Stays,
  publish-Stays, connect_resp-Stays, create_resp-Stays, status-Stays, play_resp-Stays,
}
use yoshiera_huang_livego.Rtmp.Session.Server.{
  Server, Outside, amf_failed, Ended, returned, crashed, out_of_fuel,
}
use yoshiera_huang_livego.Rtmp.Session.Commands.{
  command_data, Command, connect, create_stream, publish, play, other, command_of, publish_resp,
  run_command, run_values, run_batch, handle_data, handle_cmd_msg, after_handled, after_read,
  read_msg_rounds, read_msg,
}

abbrev Left : List ℕ → Bool → Bool → Conn → Type 0
Left i d b conn = conn.rw.input ≡ i

-- Flush leaves the input.
module _ (o : Outside) (flush_keeps : (w : ReadWriter) → (o.flush w).1.input ≡ w.input) where
  module _ (i : List ℕ) where
    same : (d b : Bool) (c c' : Conn) → c'.rw.input ≡ c.rw.input → Left i d b c → Left i d b c'
    same d b c c' e h = e ∙ h

    kept : (d b : Bool) (c : Conn) → Left i d b c → Left i d b (record c { rw = (o.flush c.rw).1 })
    kept d b c h = flush_keeps c.rw ∙ h

    run-Stays :
        (c : ChunkStream) (vs : List Value) (s : Server) (cmd : Command)
        → s.conn.rw.input ≡ i
        → Stays (Left i) (run_command o c vs s cmd)
    unfolding run_command publish_resp
    run-Stays c vs s connect h =
        then-Stays (Left i) _ _
          (each-Stays (Left i) _ (connect-Stays (Left i) same o kept) 0 vs s h)
          λ s h. connect_resp-Stays (Left i) same o kept c s h
    run-Stays c vs s create_stream h =
        then-Stays (Left i) _ _ (each-Stays (Left i) _ (create-Stays (Left i) same o kept) 0 vs s h)
          λ s h. create_resp-Stays (Left i) same o kept c s h
    run-Stays c vs s publish h =
        then-Stays (Left i) _ _
          (each-Stays (Left i) _ (publish-Stays (Left i) same o kept) 0 vs s h)
          λ s h.
            then-Stays (Left i) _ _ (status-Stays (Left i) same o kept c _ s h)
              λ s h. returned-Stays (Left i) none _ h
    run-Stays c vs s play h =
        then-Stays (Left i) _ _
          (each-Stays (Left i) _ (publish-Stays (Left i) same o kept) 0 vs s h)
          λ s h.
            then-Stays (Left i) _ _ (play_resp-Stays (Left i) same o kept c s h)
              λ s h. returned-Stays (Left i) none _ h
    run-Stays c vs s other h = returned-Stays (Left i) none s h

    crashed-Stays : Stays (Left i) crashed
    unfolding Stays
    crashed-Stays = tt

    values-Stays :
        (c : ChunkStream) (s : Server) (vs : List Value)
        → s.conn.rw.input ≡ i
        → Stays (Left i) (run_values o c s vs)
    values-Stays c s [] h = crashed-Stays
    values-Stays c s (text cmd ∷ vs) h = run-Stays c vs s (command_of cmd) h
    values-Stays c s (number x ∷ vs) h = returned-Stays (Left i) none s h
    values-Stays c s (boolean b ∷ vs) h = returned-Stays (Left i) none s h
    values-Stays c s (null ∷ vs) h = returned-Stays (Left i) none s h
    values-Stays c s (object ms ∷ vs) h = returned-Stays (Left i) none s h
    values-Stays c s (array us ∷ vs) h = returned-Stays (Left i) none s h
    values-Stays c s (typed_object t ms ∷ vs) h = returned-Stays (Left i) none s h
    values-Stays c s (integer x ∷ vs) h = returned-Stays (Left i) none s h
    values-Stays c s (opaque ∷ vs) h = returned-Stays (Left i) none s h

    batch-Stays :
        (c : ChunkStream) (s : Server) (b : Batch)
        → b ≢ unfinished
        → s.conn.rw.input ≡ i
        → Stays (Left i) (run_batch o c s b)
    batch-Stays c s (ended vs true e refs) h k = values-Stays c (record s { caches = refs }) vs k
    batch-Stays c s (ended vs false e refs) h k =
        returned-Stays (Left i) (some (amf_failed e)) (record s { caches = refs }) k
    batch-Stays c s panicked h k = crashed-Stays
    batch-Stays c s unfinished h k = absurd (h refl)

    data-Stays :
        (c : ChunkStream) (s : Server) (d : Option (List ℕ))
        → s.conn.rw.input ≡ i
        → Stays (Left i) (handle_data o c s d)
    data-Stays c s none h = crashed-Stays
    data-Stays c s (some d) h =
        batch-Stays c s _ (decode_batch_ends (plain o.floats) (no_handlers o.floats) s.caches d) h

  handle-Stays :
      (c : ChunkStream) (s : Server) → Stays (Left s.conn.rw.input) (handle_cmd_msg o c s)
  unfolding handle_cmd_msg
  handle-Stays c s = data-Stays s.conn.rw.input c s (command_data c) refl

  done_ne :
      (done : Bool) (s : Server) (next : Server → Ended)
      → next s ≢ out_of_fuel
      → (if done then returned none s else next s) ≢ out_of_fuel
  done_ne true s next h = λ x. absurd (cc)
  done_ne false s next h = h

  after_handled_ne :
      (i : List ℕ) (next : Server → Ended) (e : Ended)
      → Stays (Left i) e
      → ((s : Server) → s.conn.rw.input ≡ i → next s ≢ out_of_fuel)
      → after_handled o next e ≢ out_of_fuel
  unfolding Stays
  after_handled_ne i next (returned none s) h k = done_ne s.done s next (k s h)
  after_handled_ne i next (returned (some e) s) h k = λ x. absurd (cc)
  after_handled_ne i next crashed h k = λ x. absurd (cc)
  after_handled_ne i next out_of_fuel h k = absurd h

  after_read_ne :
      (n : ℕ) (next : Server → Ended) (s : Server) (e : ReadEnd)
      → ReadsOn n e
      → ((s : Server) → length s.conn.rw.input < n → next s ≢ out_of_fuel)
      → after_read o next s e ≢ out_of_fuel
  unfolding ReadsOn
  after_read_ne n next s (ReadEnd.message c conn) h k =
      let at : Server = record s { conn = conn } in
      after_handled_ne conn.rw.input next _
        (if-Stays (Left conn.rw.input) ((c.type_id == 20) || (c.type_id == 17)) _ _
          (handle-Stays c at) (returned-Stays (Left conn.rw.input) none at refl))
        (λ s e. k s (omega (arith, ap length e)))
  after_read_ne n next s (ReadEnd.failed e conn) h k = λ x. absurd (cc)
  after_read_ne n next s ReadEnd.panicked h k = λ x. absurd (cc)
  after_read_ne n next s ReadEnd.stuck h k = absurd h

  rounds_ne :
      (fuel : ℕ) (s : Server)
      → length s.conn.rw.input < fuel
      → read_msg_rounds o fuel s ≢ out_of_fuel
  unfolding read_msg_rounds
  rounds_ne zero s h = absurd (omega arith)
  rounds_ne (suc fuel) s h =
      after_read_ne (length s.conn.rw.input) (read_msg_rounds o fuel) s (read s.conn)
        (read-ReadsOn s.conn) (λ s' k. rounds_ne fuel s' (omega arith))

  -- ReadMsg of any session ends, with nil, an error or a panic, whatever the bytes that arrive
  -- and the caches of its decoder, if Flush leaves the input.
  pub read_msg_ends : (s : Server) → read_msg o s ≢ out_of_fuel
  unfolding read_msg
  read_msg_ends s = rounds_ne (length s.conn.rw.input + 1) s (omega arith)
