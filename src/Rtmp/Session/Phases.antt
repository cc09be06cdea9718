-- ===== src/Rtmp/Session/Phases.antt =====
-- What a command does to a session: it is open until it publishes or plays.
use mathlib.Core.Path.{subst}
use yoshiera_huang_livego.Prelude.{
  ℕ, ◌≡◌, refl, sym, ap, ◌∙◌, inl, inr, Bool-cases, Bool, true, false, none, some, List, ◌∷◌,
  if◌then◌else◌,
}
use yoshiera_huang_livego.Amf.Value.{Value, text, AmfError, same_bytes}
use yoshiera_huang_livego.Hls.Keys.{same_bytes_eq}
use yoshiera_huang_livego.Prelude.Text.{ascii}
use yoshiera_huang_livego.Amf.Batch.{ended, decode_batch}
use yoshiera_huang_livego.Amf.Version3.{plain}
use yoshiera_huang_livego.Amf3.Item.{Refs}
use yoshiera_huang_livego.Rtmp.ChunkStream.{ChunkStream}
use yoshiera_huang_livego.Rtmp.Conn.{Conn}
use yoshiera_huang_livego.Rtmp.Session.Stays.{
  Stays, returned-Stays, each-Stays, connect-Stays, create-Stays, publish-Stays, connect_resp-Stays,
  create_resp-Stays, status-Stays, play_resp-Stays,
}
use yoshiera_huang_livego.Rtmp.Session.Server.{
  Server, Outside, Ended, returned, crashed, out_of_fuel, then_do,
}
use yoshiera_huang_livego.Rtmp.Session.Commands.{
  command_data, Command, connect, create_stream, publish, play, other, command_of, publish_resp,
  run_command, handle_cmd_msg,
}

pub data Phase : Type 0 where
  opened publishing playing : Phase

abbrev pub phase_of : Bool → Bool → Phase
phase_of done is_publisher = if done then (if is_publisher then publishing else playing) else opened

abbrev pub phase : Server → Phase
phase s = phase_of s.done s.is_publisher

-- The phase behind a command that is answered.
abbrev pub next_phase : Command → Phase → Phase
next_phase publish p = publishing
next_phase play p = playing
next_phase connect p = p
next_phase create_stream p = p
next_phase other p = p

-- The phase that a command asks for by its name.
abbrev pub asked_phase : List ℕ → Phase → Phase
asked_phase cmd p =
    if same_bytes cmd (ascii "publish")
    then publishing
    else if same_bytes cmd (ascii "play")
    then playing
    else p

asked_phase_lem : (cmd : List ℕ) (p : Phase) → next_phase (command_of cmd) p ≡ asked_phase cmd p
asked_phase_lem cmd p = elim (Bool-cases (same_bytes cmd (ascii "connect"))) [
  | inl e ↦
      ap (λ (c : List ℕ). next_phase (command_of c) p) (same_bytes_eq cmd (ascii "connect") e)
      ∙ ap (λ (c : List ℕ). asked_phase c p) (sym (same_bytes_eq cmd (ascii "connect") e))
  | inr n ↦ elim (Bool-cases (same_bytes cmd (ascii "createStream"))) [
    | inl e ↦
        ap (λ (c : List ℕ). next_phase (command_of c) p)
          (same_bytes_eq cmd (ascii "createStream") e)
        ∙ ap (λ (c : List ℕ). asked_phase c p) (sym (same_bytes_eq cmd (ascii "createStream") e))
    | inr n' ↦ elim (Bool-cases (same_bytes cmd (ascii "publish"))) [
      | inl e ↦ rw (n, n', e) refl
      | inr k ↦ elim (Bool-cases (same_bytes cmd (ascii "play"))) [
        | inl e ↦ rw (n, n', k, e) refl
        | inr k' ↦ rw (n, n', k, k') refl
      ]
    ]
  ]
]

-- A call that returns nil leaves the phase `q`, and one that returns an error leaves `p`.
unfoldable pub Moves : Phase → Phase → Ended → Type 0
Moves p q (returned none s) = phase s ≡ q
Moves p q (returned (some e) s) = phase s ≡ p
Moves p q crashed = Unit
Moves p q out_of_fuel = ⊥

abbrev In : Phase → Bool → Bool → Conn → Type 0
In p d b conn = phase_of d b ≡ p

Stays-Moves : (p : Phase) (e : Ended) → Stays (In p) e → Moves p p e
unfolding Moves Stays
Stays-Moves p (returned none s) h = h
Stays-Moves p (returned (some e) s) h = h
Stays-Moves p crashed h = tt
Stays-Moves p out_of_fuel h = h

then-Moves :
    (p q : Phase) (e : Ended) (next : Server → Ended)
    → Stays (In p) e
    → ((s : Server) → phase s ≡ p → Moves p q (next s))
    → Moves p q (then_do e next)
unfolding Moves Stays
then-Moves p q (returned none s) next h k = k s h
then-Moves p q (returned (some e) s) next h k = h
then-Moves p q crashed next h k = tt
then-Moves p q out_of_fuel next h k = absurd h

settled-Moves :
    (p : Phase) (s : Server) (b : Bool)
    → Moves p
        (if b then publishing else playing)
        (returned none (record s { done = true; is_publisher = b }))
unfolding Moves
settled-Moves p s b = refl

module _ (o : Outside) (p : Phase) where
  same : (d b : Bool) (c c' : Conn) → c'.rw.input ≡ c.rw.input → In p d b c → In p d b c'
  same d b c c' e h = h

  kept : (d b : Bool) (c : Conn) → In p d b c → In p d b (record c { rw = (o.flush c.rw).1 })
  kept d b c h = h

  run-Moves :
      (c : ChunkStream) (vs : List Value) (s : Server) (cmd : Command)
      → phase s ≡ p
      → Moves p (next_phase cmd p) (run_command o c vs s cmd)
  unfolding run_command publish_resp
  run-Moves c vs s connect h =
      then-Moves p p _ _ (each-Stays (In p) _ (connect-Stays (In p) same o kept) 0 vs s h)
        λ s h. Stays-Moves p _ (connect_resp-Stays (In p) same o kept c s h)
  run-Moves c vs s create_stream h =
      then-Moves p p _ _ (each-Stays (In p) _ (create-Stays (In p) same o kept) 0 vs s h)
        λ s h. Stays-Moves p _ (create_resp-Stays (In p) same o kept c s h)
  run-Moves c vs s publish h =
      then-Moves p publishing _ _ (each-Stays (In p) _ (publish-Stays (In p) same o kept) 0 vs s h)
        λ s h.
          then-Moves p publishing _ _ (status-Stays (In p) same o kept c _ s h)
            λ s h. settled-Moves p s true
  run-Moves c vs s play h =
      then-Moves p playing _ _ (each-Stays (In p) _ (publish-Stays (In p) same o kept) 0 vs s h)
        λ s h.
          then-Moves p playing _ _ (play_resp-Stays (In p) same o kept c s h)
            λ s h. settled-Moves p s false
  run-Moves c vs s other h = Stays-Moves p _ (returned-Stays (In p) none s h)

-- Of a message whose data decodes to the name of a command and its arguments, up to the end of the
-- data, handleCmdMsg ends. Where it returns nil, the phase of the session is publishing for "publish",
-- playing for "play", and the one before for other commands; where it returns an error, the phase is
-- the one before. It may panic instead.
pub handle_cmd_msg-Moves :
    (o : Outside) (c : ChunkStream) (s : Server) (data' cmd : List ℕ) (vs : List Value)
    (e : AmfError) (refs : Refs)
    → command_data c ≡ some data'
    → decode_batch (plain o.floats) 0 s.caches data' ≡ ended (text cmd ∷ vs) true e refs
    → Moves (phase s) (asked_phase cmd (phase s)) (handle_cmd_msg o c s)
unfolding handle_cmd_msg
handle_cmd_msg-Moves o c s data' cmd vs e refs h k =
    let moved : Moves (phase s) (next_phase (command_of cmd) (phase s)) (handle_cmd_msg o c s) =
      rw (h, k) (run-Moves o (phase s) c vs (record s { caches = refs }) (command_of cmd) refl) in
    subst (λ p. Moves (phase s) p (handle_cmd_msg o c s)) (asked_phase_lem cmd (phase s)) moved
