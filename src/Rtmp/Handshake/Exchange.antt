-- ===== src/Rtmp/Handshake/Exchange.antt =====
-- What the two sides of protocol/rtmp/core/handshake.go write, each reading what the other wrote.
use yoshiera_huang_livego.Prelude.{
  ℕ, Bool, true, false, if◌then◌else◌, ◌==◌, ◌+◌, ◌≤◌, ◌≡◌, refl, sym, ap, ◌∙◌, arith, Option, none,
  some, List, [], ◌∷◌, ◌++◌, length, length-append, length-replicate, length-drop, ◌-◌, append-nil,
  replicate, drop,
}
use yoshiera_huang_livego.Pio.{u32be, push}
use yoshiera_huang_livego.Ts.Buffer.{copy, copy_lem, sub_slice}
use yoshiera_huang_livego.Rtmp.ReadWriter
use yoshiera_huang_livego.Rtmp.ReadWriter.{Error, ReadWriter}
use yoshiera_huang_livego.Rtmp.ReadWriter.Emit.{emit, emit-emit, write_lem}
use yoshiera_huang_livego.Rtmp.ReadWriter.Integers.{feed}
use yoshiera_huang_livego.Rtmp.ChunkStream.Parsing.{read_lem}
use yoshiera_huang_livego.Rtmp.Handshake.{
  on_write, echo, handshake_client, handshake_server, answer, send_answer, answer_plain,
}
use yoshiera_huang_livego.Rtmp.Handshake.Packet.{slice_middle, u32be-some}

abbrev pub zeros : List ℕ
zeros = replicate 1536 0

read_exactly :
    (n : ℕ) (p rest : List ℕ) (r : ReadWriter)
    → length p ≡ n
    → ReadWriter.read n (feed (p ++ rest) r) ≡ ((p, none), feed rest r)
read_exactly n p rest r e =
    ap (λ (k : ℕ). ReadWriter.read k (feed (p ++ rest) r)) (sym e) ∙ read_lem p rest r

same_branches : (b : Bool) (s : List ℕ) → (if b then s else s) ≡ s
same_branches true s = refl
same_branches false s = refl

echo_lem :
    (packet s1 : List ℕ) (ver : ℕ) (w : ReadWriter)
    → sub_slice packet 1 1537 ≡ some s1
    → u32be (drop 4 s1) ≡ some ver
    → echo packet w ≡ on_write (λ w. some (none, w)) (ReadWriter.write s1 w)
unfolding echo
echo_lem packet s1 ver w slice v =
    rw (slice, v)
      (ap (λ (c2 : List ℕ). on_write (λ w. some (none, w)) (ReadWriter.write c2 w))
        (same_branches (ver == 0) s1))

emit-ok : (p : List ℕ) (w : ReadWriter) → w.write_error ≡ none → (emit p w).write_error ≡ none
unfolding emit
emit-ok p w h = h

emit-feed : (p i : List ℕ) (w : ReadWriter) → emit p (feed i w) ≡ feed i (emit p w)
unfolding emit
emit-feed p i w = refl

emit-room : (p : List ℕ) (w : ReadWriter) → (emit p w).room ≡ w.room - length p
unfolding emit
emit-room p w = refl

zeros-size : length zeros ≡ 1536
zeros-size = length-replicate {A = ℕ} 1536 0

drop_everything : (a : List ℕ) → drop (length a) a ≡ []
drop_everything [] = refl
drop_everything (x ∷ a) = drop_everything a

copy_over : (a b : List ℕ) → length a ≡ length b → copy a b ≡ b
copy_over a b e =
    copy_lem a b (omega arith)
    ∙ ap (λ (t : List ℕ). b ++ t) (ap (λ (n : ℕ). drop n a) (sym e) ∙ drop_everything a)
    ∙ append-nil b

answer_plain_lem : (c1 : List ℕ) → length c1 ≡ 1536 → answer_plain c1 ≡ 3 ∷ (zeros ++ c1)
answer_plain_lem c1 e =
    ap (λ (t : List ℕ). 3 ∷ (t ++ copy zeros c1)) (copy_over zeros zeros refl)
    ∙ ap (λ (t : List ℕ). 3 ∷ (zeros ++ t)) (copy_over zeros c1 (zeros-size ∙ sym e))

module _ (flush : ReadWriter → Option Error × ReadWriter) where
  client_lem :
      (s1 s2 rest : List ℕ) (w : ReadWriter)
      → length s1 ≡ 1536
      → length s2 ≡ 1536
      → w.write_error ≡ none
      → 3073 ≤ w.room
      → flush (feed [] (emit (3 ∷ zeros) w))
        ≡ (none, feed ((3 ∷ (s1 ++ s2)) ++ rest) (emit (3 ∷ zeros) w))
      → handshake_client flush (feed [] w) ≡ some (none, feed rest (emit s1 (emit (3 ∷ zeros) w)))
  unfolding handshake_client
  client_lem s1 s2 rest w size1 size2 ok room arrives =
      let z = zeros-size in
      let c0c1 : length (3 ∷ zeros) ≡ 1537 = omega (arith, z) in
      let packet = 3 ∷ (s1 ++ s2) in
      let size : length packet ≡ 3073 = omega (arith, length-append s1 s2) in
      let clean : (emit (3 ∷ zeros) w).write_error ≡ none = emit-ok (3 ∷ zeros) w ok in
      let left : length s1 ≤ (emit (3 ∷ zeros) w).room = omega (arith, emit-room (3 ∷ zeros) w) in
      let (ver, v) = u32be-some (drop 4 s1) (omega (arith, length-drop 4 s1)) in
      let first = write_lem (3 ∷ zeros) (feed [] w) ok (omega arith) in
      let slice : sub_slice packet 1 1537 ≡ some s1 =
        ap (sub_slice packet 1) (let e : 1537 ≡ 1 + length s1 = omega arith in e)
        ∙ slice_middle (3 ∷ []) s1 s2 in
      rw
        (
          first,
          emit-feed (3 ∷ zeros) [] w,
          arrives,
          read_exactly 3073 packet rest (emit (3 ∷ zeros) w) size,
          echo_lem packet s1 ver (feed rest (emit (3 ∷ zeros) w)) slice v,
          write_lem s1 (feed rest (emit (3 ∷ zeros) w)) clean left,
          emit-feed s1 rest (emit (3 ∷ zeros) w),
        )
        refl

  server_lem :
      (hmac : List ℕ → List ℕ → List ℕ) (random1 random2 c1 c2 rest : List ℕ) (w : ReadWriter)
      → length c1 ≡ 1536
      → length c2 ≡ 1536
      → u32be (drop 4 c1) ≡ some 0
      → w.write_error ≡ none
      → 3073 ≤ w.room
      → flush (feed [] (emit (3 ∷ (zeros ++ c1)) w))
        ≡ (none, feed (c2 ++ rest) (emit (3 ∷ (zeros ++ c1)) w))
      → handshake_server hmac flush random1 random2 (feed ((3 ∷ c1) ++ []) w)
        ≡ some (none, feed rest (emit (3 ∷ (zeros ++ c1)) w))
  unfolding handshake_server answer send_answer
  server_lem hmac random1 random2 c1 c2 rest w size1 size2 plain ok room arrives =
      let s0s1s2 = 3 ∷ (zeros ++ c1) in
      let size : length s0s1s2 ≡ 3073 = omega (arith, length-append zeros c1, zeros-size) in
      let (time, t) = u32be-some c1 (omega arith) in
      rw
        (
          read_exactly 1537 (3 ∷ c1) [] w (omega arith),
          t,
          plain,
          answer_plain_lem c1 size1,
          write_lem s0s1s2 (feed [] w) ok (omega arith),
          emit-feed s0s1s2 [] w,
          arrives,
          read_exactly 1536 c2 rest (emit s0s1s2 w) size2,
        )
        refl

zeros-u32be : u32be (drop 4 zeros) ≡ some 0
unfolding u32be push
zeros-u32be = refl

-- The client's first packet with the version in front, and the whole answer of the server.
abbrev pub first_packet : List ℕ
first_packet = 3 ∷ zeros

abbrev pub answer_packets : List ℕ
answer_packets = 3 ∷ (zeros ++ zeros)

-- Each side is answered only once it has called Flush: the client starts with an empty input, and the bytes of
-- the server arrive with the Flush behind its first packet; the server starts with that packet, and the second
-- packet of the client arrives with the Flush behind its answer. Where both writers have no error and room for
-- 3073 bytes, both sides then end without an error: the client has written its first packet and the echo of
-- the server's first, which together are what the server reads, and the server has written what the
-- client reads. What stands behind the packets in either stream is left for the next reader. The echo is
-- written and left for a later Flush.
pub handshakes_meet :
    (hmac : List ℕ → List ℕ → List ℕ) (flush flush' : ReadWriter → Option Error × ReadWriter)
    (random1 random2 more more' : List ℕ) (client server : ReadWriter)
    → flush (feed [] (emit first_packet client))
      ≡ (none, feed (answer_packets ++ more) (emit first_packet client))
    → flush' (feed [] (emit answer_packets server))
      ≡ (none, feed (zeros ++ more') (emit answer_packets server))
    → client.write_error ≡ none
    → 3073 ≤ client.room
    → server.write_error ≡ none
    → 3073 ≤ server.room
    → (handshake_client flush (feed [] client)
        ≡ some (none, feed more (emit (first_packet ++ zeros) client)))
      × (handshake_server hmac flush' random1 random2 (feed first_packet server)
          ≡ some (none, feed more' (emit answer_packets server)))
handshakes_meet hmac flush flush' random1 random2 more more' client server arrives arrives' ok room
      ok' room' =
    (
      client_lem flush zeros zeros more client zeros-size zeros-size ok room arrives
          ∙ ap (λ (w : ReadWriter). some (none, feed more w)) (emit-emit (3 ∷ zeros) zeros client),
      ap (λ (i : List ℕ). handshake_server hmac flush' random1 random2 (feed i server))
            (sym (append-nil first_packet))
          ∙ server_lem flush' hmac random1 random2 zeros zeros more' server zeros-size zeros-size
              zeros-u32be ok' room' arrives',
    )
