-- ===== src/Rtmp/Handshake/Safety.antt =====
-- No packet makes a side of the handshake of protocol/rtmp/core/handshake.go panic.
use yoshiera_huang_livego.Prelude.{
  ◌<◌, ℕ, zero, suc, ◌-◌, ◌≡◌, ◌≢◌, refl, sym, ap, ◌∙◌, arith, inl, inr, Bool, true, false,
  Bool-cases, Option, none, some, Option-cases, List, [], ◌∷◌, ◌++◌, length, length-drop,
  length-take, length-replicate, replicate, take, drop, ltb, not_ltb→le, ◌==◌, if◌then◌else◌,
}
use yoshiera_huang_livego.Ts.Buffer.{copy, length-copy, sub_slice_lem}
use yoshiera_huang_livego.Rtmp.ReadWriter
use yoshiera_huang_livego.Rtmp.ReadWriter.{Error, unexpected_eof, ReadWriter, read, read_at_least}
use yoshiera_huang_livego.Rtmp.Handshake.{
  Shaken, on_write, on_read, echo, parse_at, hs_parse1, hs_create2, hs_make_digest,
  handshake_client, handshake_server, answer, answer_digest, answer_plain, send_answer,
  client_partial_key, server_partial_key, server_full_key,
}
use yoshiera_huang_livego.Rtmp.Handshake.Packet.{u32be-some, cut, from-Fills, copy-Fills}
use yoshiera_huang_livego.Rtmp.Handshake.Digest.{
  digest_lem, find_total, parse_total, hs_parse1-hs_create01,
}

abbrev full : Bool → ℕ → List ℕ → List ℕ × Option Error
full short n input = if short then (input, some unexpected_eof) else (take n input, none)

full_size :
    (short : Bool) (n : ℕ) (input : List ℕ)
    → ltb (length input) n ≡ short
    → (full short n input).1 ≡ none
    → length (full short n input).0 ≡ n
full_size true n input h e = absurd (cc)
full_size false n input h e = omega (arith, length-take n input, not_ltb→le (length input) n h)

at_least_size :
    (n : ℕ) (input : List ℕ)
    → (read_at_least n input).1 ≡ none
    → length (read_at_least n input).0 ≡ n
unfolding read_at_least
at_least_size zero input e = refl
at_least_size (suc n) [] e = absurd (cc)
at_least_size (suc n) (x ∷ input) e =
    full_size (ltb (length (x ∷ input)) (suc n)) (suc n) (x ∷ input) refl e

on_write-Safe :
    (next : ReadWriter → Shaken) (r : Option Error × ReadWriter)
    → ((w : ReadWriter) → next w ≢ none)
    → on_write next r ≢ none
on_write-Safe next (some e, w) k = λ q. absurd (cc)
on_write-Safe next (none, w) k = k w

on_read_of :
    (n : ℕ) (next : List ℕ → ReadWriter → Shaken) (p : List ℕ) (e : Option Error) (w : ReadWriter)
    → (e ≡ none → length p ≡ n)
    → ((p : List ℕ) (w : ReadWriter) → length p ≡ n → next p w ≢ none)
    → on_read next ((p, e), w) ≢ none
on_read_of n next p (some e) w size k = λ q. absurd (cc)
on_read_of n next p none w size k = k p w (size refl)

on_read-Safe :
    (n : ℕ) (next : List ℕ → ReadWriter → Shaken) (w : ReadWriter)
    → ((p : List ℕ) (w : ReadWriter) → length p ≡ n → next p w ≢ none)
    → on_read next (ReadWriter.read n w) ≢ none
unfolding read
on_read-Safe n next w k = elim (Option-cases w.read_error) [
  | inl e ↦ rw (read, e) (on_read_of n next _ _ _ (at_least_size n w.input) k)
  | inr (x, e) ↦ rw (read, e) (λ q. absurd (cc))
]

echo-Safe : (p : List ℕ) (w : ReadWriter) → length p ≡ 3073 → echo p w ≢ none
unfolding echo
echo-Safe p w size =
    let s1 = take 1536 (drop 1 p) in
    let (ver, v) =
      u32be-some (drop 4 s1)
        (omega (arith, length-drop 4 s1, length-take 1536 (drop 1 p), length-drop 1 p)) in
    rw (echo, sub_slice_lem p 1 1536 (omega arith), v)
      (on_write-Safe _ (ReadWriter.write _ w) (λ w q. absurd (cc)))

-- HandshakeClient panics for no input, writer and result of Flush.
pub handshake_client-Safe :
    (flush : ReadWriter → Option Error × ReadWriter) (w : ReadWriter)
    → handshake_client flush w ≢ none
unfolding handshake_client
handshake_client-Safe flush w =
    on_write-Safe _ _ (λ w. on_write-Safe _ (flush w) (λ w. on_read-Safe 3073 echo w echo-Safe))

module _ (hmac : List ℕ → List ℕ → List ℕ) (hmac_size : (k s : List ℕ) → length (hmac k s) ≡ 32)
    (flush : ReadWriter → Option Error × ReadWriter) where
  parse1_total :
      (p peer_key key : List ℕ)
      → length p ≡ 1536
      → (r : Option (List ℕ)) × (hs_parse1 hmac p peer_key key ≡ some r)
  unfolding hs_parse1 parse_at
  parse1_total p peer_key key size =
      let (one, found, fits, e) = find_total hmac p peer_key 772 (omega arith) in
      let (two, found', fits', e') = find_total hmac p peer_key 8 (omega arith) in
      elim (Bool-cases found) [
        | inl y ↦ (let (d, k) = parse_total hmac key p one fits in (some d, rw (e, y, k) refl))
        | inr n ↦ elim (Bool-cases found') [
          | inl y ↦
              (let (d, k) = parse_total hmac key p two fits' in (some d, rw (e, n, e', y, k) refl))
          | inr n' ↦ (none, rw (e, n, e', n') refl)
        ]
      ]

  create2_total :
      (p key random : List ℕ)
      → 32 < length p
      → (r : List ℕ) × (hs_create2 hmac p key random ≡ some r)
  unfolding hs_create2
  create2_total p key random size =
      let q = copy p random in
      let l : length q ≡ length p = length-copy p random in
      let gap = length q - 32 in
      let (a, m, b, parts, place, cut_size) = cut q gap (omega arith) in
      let made : hs_make_digest hmac key q gap ≡ some (hmac key (a ++ b)) =
        ap (hs_make_digest hmac key q) (sym place)
        ∙ ap (λ (t : List ℕ). hs_make_digest hmac key t (length a)) parts
        ∙ digest_lem hmac key a m b (omega arith) cut_size in
      let (r, e, size') =
        from-Fills (λ rest. some (copy rest (hmac key (a ++ b)))) 0 gap
          (copy-Fills (hmac key (a ++ b))) q (omega arith) in
      (r, rw (made, e) refl)

  answer_digest_total :
      (c1 : List ℕ) (time : ℕ) (random1 random2 : List ℕ)
      → length c1 ≡ 1536
      → (r : Option (List ℕ)) × (answer_digest hmac c1 time random1 random2 ≡ some r)
  unfolding answer_digest
  answer_digest_total c1 time random1 random2 size =
      let (r, e) = parse1_total c1 client_partial_key server_full_key size in
      elim (Option-cases r) [
        | inl n ↦ (none, rw (e, n) refl)
        | inr (d, y) ↦
            (let (c1', d', made, size', own) =
                hs_parse1-hs_create01 hmac time 0x0d0e0a0d server_partial_key [] random1
                  (3 ∷ replicate 1536 0) hmac_size
                  (omega (arith, length-replicate {A = ℕ} 1536 0)) in
              let (s2, second) =
                create2_total (replicate 1536 0) d random2
                  (omega (arith, length-replicate {A = ℕ} 1536 0)) in
              (some ((3 ∷ c1') ++ s2), rw (e, y, made, second) refl))
      ]

  send_answer-Safe : (o : Option (List ℕ)) (w : ReadWriter) → send_answer hmac flush o w ≢ none
  unfolding send_answer
  send_answer-Safe none w = λ q. absurd (cc)
  send_answer-Safe (some s0s1s2) w = on_write-Safe _ (ReadWriter.write s0s1s2 w) (λ w.
      on_write-Safe _ (flush w)
        (λ w. on_read-Safe 1536 (λ c2 w. some (none, w)) w (λ p w size q. absurd (cc))))

  answer-Safe :
      (random1 random2 p : List ℕ) (w : ReadWriter)
      → length p ≡ 1537
      → answer hmac flush random1 random2 p w ≢ none
  unfolding answer
  answer-Safe random1 random2 [] w size = absurd (omega arith)
  answer-Safe random1 random2 (c0 ∷ c1) w size =
      let (time, t) = u32be-some c1 (omega arith) in
      let (ver, v) = u32be-some (drop 4 c1) (omega (arith, length-drop 4 c1)) in
      let (r, e) = answer_digest_total c1 time random1 random2 (omega arith) in
      elim (Bool-cases (c0 == 3)) [
        | inl y ↦ elim (Bool-cases (ver == 0)) [
          | inl plain ↦ rw (answer, y, t, v, plain) (send_answer-Safe (some (answer_plain c1)) w)
          | inr signed ↦ rw (answer, y, t, v, signed, e) (send_answer-Safe r w)
        ]
        | inr n ↦ rw (answer, n) (λ q. absurd (cc))
      ]

  -- Where HMAC-SHA256 has 32 bytes, HandshakeServer panics for no input, writer, random bytes and result of
  -- Flush: it ends with nil or an error.
  pub handshake_server-Safe :
      (random1 random2 : List ℕ) (w : ReadWriter)
      → handshake_server hmac flush random1 random2 w ≢ none
  unfolding handshake_server
  handshake_server-Safe random1 random2 w =
      on_read-Safe 1537 (answer hmac flush random1 random2) w (answer-Safe random1 random2)
