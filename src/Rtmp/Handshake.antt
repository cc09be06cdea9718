-- ===== src/Rtmp/Handshake.antt =====
-- protocol/rtmp/core/handshake.go: the two sides of the handshake, and the digest of its packets.
-- HMAC-SHA256, the random bytes and Flush are parameters. Deadlines are left out.
pub mod Digest
pub mod Exchange
pub mod Packet
pub mod Safety
use yoshiera_huang_livego.Prelude.{
  ℕ, zero, suc, ◌+◌, ◌-◌, ◌%◌, Bool, true, false, Option, none, some, ◌>>=◌, List, [], ◌∷◌, ◌++◌,
  length, take, drop, replicate, leb, ◌==◌, if◌then◌else◌,
}
use yoshiera_huang_livego.Prelude.Text.{ascii}
use yoshiera_huang_livego.Pio.{at, u32be, put_u32be}
use yoshiera_huang_livego.Amf.Value.{same_bytes}
use yoshiera_huang_livego.Ts.Buffer.{copy, from, sub_slice}
use yoshiera_huang_livego.Rtmp.ReadWriter
use yoshiera_huang_livego.Rtmp.ReadWriter.{Error, ReadWriter}

-- The end of both keys.
abbrev key_end : List ℕ
key_end =
    0xF0 ∷ 0xEE ∷ 0xC2 ∷ 0x4A ∷ 0x80 ∷ 0x68 ∷ 0xBE ∷ 0xE8 ∷ 0x2E ∷ 0x00 ∷ 0xD0 ∷ 0xD1 ∷ 0x02 ∷ 0x9E
    ∷ 0x7E ∷ 0x57 ∷ 0x6E ∷ 0xEC ∷ 0x5D ∷ 0x2D ∷ 0x29 ∷ 0x80 ∷ 0x6F ∷ 0xAB ∷ 0x93 ∷ 0xB8 ∷ 0xE6
    ∷ 0x36 ∷ 0xCF ∷ 0xEB ∷ 0x31 ∷ 0xAE ∷ []

-- hsClientFullKey, hsServerFullKey, hsClientPartialKey, hsServerPartialKey
abbrev pub client_partial_key : List ℕ
client_partial_key = ascii "Genuine Adobe Flash Player 001"

abbrev pub client_full_key : List ℕ
client_full_key = client_partial_key ++ key_end

abbrev pub server_partial_key : List ℕ
server_partial_key = ascii "Genuine Adobe Flash Media Server 001"

abbrev pub server_full_key : List ℕ
server_full_key = server_partial_key ++ key_end

-- The loop of hsCalcDigestPos: the sum of `n` bytes from index `i` on.
unfoldable pub sum_at : ℕ → List ℕ → ℕ → Option ℕ
sum_at zero p i = some 0
sum_at (suc n) p i = do b ← at p i; rest ← sum_at n p (i + 1); some (b + rest)

-- hsCalcDigestPos
unfoldable pub hs_calc_digest_pos : List ℕ → ℕ → Option ℕ
hs_calc_digest_pos p base = do pos ← sum_at 4 p base; some (pos % 728 + base + 4)

pub data HsError : Type 0 where
  net_failed : Error → HsError
  bad_version : ℕ → HsError
  invalid_c1 : HsError

-- How a side ends: nil or an error, and its reader and writer; `none` is a panic.
abbrev pub Shaken : Type 0
Shaken = Option (Option HsError × ReadWriter)

abbrev pub on_write : (ReadWriter → Shaken) → Option Error × ReadWriter → Shaken
on_write next (some e, w) = some (some (net_failed e), w)
on_write next (none, w) = next w

abbrev pub on_read : (List ℕ → ReadWriter → Shaken) → (List ℕ × Option Error) × ReadWriter → Shaken
on_read next ((p, some e), w) = some (some (net_failed e), w)
on_read next ((p, none), w) = next p w

-- The answer to a first packet without a version. Its first part is a copy of the client's second
-- packet, which is not read yet.
abbrev pub answer_plain : List ℕ → List ℕ
answer_plain c1 = let zeros : List ℕ = replicate 1536 0 in 3 ∷ (copy zeros zeros ++ copy zeros c1)

-- HandshakeClient from the server's first packet on, which is echoed whatever version it has.
unfoldable pub echo : List ℕ → ReadWriter → Shaken
echo s0s1s2 w = do
  s1 ← sub_slice s0s1s2 1 1537
  ver ← u32be (drop 4 s1)
  let c2 = if ver == 0 then s1 else s1
  on_write (λ w. some (none, w)) (ReadWriter.write c2 w)

module _ (flush : ReadWriter → Option Error × ReadWriter) where
  -- HandshakeClient
  unfoldable pub handshake_client : ReadWriter → Shaken
  handshake_client w =
      on_write (λ w. on_write (λ w. on_read echo (ReadWriter.read 3073 w)) (flush w))
        (ReadWriter.write (3 ∷ replicate 1536 0) w)

module _ (hmac : List ℕ → List ℕ → List ℕ) where
  -- hsMakeDigest; a gap of 0 stands for those that are not above 0.
  unfoldable pub hs_make_digest : List ℕ → List ℕ → ℕ → Option (List ℕ)
  hs_make_digest key src gap = if leb gap 0 then some (hmac key src) else (do
    front ← sub_slice src 0 gap
    rest ← sub_slice src (gap + 32) (length src)
    some (hmac key (front ++ rest)))

  -- hsFindDigest; `some none` is -1
  unfoldable pub hs_find_digest : List ℕ → List ℕ → ℕ → Option (Option ℕ)
  hs_find_digest p key base = do
    gap ← hs_calc_digest_pos p base
    digest ← hs_make_digest key p gap
    found ← sub_slice p gap (gap + 32)
    some (if same_bytes found digest then some gap else none)

  -- The end of hsParse1; `some none` is false.
  unfoldable pub parse_at : List ℕ → List ℕ → Option ℕ → Option (Option (List ℕ))
  parse_at p key none = some none
  parse_at p key (some pos) = do
    found ← sub_slice p pos (pos + 32)
    digest ← hs_make_digest key found 0
    some (some digest)

  abbrev pub or_find : List ℕ → List ℕ → Option ℕ → Option (Option ℕ)
  or_find p peer_key (some pos) = some (some pos)
  or_find p peer_key none = hs_find_digest p peer_key 8

  -- hsParse1
  unfoldable pub hs_parse1 : List ℕ → List ℕ → List ℕ → Option (Option (List ℕ))
  hs_parse1 p peer_key key = do
    pos ← hs_find_digest p peer_key 772
    pos ← or_find p peer_key pos
    parse_at p key pos

  -- hsCreate01, with the random bytes that fill p1[8:]
  unfoldable pub hs_create01 : List ℕ → ℕ → ℕ → List ℕ → List ℕ → Option (List ℕ)
  hs_create01 [] time ver key random = none
  hs_create01 (b ∷ p1) time ver key random = do
    p1 ← from p1 8 (λ rest. some (copy rest random))
    p1 ← put_u32be p1 time
    p1 ← from p1 4 (λ rest. put_u32be rest ver)
    gap ← hs_calc_digest_pos p1 8
    digest ← hs_make_digest key p1 gap
    p1 ← from p1 gap (λ rest. some (copy rest digest))
    some (3 ∷ p1)

  -- hsCreate2, with the random bytes that fill p
  unfoldable pub hs_create2 : List ℕ → List ℕ → List ℕ → Option (List ℕ)
  hs_create2 p key random = do
    let p = copy p random
    let gap = length p - 32
    digest ← hs_make_digest key p gap
    from p gap (λ rest. some (copy rest digest))

  -- The answer to a first packet with a version.
  unfoldable pub answer_digest : List ℕ → ℕ → List ℕ → List ℕ → Option (Option (List ℕ))
  answer_digest c1 time random1 random2 = do
    ok ← hs_parse1 c1 client_partial_key server_full_key
    elim ok [
      | none ↦ some none
      | some digest ↦ (do
        s0s1 ← hs_create01 (3 ∷ replicate 1536 0) time 0x0d0e0a0d server_partial_key random1
        s2 ← hs_create2 (replicate 1536 0) digest random2
        some (some (s0s1 ++ s2)))
    ]

  module _ (flush : ReadWriter → Option Error × ReadWriter) where
    -- From the write of S0S1S2 on.
    unfoldable pub send_answer : Option (List ℕ) → ReadWriter → Shaken
    send_answer none w = some (some invalid_c1, w)
    send_answer (some s0s1s2) w =
        on_write
          (λ w. on_write (λ w. on_read (λ c2 w. some (none, w)) (ReadWriter.read 1536 w)) (flush w))
          (ReadWriter.write s0s1s2 w)

    -- From C0C1 on.
    unfoldable pub answer : List ℕ → List ℕ → List ℕ → ReadWriter → Shaken
    answer random1 random2 [] w = none
    answer random1 random2 (c0 ∷ c1) w =
        if c0 == 3
        then (do
          time ← u32be c1
          ver ← u32be (drop 4 c1)
          s0s1s2 ←
              if ver == 0
              then some (some (answer_plain c1))
              else answer_digest c1 time random1 random2
          send_answer s0s1s2 w)
        else some (some (bad_version c0), w)

    -- HandshakeServer, with the random bytes of its two packets
    unfoldable pub handshake_server : List ℕ → List ℕ → ReadWriter → Shaken
    handshake_server random1 random2 w =
        on_read (λ c0c1 w. answer random1 random2 c0c1 w) (ReadWriter.read 1537 w)
