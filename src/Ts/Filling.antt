-- ===== src/Ts/Filling.antt =====
-- What a round puts behind the front of a packet: the PES header, then the payload.
use yoshiera_huang_livego.Prelude.{ℕ, zero, suc, ◌+◌, ◌-◌, ◌≤◌, ◌<◌}
use yoshiera_huang_livego.Prelude.{true, false, ◌&&◌, ◌≡◌, ap, ◌∙◌, arith}
use yoshiera_huang_livego.Prelude.{
  List, [], ◌∷◌, ◌++◌, Option, some, ◌>>=◌, length, take, drop, length-take, length-drop,
}
use yoshiera_huang_livego.Prelude.{ltb, lt→ltb, Bool-cases, inl, inr}
use yoshiera_huang_livego.Pio.{byte}
use yoshiera_huang_livego.Ts.Buffer.{copy, from, sub_slice, copy_lem, from-append, sub_slice_lem}
use yoshiera_huang_livego.Ts.Pes.{PesHeader}
use yoshiera_huang_livego.Ts.Muxer.{Progress, room_for, put_pes, put_payload}

room_for_lem : (i wanted : ℕ) → i + wanted ≤ 188 → room_for i wanted ≡ wanted
unfolding room_for
room_for_lem i wanted h = ground arith

-- A copy of a part of `src` behind `front`, and what is made of the packet.
copy_part {ℓ} :
    {B : Type ℓ} (f : List ℕ → B) (front suf src : List ℕ) (lo n : ℕ)
    → n ≤ length suf
    → lo + n ≤ length src
    → (do
      piece ← sub_slice src lo (lo + n)
      b ← from (front ++ suf) (length front) (λ rest. some (copy rest piece))
      some (f b))
      ≡ some (f (front ++ (take n (drop lo src) ++ drop n suf)))
copy_part f front suf src lo n h k =
    let len : length (take n (drop lo src)) ≡ n =
      omega (arith, length-take n (drop lo src), length-drop lo src) in
    let copied =
      ap (λ l. some l)
        (copy_lem suf (take n (drop lo src)) (omega arith)
          ∙ ap (λ (m : ℕ). take n (drop lo src) ++ drop m suf) len) in
    rw (
      sub_slice_lem src lo n k,
      from-append front suf _ (λ rest. some (copy rest (take n (drop lo src)))) copied,
    )

-- The PES header in the first packet, which has room for all of it.
pub put_pes_lem :
    (pes : PesHeader) (s : Progress) (front suf : List ℕ)
    → s.first ≡ true
    → 0 < s.pes_header_len
    → s.pes_header_len < 256
    → s.pes_header_len ≤ length suf
    → s.pes_index + s.pes_header_len ≤ length pes.bytes
    → length front + length suf ≡ 188
    → put_pes pes s (length suf) (length front) (front ++ suf)
      ≡ some (
        length suf - s.pes_header_len,
        length front + s.pes_header_len,
        front ++ (take s.pes_header_len (drop s.pes_index pes.bytes) ++ drop s.pes_header_len suf),
        record s {
          packet_bytes_len = s.packet_bytes_len - s.pes_header_len;
          pes_header_len = 0;
          pes_index = s.pes_index + s.pes_header_len;
        },
      )
unfolding put_pes
put_pes_lem pes s front suf f p q h k len =
    let n = s.pes_header_len in
    let room : room_for (length front) n ≡ n = room_for_lem (length front) n (omega arith) in
    let test : (s.first && ltb (length front) 188 && ltb 0 n) ≡ true =
      rw (f, lt→ltb (length front) 188 (omega arith), lt→ltb 0 n p) in
    let d : byte (length suf + 256 - n) ≡ length suf - n = omega arith in
    let i : byte (length front + n) ≡ length front + n = omega arith in
    let r : byte (n + 256 - n) ≡ 0 = omega arith in
    rw (test, room, d, i, r)
      (copy_part
        (λ b. (
          length suf - n,
          length front + n,
          b,
          record s {
            packet_bytes_len = s.packet_bytes_len - n;
            pes_header_len = 0;
            pes_index = s.pes_index + n;
          },
        ))
        front suf pes.bytes s.pes_index n h k)

pub put_pes-later :
    (pes : PesHeader) (s : Progress) (d i : ℕ) (b : List ℕ)
    → s.first ≡ false
    → put_pes pes s d i b ≡ some (d, i, b, s)
unfolding put_pes
put_pes-later pes s d i b f =
    let test : (s.first && ltb i 188 && ltb 0 s.pes_header_len) ≡ false = rw f in rw test

nothing_left :
    (payload : List ℕ) (s : Progress) (d : ℕ) (front suf : List ℕ)
    → d ≤ length suf
    → length suf ≡ 0
    → ◌≡◌ {A = Option (List ℕ × Progress)} (some (front ++ suf, s)) (
        some (
          front ++ (take d (drop s.w_bytes payload) ++ drop d suf),
          record s { w_bytes = s.w_bytes + d; packet_bytes_len = s.packet_bytes_len - d },
        ))
nothing_left payload s zero front [] h e = ground arith
nothing_left payload s (suc d) front [] h e = absurd (omega arith)
nothing_left payload s d front (x ∷ suf) h e = absurd (omega arith)

-- The payload from `w_bytes` on.
pub put_payload_lem :
    (payload : List ℕ) (s : Progress) (d : ℕ) (front suf : List ℕ)
    → d ≤ length suf
    → s.w_bytes + d ≤ length payload
    → length front + length suf ≡ 188
    → put_payload payload s d (length front) (front ++ suf)
      ≡ some (
        front ++ (take d (drop s.w_bytes payload) ++ drop d suf),
        record s { w_bytes = s.w_bytes + d; packet_bytes_len = s.packet_bytes_len - d },
      )
unfolding put_payload
put_payload_lem payload s d front suf h k len = elim (Bool-cases (ltb (length front) 188)) [
  | inl room ↦
      rw (room, room_for_lem (length front) d (omega arith))
        (copy_part
          (λ b.
            (b, record s { w_bytes = s.w_bytes + d; packet_bytes_len = s.packet_bytes_len - d }))
          front suf payload s.w_bytes d h k)
  | inr full ↦ rw full (nothing_left payload s d front suf h (ground arith))
]
