-- ===== src/Ts/Rounds.antt =====
-- A whole round of Mux: the packet that it makes and what is left behind it.
use yoshiera_huang_livego.Prelude.{ℕ, zero, suc, ◌+◌, ◌-◌, ◌≤◌, ◌<◌}
use yoshiera_huang_livego.Prelude.{true, false, ◌≡◌, refl, sym, ◌∙◌, arith}
use yoshiera_huang_livego.Prelude.{
  List, [], ◌∷◌, ◌++◌, some, length, take, drop, length-append, append_assoc, append-nil,
  length-take, length-drop, inl, inr,
}
use yoshiera_huang_livego.Ts.Muxer.{Job, Progress, put_payload, pack_bytes}
use yoshiera_huang_livego.Ts.Prepared.{IsPrepared}
use yoshiera_huang_livego.Ts.Filling.{put_pes_lem, put_pes-later, put_payload_lem}

pub drop-all {ℓ} : {A : Type ℓ} (n : ℕ) (xs : List A) → length xs ≤ n → drop n xs ≡ []
drop-all zero [] h = refl
drop-all zero (x ∷ xs) h = absurd (omega arith)
drop-all (suc n) [] h = refl
drop-all (suc n) (x ∷ xs) h = drop-all n xs (omega arith)

module _ (job : Job) (s : Progress) (last cc : ℕ) {b front suf : List ℕ}
    (p : IsPrepared job s last cc b front suf) where
  open p use {result, whole, fits, fills, opens}

  -- A packet behind the first: payload only.
  pub pack_bytes-next :
      s.first ≡ false
      → s.w_bytes + s.packet_bytes_len ≡ length job.packet.payload
      → pack_bytes job s cc b
        ≡ some (
          front ++ take (length suf) (drop s.w_bytes job.packet.payload),
          record s {
            w_bytes = s.w_bytes + length suf;
            packet_bytes_len = s.packet_bytes_len - length suf;
          },
        )
  unfolding pack_bytes
  pack_bytes-next f left =
      let e =
        put_payload_lem job.packet.payload s (length suf) front suf (omega arith)
          (omega (arith, fits)) whole in
      let none_left = drop-all (length suf) suf (omega arith) in
      rw (
        result,
        put_pes-later job.pes s (length suf) (length front) (front ++ suf) f,
        e,
        none_left,
        append-nil (take (length suf) (drop s.w_bytes job.packet.payload)),
      )

  -- The first packet: the PES header and payload.
  pub pack_bytes-first :
      s.first ≡ true
      → s.pes_index ≡ 0
      → s.w_bytes ≡ 0
      → 0 < s.pes_header_len
      → s.pes_header_len ≤ 19
      → s.pes_header_len ≤ length job.pes.bytes
      → s.packet_bytes_len ≡ length job.packet.payload + s.pes_header_len
      → pack_bytes job s cc b
        ≡ some (
          front
              ++ (take s.pes_header_len job.pes.bytes
                  ++ take (length suf - s.pes_header_len) job.packet.payload),
          record s {
            w_bytes = length suf - s.pes_header_len;
            pes_header_len = 0;
            pes_index = s.pes_header_len;
            packet_bytes_len = s.packet_bytes_len - length suf;
          },
        )
  unfolding pack_bytes
  pack_bytes-first f z w pos small inside left =
      let n = s.pes_header_len in
      let room : n ≤ length suf = elim fills [ inl x ↦ omega arith | inr x ↦ omega arith ] in
      let e = put_pes_lem job.pes s front suf f pos (omega arith) room (omega arith) whole in
      let m = length suf - n in
      let head = take n (drop s.pes_index job.pes.bytes) in
      let rest = record s {
        pes_index = s.pes_index + n;
        pes_header_len = 0;
        packet_bytes_len = s.packet_bytes_len - n;
      } in
      let len : length head ≡ n = omega (
        arith,
        length-take n (drop s.pes_index job.pes.bytes),
        length-drop s.pes_index job.pes.bytes,
      ) in
      let at : length front + n ≡ length (front ++ head) =
        omega (arith, length-append front head) in
      let room2 : m ≤ length (drop n suf) = omega (arith, length-drop n suf) in
      let all : length (front ++ head) + length (drop n suf) ≡ 188 =
        omega (arith, length-drop n suf) in
      let e2 =
        put_payload_lem job.packet.payload rest m (front ++ head) (drop n suf) room2
          (omega (arith, fits)) all in
      let none_left = drop-all m (drop n suf) (omega (arith, length-drop n suf)) in
      let w_bytes : s.w_bytes + m ≡ m = omega arith in
      let index : s.pes_index + n ≡ n = omega arith in
      let bytes : s.packet_bytes_len - n - m ≡ s.packet_bytes_len - length suf = omega arith in
      let list : (front ++ head)
            ++ (take m (drop s.w_bytes job.packet.payload) ++ drop m (drop n suf))
          ≡ front ++ (take n job.pes.bytes ++ take m job.packet.payload) =
        rw (
          none_left,
          append-nil (take m (drop s.w_bytes job.packet.payload)),
          append_assoc front head (take m (drop s.w_bytes job.packet.payload)),
          w,
          z,
        ) in
      rw (result, e)
        ((λ i.
            put_payload job.packet.payload rest m (at i)
              (sym (append_assoc front head (drop n suf)) i))
          ∙ e2
          ∙ (λ i. some (
            list i,
            record s {
              w_bytes = w_bytes i;
              pes_index = index i;
              pes_header_len = 0;
              packet_bytes_len = bytes i;
            },
          )))
