-- ===== src/Ts/Delivery.antt =====
-- Mux and a receiver: the packets that a writer is given carry the header and the payload in order.
use yoshiera_huang_livego.Prelude.{ℕ, zero, suc, ◌+◌, ◌-◌, ◌%◌, ◌≤◌, ◌<◌}
use yoshiera_huang_livego.Prelude.{Bool, true, false, ◌&&◌, ◌≡◌, refl, sym, ap, ◌∙◌, arith}
use yoshiera_huang_livego.Prelude.{
  List, [], ◌∷◌, ◌++◌, none, some, length, take, drop, length-append, append_assoc, append-nil,
  length-take, length-drop, inl, inr, take-append-drop, drop-drop,
}
use yoshiera_huang_livego.Prelude.{ltb, ltb→lt, Bool-cases}
use mathlib.Core.Path.{subst}
use yoshiera_huang_livego.Ts.Muxer.{Muxer, Job, Progress, returned, cc_of, next_cc}
use yoshiera_huang_livego.Ts.Receiver.{receive}
use yoshiera_huang_livego.Ts.Front.{fourth_byte}
use yoshiera_huang_livego.Ts.Prepared.{IsPrepared, has_clock, prepared}
use yoshiera_huang_livego.Ts.Carrying.{sent, cc_of-sent, mux_loop_end, Carries, one_round}
use yoshiera_huang_livego.Ts.Rounds.{drop-all, pack_bytes-next, pack_bytes-first}

no_clock_later : (a b c : Bool) → a ≡ false → (a && b && c) ≡ true → ⊥
no_clock_later true b c e h = cc
no_clock_later false b c e h = cc

module _ (E : Type 0) (job : Job) where
  -- What is known where a round begins, in front of the last one.
  pub record IsLater (fuel : ℕ) (s : Progress) (m : Muxer) : Type 0 where
    pub not_first : s.first ≡ false
    pub left : s.w_bytes + s.packet_bytes_len ≡ length job.packet.payload
    pub enough : s.packet_bytes_len < fuel
    pub buffer : length m.ts_packet ≡ 188
    pub small : cc_of job.packet.is_video m < 16

  -- What is known in front of the first round.
  pub record IsFirst (s : Progress) : Type 0 where
    pub is_first : s.first ≡ true
    pub index : s.pes_index ≡ 0
    pub w_bytes : s.w_bytes ≡ 0
    pub some_header : 0 < s.pes_header_len
    pub short : s.pes_header_len ≤ 19
    pub inside : s.pes_header_len ≤ length job.pes.bytes
    pub left : s.packet_bytes_len ≡ length job.packet.payload + s.pes_header_len

  sent_small :
      (m : Muxer) (b : List ℕ)
      → cc_of job.packet.is_video m < 16
      → cc_of job.packet.is_video (sent job.packet.is_video m b) < 16
  sent_small m b small = omega (
    arith,
    cc_of-sent job.packet.is_video m b,
    (fourth_byte (cc_of job.packet.is_video m) small).2,
  )

  later_round :
      (fuel : ℕ) (s : Progress) (m : Muxer) (out : List (List ℕ)) (front suf : List ℕ)
      → IsLater (suc fuel) s m
      → 0 < s.packet_bytes_len
      → IsPrepared job s
          (cc_of job.packet.is_video m)
          (next_cc (cc_of job.packet.is_video m))
          m.ts_packet
          front
          suf
      → ((s' : Progress) (m' : Muxer) (out' : List (List ℕ))
          → IsLater fuel s' m'
          → Carries E job fuel s' m' out' (drop s'.w_bytes job.packet.payload))
      → Carries E job (suc fuel) s m out (drop s.w_bytes job.packet.payload)
  later_round fuel s m out front suf q h p ih =
      let payload = job.packet.payload in
      let piece = take (length suf) (drop s.w_bytes payload) in
      let b = front ++ piece in
      let s' = record s {
        w_bytes = s.w_bytes + length suf;
        packet_bytes_len = s.packet_bytes_len - length suf;
        first = false;
      } in
      let some_room : 0 < length suf = elim p.fills [ inl x ↦ omega arith | inr x ↦ omega arith ] in
      let len : length b ≡ 188 = omega (
        arith,
        length-append front piece,
        length-take (length suf) (drop s.w_bytes payload),
        length-drop s.w_bytes payload,
        p.whole,
        p.fits,
        q.left,
      ) in
      let stream : piece ++ drop (s.w_bytes + length suf) payload ≡ drop s.w_bytes payload =
        ap (λ l. piece ++ l) (sym (drop-drop (length suf) s.w_bytes payload))
        ∙ take-append-drop (length suf) (drop s.w_bytes payload) in
      let later : IsLater fuel s' (sent job.packet.is_video m b) = record {
        not_first = refl;
        left = omega (arith, q.left, p.fits);
        enough = omega (arith, q.enough, p.fits);
        buffer = len;
        small = sent_small m b q.small;
      } in
      subst (λ l. Carries E job (suc fuel) s m out l) stream
        (one_round E job fuel s _ m out b piece (drop (s.w_bytes + length suf) payload) h q.small
          len (pack_bytes-next job s _ _ p q.not_first q.left) (p.opens piece)
          (ih s' (sent job.packet.is_video m b) (out ++ b ∷ []) later))

  pub prepare :
      (s : Progress) (m : Muxer)
      → 0 < s.packet_bytes_len
      → (has_clock job s ≡ true → 184 ≤ s.packet_bytes_len)
      → length m.ts_packet ≡ 188
      → cc_of job.packet.is_video m < 16
      → (front suf : List ℕ) × IsPrepared job s
          (cc_of job.packet.is_video m)
          (next_cc (cc_of job.packet.is_video m))
          m.ts_packet
          front
          suf
  prepare s m h room len small =
      let e : next_cc (cc_of job.packet.is_video m) ≡ (cc_of job.packet.is_video m + 1) % 16 =
        (fourth_byte (cc_of job.packet.is_video m) small).2 in
      prepared job s (cc_of job.packet.is_video m) (next_cc (cc_of job.packet.is_video m))
        (omega (arith, e)) e h m.ts_packet len room

  later_rounds :
      (fuel : ℕ) (s : Progress) (m : Muxer) (out : List (List ℕ))
      → IsLater fuel s m
      → Carries E job fuel s m out (drop s.w_bytes job.packet.payload)
  unfolding receive
  later_rounds zero s m out q = absurd (omega (arith, q.enough))
  later_rounds (suc fuel) s m out q = elim (Bool-cases (ltb 0 s.packet_bytes_len)) [
    | inl more ↦
        let h = ltb→lt 0 s.packet_bytes_len more in
        let (front, suf, p) =
          prepare s m h
            (λ clock. absurd (no_clock_later s.first job.packet.is_video job.key q.not_first clock))
            q.buffer q.small in
        later_round fuel s m out front suf q h p (later_rounds fuel)
    | inr over ↦ record {
      packets = [];
      behind = m;
      ends =
          mux_loop_end E job fuel s m out (ground arith)
          ∙ ap (λ l. returned m l none) (sym (append-nil out));
      carries =
          let none_left = drop-all s.w_bytes job.packet.payload (ground (arith, q.left)) in
          ap (λ l. some l) (sym none_left);
      state = record { counter = omega (arith, q.small); buffer = q.buffer };
    }
  ]

  pub first_round :
      (fuel : ℕ) (s : Progress) (m : Muxer) (out : List (List ℕ)) (front suf : List ℕ)
      → IsFirst s
      → s.packet_bytes_len ≤ fuel
      → length m.ts_packet ≡ 188
      → cc_of job.packet.is_video m < 16
      → IsPrepared job s
          (cc_of job.packet.is_video m)
          (next_cc (cc_of job.packet.is_video m))
          m.ts_packet
          front
          suf
      → Carries E job (suc fuel) s m out (take s.pes_header_len job.pes.bytes ++ job.packet.payload)
  first_round fuel s m out front suf q enough buffer small p =
      let payload = job.packet.payload in
      let n = s.pes_header_len in
      let piece = take n job.pes.bytes ++ take (length suf - n) payload in
      let b = front ++ piece in
      let s' = record s {
        w_bytes = length suf - n;
        pes_header_len = 0;
        pes_index = n;
        packet_bytes_len = s.packet_bytes_len - length suf;
        first = false;
      } in
      let some_room : n ≤ length suf = elim p.fills [
        | inl x ↦ omega (arith, q.short)
        | inr x ↦ omega (arith, q.left)
      ] in
      let len : length b ≡ 188 = omega (
        arith,
        length-append front piece,
        length-append (take n job.pes.bytes) (take (length suf - n) payload),
        length-take n job.pes.bytes,
        length-take (length suf - n) payload,
        p.whole,
        p.fits,
        q.left,
        q.inside,
      ) in
      let stream : piece ++ drop (length suf - n) payload ≡ take n job.pes.bytes ++ payload =
        append_assoc (take n job.pes.bytes) (take (length suf - n) payload)
          (drop (length suf - n) payload)
        ∙ ap (λ l. take n job.pes.bytes ++ l) (take-append-drop (length suf - n) payload) in
      let later : IsLater fuel s' (sent job.packet.is_video m b) = record {
        not_first = refl;
        left = omega (arith, q.left, p.fits, some_room);
        enough = omega (arith, enough, p.fits, some_room, q.some_header);
        buffer = len;
        small = sent_small m b small;
      } in
      subst (λ l. Carries E job (suc fuel) s m out l) stream
        (one_round E job fuel s _ m out b piece (drop (length suf - n) payload)
          (omega (arith, q.left, q.some_header)) small len
          (pack_bytes-first job s _ _ p q.is_first q.index q.w_bytes q.some_header q.short q.inside
            q.left)
          (p.opens piece)
          (later_rounds fuel s' (sent job.packet.is_video m b) (out ++ b ∷ []) later))
