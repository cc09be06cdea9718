-- ===== src/Ts/Carrying.antt =====
-- A round of Mux in front of others: its packet, the writer, and what a receiver makes of them.
use yoshiera_huang_livego.Prelude.{ℕ, suc, ◌+◌, ◌%◌, ◌<◌}
use yoshiera_huang_livego.Prelude.{Bool, true, false, ◌≡◌, refl, sym, ap, ◌∙◌, arith}
use yoshiera_huang_livego.Prelude.{List, [], ◌∷◌, ◌++◌, Option, none, some, length, append_assoc}
use yoshiera_huang_livego.Prelude.{lt→ltb}
use yoshiera_huang_livego.Ts.Muxer.{
  Muxer, Job, Progress, returned, cc_of, pid_of, next_cc, count_packet, pack_bytes, pack,
  write_packet, after_write, after_pack, mux_loop,
}
use yoshiera_huang_livego.Ts.Receiver.{open_packet, receive}
use yoshiera_huang_livego.Ts.Front.{fourth_byte}

-- A writer that keeps what it is given, and never fails.
abbrev pub collect : {E : Type 0} → List ℕ → List (List ℕ) → Option E × List (List ℕ)
collect b out = (none, out ++ b ∷ [])

-- The muxer behind a round that made the packet `b`.
abbrev pub sent : Bool → Muxer → List ℕ → Muxer
sent v m b = record (count_packet v m) { ts_packet = b }

ts_packet-count : (v : Bool) (m : Muxer) → (count_packet v m).ts_packet ≡ m.ts_packet
unfolding count_packet
ts_packet-count true m = refl
ts_packet-count false m = refl

cc_of-count : (v : Bool) (m : Muxer) → cc_of v (count_packet v m) ≡ next_cc (cc_of v m)
unfolding count_packet
cc_of-count true m = refl
cc_of-count false m = refl

pub cc_of-sent : (v : Bool) (m : Muxer) (b : List ℕ) → cc_of v (sent v m b) ≡ next_cc (cc_of v m)
unfolding count_packet
cc_of-sent true m b = refl
cc_of-sent false m b = refl

pack_lem :
    (job : Job) (s s' : Progress) (m : Muxer) (b : List ℕ)
    → pack_bytes job s (next_cc (cc_of job.packet.is_video m)) m.ts_packet ≡ some (b, s')
    → pack job s m ≡ some (sent job.packet.is_video m b, record s' { first = false })
unfolding pack
pack_lem job s s' m b e =
    rw (cc_of-count job.packet.is_video m, ts_packet-count job.packet.is_video m, e)

receive_next :
    (pid last : ℕ) (start : Bool) (b piece rest : List ℕ) (bs : List (List ℕ))
    → length b ≡ 188
    → open_packet pid last start b ≡ some piece
    → receive pid ((last + 1) % 16) false bs ≡ some rest
    → receive pid last start (b ∷ bs) ≡ some (piece ++ rest)
unfolding receive
receive_next pid last start b piece rest bs n e r = rw (n, e, r)

-- The state of the muxer behind a run of packets, by what it keeps for the next ones.
pub record Behind (v : Bool) (last : ℕ) (bs : List (List ℕ)) (m : Muxer) : Type 0 where
  pub counter : cc_of v m ≡ (last + length bs) % 16
  pub buffer : length m.ts_packet ≡ 188

module _ (E : Type 0) (job : Job) where
  mux_loop_step :
      (fuel : ℕ) (s s' : Progress) (m m' : Muxer) (out : List (List ℕ))
      → 0 < s.packet_bytes_len
      → pack job s m ≡ some (m', s')
      → mux_loop {E = E} (some collect) (suc fuel) job s m out
        ≡ mux_loop (some collect) fuel job s' m' (out ++ m'.ts_packet ∷ [])
  unfolding mux_loop after_pack write_packet after_write
  mux_loop_step fuel s s' m m' out h e = rw (mux_loop, lt→ltb 0 s.packet_bytes_len h, e)

  pub mux_loop_end :
      (fuel : ℕ) (s : Progress) (m : Muxer) (out : List (List ℕ))
      → s.packet_bytes_len ≡ 0
      → mux_loop {E = E} (some collect) (suc fuel) job s m out ≡ returned m out none
  unfolding mux_loop
  mux_loop_end fuel s m out h = rw (mux_loop, h)

  -- What a run of the loop from `s` on gives: the packets that carry `stream`.
  pub record Carries (fuel : ℕ) (s : Progress) (m : Muxer) (out : List (List ℕ)) (stream : List ℕ)
      : Type 0 where
    pub packets : List (List ℕ)
    pub behind : Muxer
    pub ends :
        mux_loop {E = E} (some collect) fuel job s m out ≡ returned behind (out ++ packets) none
    pub carries :
        receive (pid_of job.packet.is_video) (cc_of job.packet.is_video m) s.first packets
        ≡ some stream
    pub state : Behind job.packet.is_video (cc_of job.packet.is_video m) packets behind

  -- A round in front of a run.
  pub one_round :
      (fuel : ℕ) (s s' : Progress) (m : Muxer) (out : List (List ℕ)) (b piece rest : List ℕ)
      → 0 < s.packet_bytes_len
      → cc_of job.packet.is_video m < 16
      → length b ≡ 188
      → pack_bytes job s (next_cc (cc_of job.packet.is_video m)) m.ts_packet ≡ some (b, s')
      → open_packet (pid_of job.packet.is_video) (cc_of job.packet.is_video m) s.first b
        ≡ some piece
      → Carries fuel
          (record s' { first = false })
          (sent job.packet.is_video m b)
          (out ++ b ∷ [])
          rest
      → Carries (suc fuel) s m out (piece ++ rest)
  one_round fuel s s' m out b piece rest h small len e o c =
      let v = job.packet.is_video in
      let cc = cc_of v m in
      let next : cc_of v (sent v m b) ≡ (cc + 1) % 16 =
        cc_of-sent v m b ∙ (fourth_byte cc small).2 in
      record {
        packets = b ∷ c.packets;
        behind = c.behind;
        ends =
            mux_loop_step fuel s (record s' { first = false }) m (sent v m b) out h
              (pack_lem job s s' m b e)
            ∙ c.ends
            ∙ ap (λ l. returned c.behind l none) (append_assoc out (b ∷ []) c.packets);
        carries =
            receive_next (pid_of v) cc s.first b piece rest c.packets len o
              (ap (λ (n : ℕ). receive (pid_of v) n false c.packets) (sym next) ∙ c.carries);
        state = record { counter = omega (arith, c.state.counter, next); buffer = c.state.buffer };
      }
