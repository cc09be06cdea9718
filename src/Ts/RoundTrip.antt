-- ===== src/Ts/RoundTrip.antt =====
-- Mux and a receiver of the stream: what one packet of media becomes.
use yoshiera_huang_livego.Prelude.{ℕ, suc, ◌+◌, ◌%◌, ◌≤◌, ◌<◌}
use yoshiera_huang_livego.Prelude.{Bool, true, false, ◌&&◌, ◌≡◌, refl, ap, ◌∙◌, arith}
use yoshiera_huang_livego.Prelude.{List, ◌++◌, none, some, length, take, if◌then◌else◌}
use yoshiera_huang_livego.Av.Packet.{Packet}
use yoshiera_huang_livego.Ts.Pes.{PesHeader, has_dts, pes_packet}
use yoshiera_huang_livego.Ts.Muxer.{
  Muxer, Job, Progress, returned, cc_of, pid_of, dts_of, media_of, start_job, mux_loop, mux,
}
use yoshiera_huang_livego.Ts.Receiver.{receive}
use yoshiera_huang_livego.Ts.Units.{
  parse_pes, parse_pes-unit, stamp, sid_of, header_len, IsHeader, pes_packet_lem,
}
use yoshiera_huang_livego.Ts.Carrying.{collect}
use yoshiera_huang_livego.Ts.Delivery.{prepare, first_round}

and_right : (a b : Bool) → (a && b) ≡ true → b ≡ true
and_right true b h = h
and_right false b h = cc

header_len_bounds : (b : Bool) → (0 < header_len b) × (header_len b ≤ 19)
header_len_bounds b = ground arith

-- What a receiver of the stream of `p` makes of the packets that Mux writes behind `out`.
pub record Received (E : Type 0) (p : Packet) (pts : ℕ) (m : Muxer) (out : List (List ℕ))
    : Type 0 where
  pub packets : List (List ℕ)
  pub unit : List ℕ
  pub behind : Muxer
  pub returns : mux {E = E} (some collect) p m out ≡ returned behind (out ++ packets) none
  pub received : receive (pid_of p.is_video) (cc_of p.is_video m) true packets ≡ some unit
  pub parsed :
      parse_pes unit
      ≡ some (
        sid_of p,
        stamp pts,
        (if has_dts p pts (dts_of p) then some (stamp (dts_of p)) else none),
        p.payload,
      )
  pub counter : cc_of p.is_video behind ≡ (cc_of p.is_video m + length packets) % 16
  pub buffer : length behind.ts_packet ≡ 188

module _ (E : Type 0) (p : Packet) (m : Muxer) (out : List (List ℕ)) {pts : ℕ} {key : Bool} where
  unit_at :
      (pes : PesHeader)
      → media_of p ≡ some (pts, key)
      → pes_packet p pts (dts_of p) ≡ some pes
      → IsHeader pes p (has_dts p pts (dts_of p)) pts (dts_of p)
      → (key ≡ true → 184 ≤ length p.payload + header_len (has_dts p pts (dts_of p)))
      → length m.ts_packet ≡ 188
      → cc_of p.is_video m < 16
      → Received E p pts m out
  unfolding mux start_job
  unit_at pes media e (len, array, unit) room buffer small =
      let both = has_dts p pts (dts_of p) in
      let bounds = header_len_bounds both in
      let job : Job = record { packet = p; pes = pes; key = key; dts = dts_of p } in
      let s : Progress = record {
        first = true;
        w_bytes = 0;
        pes_index = 0;
        pes_header_len = pes.len;
        packet_bytes_len = length p.payload + pes.len;
      } in
      let (front, suf, ready) =
        prepare E job s m (omega (arith, len))
          (λ clock. omega (arith, room (and_right p.is_video key clock), len)) buffer small in
      let c =
        first_round E job (length p.payload + 19) s m out front suf
          (record {
            is_first = refl;
            index = refl;
            w_bytes = refl;
            some_header = omega (arith, len, bounds.0);
            short = omega (arith, len, bounds.1);
            inside = omega (arith, len, array);
            left = refl;
          })
          (omega (arith, len, bounds.1)) buffer small ready in
      let fuel : length p.payload + 20 ≡ suc (length p.payload + 19) = omega arith in
      record {
        packets = c.packets;
        unit = take pes.len pes.bytes ++ p.payload;
        behind = c.behind;
        returns =
            rw (mux, media, e)
              (ap (λ (n : ℕ). mux_loop {E = E} (some collect) n job s m out) fuel ∙ c.ends);
        received = c.carries;
        parsed = rw unit (parse_pes-unit p both pts (dts_of p));
        counter = c.state.counter;
        buffer = c.state.buffer;
      }

  -- For media with a header, and 184 bytes or more with the PES header if it is a key frame, Mux
  -- into a writer that does not fail returns: the packets that it writes have 188 bytes each, their
  -- counters go up by one modulo 16 from that of the muxer, and a receiver that skips what stands
  -- in front of the data puts a unit together that has the id of the stream, the timestamps as far
  -- as 33 bits hold them, and the payload.
  pub mux-Received :
      media_of p ≡ some (pts, key)
      → (key ≡ true → 184 ≤ length p.payload + header_len (has_dts p pts (dts_of p)))
      → length m.ts_packet ≡ 188
      → cc_of p.is_video m < 16
      → Received E p pts m out
  mux-Received media room buffer small =
      let (pes, e, header) = pes_packet_lem p pts (dts_of p) (has_dts p pts (dts_of p)) refl in
      unit_at pes media e header room buffer small
