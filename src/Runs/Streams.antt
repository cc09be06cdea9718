-- ===== src/Runs/Streams.antt =====
-- A frame, packed into a transport stream, and the tables of the stream.
use yoshiera_huang_livego.Prelude.{ℕ, ◌≡◌, refl, arith}
use yoshiera_huang_livego.Prelude.{true, false, some, [], ◌∷◌, ◌++◌, replicate}
use yoshiera_huang_livego.Av.Packet.{Packet}
use yoshiera_huang_livego.Flv.Tag.{Tag, zero_tag, is_key_frame}
use yoshiera_huang_livego.Ts.Muxer.{new_muxer, media_of, pts_of}
use yoshiera_huang_livego.Ts.Crc.{gen_crc32}
use yoshiera_huang_livego.Ts.Tables.{pat_header, wrapped_cc, pat, pmt}
use yoshiera_huang_livego.Ts.RoundTrip.{Received, mux-Received}
use yoshiera_huang_livego.Ts.Checksum.{remainder, crc_bytes, gen_crc32-remainder}
use yoshiera_huang_livego.Ts.Sections.{Returns, pmt_body, pat-pmt-Returns}
use yoshiera_huang_livego.Ts.Invariant.{IsSound, none_yet, then_call, pats, Calls-IsSound}

abbrev delayed_tag : Tag
delayed_tag = record zero_tag {
  frame_type = 1;
  codec_id = 7;
  avc_packet_type = 1;
  composition_time = 40;
}

abbrev long_frame : Packet
long_frame = record {
  is_audio = false;
  is_video = true;
  is_metadata = false;
  timestamp = 40;
  stream_id = 1;
  header = some delayed_tag;
  payload = replicate 200 7;
}

-- 40 ms, and 40 ms more until it is shown, in ticks of 1/90 ms.
mux-Received_example : Received ℕ long_frame 7200 new_muxer []
unfolding media_of pts_of is_key_frame
mux-Received_example =
    mux-Received ℕ long_frame new_muxer [] {key = true} refl (λ _. omega arith) refl (omega arith)

gen_crc32-remainder_example :
    (crc : ℕ) × (gen_crc32 (1 ∷ 2 ∷ 3 ∷ []) ≡ some crc)
    × (crc ≡ remainder 0xffffffff (1 ∷ 2 ∷ 3 ∷ []))
    × (remainder 0xffffffff (1 ∷ 2 ∷ 3 ∷ [] ++ crc_bytes crc) ≡ 0)
gen_crc32-remainder_example = gen_crc32-remainder (1 ∷ 2 ∷ 3 ∷ []) (omega arith)

abbrev first_tables :
    Returns 0x40 0x00 (wrapped_cc 0) pat_header (λ t. t.pat) (λ t. t.pat_cc) (pat new_muxer)
    × Returns 0x50 0x01
        (wrapped_cc 0)
        (pmt_body true false)
        (λ t. t.pmt)
        (λ t. t.pmt_cc)
        (pmt 10 true new_muxer)
first_tables = pat-pmt-Returns new_muxer 10 true refl refl

Calls-IsSound_example : IsSound first_tables.0.behind
Calls-IsSound_example =
    Calls-IsSound ℕ ℕ (then_call none_yet (pats first_tables.0.bytes first_tables.0.result))
