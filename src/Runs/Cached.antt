-- ===== src/Runs/Cached.antt =====
-- Packets of sound and pictures, demuxed and cached, and a player that counts what it is sent.
use yoshiera_huang_livego.Prelude.{ℕ, ◌≡◌, refl, arith}
use yoshiera_huang_livego.Prelude.{true, false, Option, none, some, ◌>>=◌, List, [], ◌∷◌, ◌++◌}
use yoshiera_huang_livego.Av.Packet.{Packet}
use yoshiera_huang_livego.Flv.Tag.{Tag, zero_tag, is_key_frame, is_seq}
use yoshiera_huang_livego.Flv.Demuxer.{demux}
use yoshiera_huang_livego.Flv.Demuxer.Outcomes.{outcome, demux-outcome}
use yoshiera_huang_livego.Cache.Gop.{new_gop_cache, send_gop}
use yoshiera_huang_livego.Cache.Gop.Groups.{is_start, groups, concat, send_list}
use yoshiera_huang_livego.Cache.Gop.Rotation.{
  write_all, IsParsed, latest_groups, three_groups-panic,
}
use yoshiera_huang_livego.Cache.Store.{new_cache, send_cache}
use yoshiera_huang_livego.Cache.LateJoin.{
  write_each, as_list, latest, keeps_metadata, keeps_picture, keeps_sound, late_join,
}

abbrev key_tag : Tag
key_tag = record zero_tag { frame_type = 1; codec_id = 7; avc_packet_type = 1 }

abbrev key_frame : Packet
key_frame = record {
  is_audio = false;
  is_video = true;
  is_metadata = false;
  timestamp = 40;
  stream_id = 1;
  header = some key_tag;
  payload = 0x17 ∷ 1 ∷ 0 ∷ 0 ∷ 80 ∷ 99 ∷ [];
}

abbrev inter_frame : Packet
inter_frame = record key_frame { timestamp = 80; header = some (record key_tag { frame_type = 2 }) }

abbrev seq_header : Packet
seq_header = record key_frame {
  timestamp = 0;
  header = some (record key_tag { avc_packet_type = 0 });
}

-- The player keeps the timestamps, and fails once it has four.
abbrev play : Packet → List ℕ → Option ℕ × List ℕ
play p (a ∷ b ∷ c ∷ d ∷ l) = (some 1, a ∷ b ∷ c ∷ d ∷ l)
play p l = (none, p.timestamp ∷ l)

key_frame-IsParsed : IsParsed key_frame
key_frame-IsParsed = λ _. (key_tag, refl)

inter_frame-IsParsed : IsParsed inter_frame
inter_frame-IsParsed = λ _. (record key_tag { frame_type = 2 }, refl)

key_frame-starts : is_start key_frame ≡ true
unfolding is_key_frame is_seq
key_frame-starts = refl

inter_frame-continues : is_start inter_frame ≡ false
unfolding is_key_frame
inter_frame-continues = refl

abbrev shown : List Packet
shown = key_frame ∷ inter_frame ∷ key_frame ∷ key_frame ∷ inter_frame ∷ []

latest_groups_example :
    (write_all shown (new_gop_cache 2) >>= (λ g. send_gop play g []))
    ≡ some (send_list play (concat (groups 2 [] shown)) [])
latest_groups_example = latest_groups play 2 shown [] (omega arith) (omega arith) (
  key_frame-IsParsed,
  (inter_frame-IsParsed, (key_frame-IsParsed, (key_frame-IsParsed, (inter_frame-IsParsed, tt)))),
)

three_groups-panic_example : write_all (key_frame ∷ inter_frame ∷ []) (new_gop_cache 3) ≡ none
three_groups-panic_example =
    three_groups-panic 3 key_frame inter_frame (omega arith) key_frame-IsParsed inter_frame-IsParsed
      key_frame-starts inter_frame-continues

abbrev seen : List Packet
seen = seq_header ∷ key_frame ∷ inter_frame ∷ []

late_join_example :
    (write_each seen (new_cache 1) >>= (λ c. send_cache play c []))
    ≡ some (
        send_list play
          (as_list (latest keeps_metadata none seen)
            ++ (as_list (latest keeps_picture none seen)
                ++ (as_list (latest keeps_sound none seen) ++ [])))
          [])
late_join_example = late_join play 1 seen [] (omega arith) ((_, refl), ((_, refl), ((_, refl), tt)))

demux-outcome_example : demux key_frame ≡ outcome key_frame true (0x17 ∷ 1 ∷ 0 ∷ 0 ∷ 80 ∷ 99 ∷ [])
demux-outcome_example =
    demux-outcome key_frame
      (omega arith, (omega arith, (omega arith, (omega arith, (omega arith, (omega arith, tt))))))
