-- ===== src/Cache/Store.antt =====
-- protocol/rtmp/cache/cache.go: the cache of a stream.
use yoshiera_huang_livego.Prelude.{ℕ, ◌&&◌, Option, none, some, ◌>>=◌, ◌==◌, if◌then◌else◌}
use yoshiera_huang_livego.Av.{sound_aac, aac_seq_header}
use yoshiera_huang_livego.Av.Packet.{Packet}
use yoshiera_huang_livego.Flv.Tag.{Tag, is_seq}
use yoshiera_huang_livego.Cache.Gop.{GopCache, new_gop_cache, write_gop, Sent, after_send, send_gop}
use yoshiera_huang_livego.Cache.Special.{
  SpecialCache, new_special_cache, write_special, send_special,
}

-- Cache
pub record Cache : Type 0 where
  pub gop : GopCache
  pub video_seq : SpecialCache
  pub audio_seq : SpecialCache
  pub metadata : SpecialCache

-- NewCache, for the setting `gop_num`
unfoldable pub new_cache : ℕ → Cache
new_cache gop_num = record {
  gop = new_gop_cache gop_num;
  video_seq = new_special_cache;
  audio_seq = new_special_cache;
  metadata = new_special_cache;
}

abbrev pub to_gop : Packet → Cache → Option Cache
to_gop p c = do g ← write_gop p c.gop; some (record c { gop = g })

-- Sound. `none` is a header that is no audio header.
unfoldable pub write_audio : Packet → Option Tag → Cache → Option Cache
write_audio p none c = to_gop p c
write_audio p (some ah) c =
    if (ah.sound_format == sound_aac) && (ah.aac_packet_type == aac_seq_header)
    then some (record c { audio_seq = write_special p c.audio_seq })
    else some c

-- Pictures. `none` is a header that is no video header.
unfoldable pub write_video : Packet → Option Tag → Cache → Option Cache
write_video p none c = to_gop p c
write_video p (some vh) c =
    if is_seq vh then some (record c { video_seq = write_special p c.video_seq }) else some c

-- Write. `none` is a panic.
unfoldable pub write_cache : Packet → Cache → Option Cache
write_cache p c =
    if p.is_metadata
    then some (record c { metadata = write_special p c.metadata })
    else if p.is_video
    then write_video p p.header c
    else write_audio p p.header c

-- Send: metadata, pictures, sound and the groups, up to the first error.
module _ {E W : Type 0} (write : Packet → W → Option E × W) where
  unfoldable pub then_send : SpecialCache → (W → Sent E W) → W → Sent E W
  then_send c next w = do sent ← send_special write c w; after_send next sent

  unfoldable pub send_cache : Cache → W → Sent E W
  send_cache c w =
      then_send c.metadata (then_send c.video_seq (then_send c.audio_seq (send_gop write c.gop))) w
