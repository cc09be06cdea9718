-- ===== src/Cache/LateJoin.antt =====
-- What a player that joins late is sent.
use yoshiera_huang_livego.Prelude.{ℕ, ◌<◌, ◌≡◌, refl, arith}
use yoshiera_huang_livego.Prelude.{
  Bool, true, false, not, ◌&&◌, Option, none, some, ◌>>=◌, List, [], ◌∷◌, ◌++◌, All,
}
use yoshiera_huang_livego.Prelude.{==_ne, ◌==◌, if◌then◌else◌}
use yoshiera_huang_livego.Av.{sound_aac, aac_seq_header}
use yoshiera_huang_livego.Av.Packet.{Packet}
use yoshiera_huang_livego.Flv.Tag.{Tag, is_seq}
use yoshiera_huang_livego.Cache.Gop.{new_gop_cache, mod?, send_rounds, Sent, after_send, send_gop}
use yoshiera_huang_livego.Cache.Gop.Groups.{send_list, after_send_lem}
use yoshiera_huang_livego.Cache.Special.{
  SpecialCache, new_special_cache, write_special, send_special,
}
use yoshiera_huang_livego.Cache.Store.{
  Cache, new_cache, write_audio, write_video, write_cache, then_send, send_cache,
}

-- The three kinds of packets that are kept, by the packet and its header.
abbrev pub is_sound_seq : Option Tag → Bool
is_sound_seq none = false
is_sound_seq (some tag) = (tag.sound_format == sound_aac) && (tag.aac_packet_type == aac_seq_header)

abbrev pub is_picture_seq : Option Tag → Bool
is_picture_seq none = false
is_picture_seq (some tag) = is_seq tag

abbrev pub keeps_metadata : Packet → Bool
keeps_metadata p = p.is_metadata

abbrev pub keeps_picture : Packet → Bool
keeps_picture p = not p.is_metadata && (p.is_video && is_picture_seq p.header)

abbrev pub keeps_sound : Packet → Bool
keeps_sound p = not p.is_metadata && (not p.is_video && is_sound_seq p.header)

-- The last packet of a kind: `last` is the one before these packets.
unfoldable pub latest : (Packet → Bool) → Option Packet → List Packet → Option Packet
latest test last [] = last
latest test last (p ∷ ps) = latest test (if test p then some p else last) ps

-- The packets, one after the other.
pub write_each : List Packet → Cache → Option Cache
write_each [] c = some c
write_each (p ∷ ps) c = do c' ← write_cache p c; write_each ps c'

-- A header that both interfaces are answered by: every packet that the program demuxes has one.
abbrev pub HasHeader : Packet → Type 0
HasHeader p = (tag : Tag) × (p.header ≡ some tag)

abbrev pub as_list : Option Packet → List Packet
as_list none = []
as_list (some p) = p ∷ []

abbrev special_of : Option Packet → SpecialCache
special_of none = new_special_cache
special_of (some p) = record { full = true; p = some p }

abbrev cache_of : ℕ → Option Packet → Option Packet → Option Packet → Cache
cache_of n metadata pictures sound = record {
  gop = new_gop_cache n;
  video_seq = special_of pictures;
  audio_seq = special_of sound;
  metadata = special_of metadata;
}

write_one :
    (p : Packet) (n : ℕ) (m v a : Option Packet)
    → HasHeader p
    → write_cache p (cache_of n m v a)
      ≡ some (
          cache_of n
            (if keeps_metadata p then some p else m)
            (if keeps_picture p then some p else v)
            (if keeps_sound p then some p else a))
unfolding write_cache write_audio write_video write_special
write_one p n m v a (tag, e) = rw e (ground arith)

write_each_lem :
    (ps : List Packet) (n : ℕ) (m v a : Option Packet)
    → All HasHeader ps
    → write_each ps (cache_of n m v a)
      ≡ some (
          cache_of n
            (latest keeps_metadata m ps)
            (latest keeps_picture v ps)
            (latest keeps_sound a ps))
unfolding write_each latest
write_each_lem [] n m v a h = refl
write_each_lem (p ∷ ps) n m v a (h, hs) = rw (write_one p n m v a h) (write_each_lem ps n _ _ _ hs)

module _ {E W : Type 0} (write : Packet → W → Option E × W) where
  then_send_lem :
      (last : Option Packet) (next : W → Sent E W) (rest : List Packet)
      → ((w : W) → next w ≡ some (send_list write rest w))
      → (w : W)
      → then_send write (special_of last) next w ≡ some (send_list write (as_list last ++ rest) w)
  unfolding then_send send_special send_list after_send
  then_send_lem none next rest h w = h w
  then_send_lem (some p) next rest h w =
      after_send_lem write next (send_list write rest) h (write p w)

  send_no_group :
      (n : ℕ) (w : W) → 0 < n → send_gop write (new_gop_cache n) w ≡ some (send_list write [] w)
  unfolding send_gop new_gop_cache mod? send_rounds send_list
  send_no_group n w h = rw (==_ne n 0 (omega arith)) refl

  -- Whatever packets with a header were written to a new cache for one group or more, Send gives
  -- the player the last metadata, the last video sequence header and the last audio sequence
  -- header, as far as there are any, and no group of pictures, up to the first error of the
  -- player's Write; nothing panics.
  pub late_join :
      (n : ℕ) (ps : List Packet) (w : W)
      → 0 < n
      → All HasHeader ps
      → (write_each ps (new_cache n) >>= (λ c. send_cache write c w))
        ≡ some (
            send_list write
              (as_list (latest keeps_metadata none ps)
                ++ (as_list (latest keeps_picture none ps)
                    ++ (as_list (latest keeps_sound none ps) ++ [])))
              w)
  unfolding new_cache send_cache
  late_join n ps w h ok =
      let m = latest keeps_metadata none ps in
      let v = latest keeps_picture none ps in
      let a = latest keeps_sound none ps in
      let gop = send_gop write (new_gop_cache n) in
      let sound = then_send_lem a gop [] (λ w. send_no_group n w h) in
      let pictures = then_send_lem v (then_send write (special_of a) gop) (as_list a ++ []) sound in
      rw (write_each_lem ps n none none none ok) (
        then_send_lem m (then_send write (special_of v) (then_send write (special_of a) gop))
          (as_list v ++ (as_list a ++ [])) pictures w)
