-- ===== src/Av/Packet.antt =====
-- av/av.go: Packet. A `*flv.Tag` is the only header that the program puts in one: it answers both
-- the audio and the video interface, and `none` is the nil interface, which answers neither.
use yoshiera_huang_livego.Prelude.{ℕ, Bool, Option, List}
use yoshiera_huang_livego.Flv.Tag.{Tag}

pub record Packet : Type 0 where
  pub is_audio : Bool
  pub is_video : Bool
  pub is_metadata : Bool
  pub timestamp : ℕ
  pub stream_id : ℕ
  pub header : Option Tag
  pub payload : List ℕ
