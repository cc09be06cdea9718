-- ===== src/Cache/Special.antt =====
-- protocol/rtmp/cache/special.go: the last packet of one kind.
use yoshiera_huang_livego.Prelude.{Bool, true, false, Option, none, some, ◌>>=◌, if◌then◌else◌}
use yoshiera_huang_livego.Av.Packet.{Packet}
use yoshiera_huang_livego.Cache.Gop.{Sent}

-- SpecialCache. `p` is nil at first.
pub record SpecialCache : Type 0 where
  pub full : Bool
  pub p : Option Packet

-- NewSpecialCache
abbrev pub new_special_cache : SpecialCache
new_special_cache = record { full = false; p = none }

-- Write
unfoldable pub write_special : Packet → SpecialCache → SpecialCache
write_special p c = record { full = true; p = some p }

-- Send. The player's Write would use the fields of a nil packet, which panics.
module _ {E W : Type 0} (write : Packet → W → Option E × W) where
  unfoldable pub send_special : SpecialCache → W → Sent E W
  send_special c w = if c.full then (do p ← c.p; some (write p w)) else some (none, w)
