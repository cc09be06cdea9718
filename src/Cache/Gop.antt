-- ===== src/Cache/Gop.antt =====
-- protocol/rtmp/cache/gop.go: the last groups of pictures. `none` is a panic: an index out of
-- range, a nil array, a header that is no video header, a division by zero. A slot of `gops` holds
-- nil or an array of its own.
pub mod Rotation
pub mod Groups
use yoshiera_huang_livego.Prelude.{ℕ, zero, suc, ◌+◌, ◌-◌, ◌%◌, Bool, true, false, not, ◌&&◌, ◌||◌}
use yoshiera_huang_livego.Prelude.{
  Option, none, some, ◌>>=◌, List, [], ◌∷◌, ◌++◌, length, get_elem?, set, replicate,
}
use yoshiera_huang_livego.Prelude.{ltb, leb, ◌==◌, if◌then◌else◌}
use yoshiera_huang_livego.Av.Packet.{Packet}
use yoshiera_huang_livego.Flv.Tag.{is_key_frame, is_seq}

-- maxGOPCap
abbrev pub max_gop_cap : ℕ
max_gop_cap = 1024

-- array
pub record Array : Type 0 where
  pub index : ℕ
  pub packets : List Packet

abbrev pub new_array : Array
new_array = record { index = 0; packets = [] }

-- `array.write(packet)`. `writeToArray` drops the error of an array that is full.
unfoldable pub write_array : Packet → Array → Array
write_array p a =
    if leb max_gop_cap a.index
    then a
    else record { index = a.index + 1; packets = a.packets ++ (p ∷ []) }

-- GopCache
pub record GopCache : Type 0 where
  pub start : Bool
  pub num : ℕ
  pub count : ℕ
  pub nextindex : ℕ
  pub gops : List (Option Array)

-- NewGopCache
unfoldable pub new_gop_cache : ℕ → GopCache
new_gop_cache num = record {
  start = false;
  num = 0;
  count = num;
  nextindex = 0;
  gops = replicate num none;
}

-- `a % b`, which panics for 0.
unfoldable pub mod? : ℕ → ℕ → Option ℕ
mod? a b = if b == 0 then none else some (a % b)

-- The array that a new group starts in, and the number of arrays then: the slot's, reset, or one that is made.
abbrev pub next_array : ℕ → Option Array → Array × ℕ
next_array num none = (new_array, num + 1)
next_array num (some a) = (record { index = 0; packets = [] }, num)

-- writeToArray
unfoldable pub write_to_array : Packet → Bool → GopCache → Option GopCache
write_to_array p true g = do
  slot ← get_elem? g.gops g.nextindex
  next ← mod? (g.nextindex + 1) g.count
  let (ginc, num) = next_array g.num slot
  some (record g {
    num = num;
    nextindex = next;
    gops = set g.gops g.nextindex (some (write_array p ginc));
  })
write_to_array p false g = do
  i ← mod? (g.nextindex + 1) g.count
  slot ← get_elem? g.gops i
  ginc ← slot
  some (record g { gops = set g.gops i (some (write_array p ginc)) })

-- `ok` of Write: whether the packet is a key frame that is no sequence header.
unfoldable pub starts_group : Packet → Option Bool
starts_group p =
    if p.is_video then (do vh ← p.header; some (is_key_frame vh && not (is_seq vh))) else some false

-- Write
unfoldable pub write_gop : Packet → GopCache → Option GopCache
write_gop p g = do
  ok ← starts_group p
  if ok || g.start then write_to_array p ok (record g { start = true }) else some g

-- `index` in round `i` of sendTo: `(pos - num + 1) + i`, and `count` more where that is negative.
unfoldable pub send_index : GopCache → ℕ → ℕ → Option ℕ
send_index g pos i =
    if leb g.num (pos + 1 + i)
    then some (pos + 1 + i - g.num)
    else if leb g.num (pos + 1 + i + g.count)
    then some (pos + 1 + i + g.count - g.num)
    else none

-- A send ends with an error or nil and the player's writer as it is then, or it panics.
abbrev pub Sent : (E W : Type 0) → Type 0
Sent E W = Option (Option E × W)

-- `if err != nil { return err }`, else `next`.
unfoldable pub after_send : {E W : Type 0} → (W → Sent E W) → Option E × W → Sent E W
after_send next (some e, w) = some (some e, w)
after_send next (none, w) = next w

-- `w.Write` of the player is a parameter.
module _ {E W : Type 0} (write : Packet → W → Option E × W) where
  -- array.send: the packets up to `index`. An index past the end panics.
  unfoldable pub send_packets : ℕ → List Packet → W → Sent E W
  send_packets zero ps w = some (none, w)
  send_packets (suc n) [] w = none
  send_packets (suc n) (p ∷ ps) w = after_send (send_packets n ps) (write p w)

  unfoldable pub send_array : Option Array → W → Sent E W
  send_array none w = none
  send_array (some a) w = send_packets a.index a.packets w

  -- The rounds of sendTo from `i` on, with `left` to go.
  unfoldable pub send_rounds : ℕ → GopCache → ℕ → ℕ → W → Sent E W
  send_rounds zero g pos i w = some (none, w)
  send_rounds (suc left) g pos i w = do
    index ← send_index g pos i
    slot ← get_elem? g.gops index
    result ← send_array slot w
    after_send (send_rounds left g pos (i + 1)) result

  -- Send and sendTo
  unfoldable pub send_gop : GopCache → W → Sent E W
  send_gop g w = do pos ← mod? (g.nextindex + 1) g.count; send_rounds g.num g pos 0 w
