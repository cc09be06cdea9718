-- ===== src/Ts/Receiver.antt =====
-- A receiver of one elementary stream, from ISO/IEC 13818-1: what a packet of a transport stream
-- carries, read independently of the muxer.
use yoshiera_huang_livego.Prelude.{ℕ, ◌+◌, ◌/◌, ◌%◌, Bool, false, ◌&&◌}
use yoshiera_huang_livego.Prelude.{List, [], ◌∷◌, ◌++◌, Option, none, some, ◌>>=◌, length, drop}
use yoshiera_huang_livego.Prelude.{leb, ◌==◌, if◌then◌else◌}

-- Behind an adaptation field: its first byte is the number of those that follow.
unfoldable pub skip_field : List ℕ → Option (List ℕ)
skip_field [] = none
skip_field (l ∷ rest) = if leb l (length rest) then some (drop l rest) else none

-- By the two bits that say whether an adaptation field and a payload follow.
unfoldable pub carried : ℕ → List ℕ → Option (List ℕ)
unfolding skip_field
carried control rest =
    if control == 1 then some rest else if control == 3 then skip_field rest else none

-- The unit start indicator and the high bits of the stream's id.
abbrev pub second_byte : ℕ → Bool → ℕ
second_byte pid start = pid / 256 + (if start then 64 else 0)

-- The sync byte, the id, and the continuity counter, which is one more than in the last packet.
abbrev pub is_next : ℕ → ℕ → Bool → ℕ → ℕ → ℕ → ℕ → Bool
is_next pid last start h0 h1 h2 h3 =
    h0 == 0x47 && h1 == second_byte pid start && h2 == pid % 256 && h3 % 16 == (last + 1) % 16

unfoldable pub open_packet : ℕ → ℕ → Bool → List ℕ → Option (List ℕ)
unfolding carried
open_packet pid last start (h0 ∷ h1 ∷ h2 ∷ h3 ∷ rest) =
    if is_next pid last start h0 h1 h2 h3 then carried (h3 / 16) rest else none
open_packet pid last start _ = none

-- The bytes that a run of packets of 188 bytes carries; the first of them starts a unit.
unfoldable pub receive : ℕ → ℕ → Bool → List (List ℕ) → Option (List ℕ)
unfolding open_packet
receive pid last start [] = some []
receive pid last start (b ∷ bs) =
    if length b == 188
    then (do
      piece ← open_packet pid last start b
      rest ← receive pid ((last + 1) % 16) false bs
      some (piece ++ rest))
    else none
