-- ===== src/Cache/Gop/Groups.antt =====
-- The groups of pictures of a list of packets, and what a player gets that is sent some packets.
use yoshiera_huang_livego.Prelude.{ℕ, ◌-◌, ◌≡◌, refl, sym, ◌∙◌}
use yoshiera_huang_livego.Prelude.{
  Bool, true, false, not, ◌&&◌, Option, none, some, List, [], ◌∷◌, ◌++◌, length, drop,
}
use yoshiera_huang_livego.Prelude.{ltb, if◌then◌else◌}
use yoshiera_huang_livego.Av.Packet.{Packet}
use yoshiera_huang_livego.Flv.Tag.{Tag, is_key_frame, is_seq}
use yoshiera_huang_livego.Cache.Gop.{max_gop_cap, Sent, after_send, send_packets}

-- A group starts at a key frame that is no sequence header.
abbrev pub is_start_tag : Option Tag → Bool
is_start_tag none = false
is_start_tag (some tag) = is_key_frame tag && not (is_seq tag)

abbrev pub is_start : Packet → Bool
is_start p = if p.is_video then is_start_tag p.header else false

-- The packet goes to the last group, unless the group is full or there is none.
abbrev pub add_last : Packet → List (List Packet) → List (List Packet)
add_last p [] = []
add_last p (g ∷ []) = (if ltb (length g) max_gop_cap then g ++ (p ∷ []) else g) ∷ []
add_last p (g ∷ h ∷ gs) = g ∷ add_last p (h ∷ gs)

abbrev pub keep_last {ℓ} : {A : Type ℓ} → ℕ → List A → List A
keep_last n l = drop (length l - n) l

-- The last `n` groups after one more packet, oldest first.
abbrev pub regroup : ℕ → Packet → Bool → List (List Packet) → List (List Packet)
regroup n p true gs = keep_last n (gs ++ ((p ∷ []) ∷ []))
regroup n p false gs = add_last p gs

unfoldable pub groups : ℕ → List (List Packet) → List Packet → List (List Packet)
groups n gs [] = gs
groups n gs (p ∷ ps) = groups n (regroup n p (is_start p) gs) ps

abbrev pub concat : List (List Packet) → List Packet
concat [] = []
concat (g ∷ gs) = g ++ concat gs

-- `next` on the writer, unless an error came before.
abbrev pub and_then : {E W : Type 0} → (W → Option E × W) → Option E × W → Option E × W
and_then next (some e, w) = (some e, w)
and_then next (none, w) = next w

module _ {E W : Type 0} (write : Packet → W → Option E × W) where
  -- The packets in order, up to the first error.
  unfoldable pub send_list : List Packet → W → Option E × W
  send_list [] w = (none, w)
  send_list (p ∷ ps) w = and_then (send_list ps) (write p w)

  and_then_assoc :
      (f g : W → Option E × W) (r : Option E × W)
      → and_then g (and_then f r) ≡ and_then (λ w. and_then g (f w)) r
  and_then_assoc f g (some e, w) = refl
  and_then_assoc f g (none, w) = refl

  pub send_list-append :
      (ps qs : List Packet) (w : W)
      → send_list (ps ++ qs) w ≡ and_then (send_list qs) (send_list ps w)
  unfolding send_list
  send_list-append [] qs w = refl
  send_list-append (p ∷ ps) qs w =
      (λ i. and_then (λ v. send_list-append ps qs v i) (write p w))
      ∙ sym (and_then_assoc (send_list ps) (send_list qs) (write p w))

  pub after_send_lem :
      (f : W → Sent E W) (g : W → Option E × W)
      → ((w : W) → f w ≡ some (g w))
      → (r : Option E × W) → after_send f r ≡ some (and_then g r)
  unfolding after_send
  after_send_lem f g h (some e, w) = refl
  after_send_lem f g h (none, w) = h w

  pub send_packets_lem :
      (ps : List Packet) (w : W) → send_packets write (length ps) ps w ≡ some (send_list ps w)
  unfolding send_packets send_list
  send_packets_lem [] w = refl
  send_packets_lem (p ∷ ps) w =
      after_send_lem (send_packets write (length ps) ps) (send_list ps) (send_packets_lem ps)
        (write p w)
