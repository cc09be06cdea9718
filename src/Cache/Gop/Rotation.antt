-- ===== src/Cache/Gop/Rotation.antt =====
-- The arrays of a cache of one or two groups are the last groups of pictures.
use yoshiera_huang_livego.Prelude.{ℕ, zero, suc, ◌+◌, ◌≤◌, ◌<◌, ◌≡◌, refl, sym, ap, ◌∙◌, arith}
use yoshiera_huang_livego.Prelude.{
  Bool, true, false, ◌||◌, Option, none, some, ◌>>=◌, List, [], ◌∷◌, ◌++◌, length, length-append,
  get_elem?, All,
}
use yoshiera_huang_livego.Prelude.{ltb, if◌then◌else◌}
use native.Mathlib.Nat.{mod-eq_of_lt}
use yoshiera_huang_livego.Av.Packet.{Packet}
use yoshiera_huang_livego.Prelude.{Bool-cases, inl, inr}
use yoshiera_huang_livego.Flv.Tag.{Tag}
use yoshiera_huang_livego.Cache.Gop.{
  max_gop_cap, Array, GopCache, new_gop_cache, write_array, write_to_array, mod?, starts_group,
  write_gop, send_index, send_array, send_rounds, send_gop,
}
use yoshiera_huang_livego.Cache.Gop.Groups.{
  is_start, regroup, groups, concat, send_list, send_list-append, after_send_lem, send_packets_lem,
}

abbrev slot : List Packet → Option Array
slot ps = some (record { index = length ps; packets = ps })

abbrev cache_of : ℕ → ℕ → ℕ → List (Option Array) → GopCache
cache_of num count next gops = record {
  start = true;
  num = num;
  count = count;
  nextindex = next;
  gops = gops;
}

-- The cache of `count` groups holds these groups, oldest first.
data Holds : ℕ → GopCache → List (List Packet) → Type 0 where
  none_of_one : Holds 1 (new_gop_cache 1) []
  none_of_two : Holds 2 (new_gop_cache 2) []
  only : (g : List Packet) → Holds 1 (cache_of 1 1 0 (slot g ∷ [])) (g ∷ [])
  first : (g : List Packet) → Holds 2 (cache_of 1 2 1 (slot g ∷ none ∷ [])) (g ∷ [])
  in_order : (g h : List Packet) → Holds 2 (cache_of 2 2 0 (slot g ∷ slot h ∷ [])) (g ∷ h ∷ [])
  turned : (g h : List Packet) → Holds 2 (cache_of 2 2 1 (slot h ∷ slot g ∷ [])) (g ∷ h ∷ [])

write_array_lem :
    (p : Packet) (g : List Packet)
    → some (write_array p (record { index = length g; packets = g }))
      ≡ slot (if ltb (length g) max_gop_cap then g ++ (p ∷ []) else g)
unfolding write_array
write_array_lem p g = ground (arith, length-append g (p ∷ []))

-- What Write does for a packet that starts a group or not.
abbrev write_step : Packet → Bool → GopCache → Option GopCache
write_step p b g = if b || g.start then write_to_array p b (record g { start = true }) else some g

write_keeps :
    (p : Packet) (b : Bool) (n : ℕ) (g : GopCache) (gs : List (List Packet))
    → Holds n g gs
    → (g' : GopCache) × (write_step p b g ≡ some g') × Holds n g' (regroup n p b gs)
unfolding new_gop_cache write_to_array mod? write_array
write_keeps p true n g gs none_of_one = (_, refl, only (p ∷ []))
write_keeps p true n g gs none_of_two = (_, refl, first (p ∷ []))
write_keeps p false n g gs none_of_one = (new_gop_cache 1, refl, none_of_one)
write_keeps p false n g gs none_of_two = (new_gop_cache 2, refl, none_of_two)
write_keeps p true n g gs (only x) = (_, refl, only (p ∷ []))
write_keeps p true n g gs (first x) = (_, refl, in_order x (p ∷ []))
write_keeps p true n g gs (in_order x y) = (_, refl, turned y (p ∷ []))
write_keeps p true n g gs (turned x y) = (_, refl, in_order y (p ∷ []))
write_keeps p false n g gs (only x) =
    (_, ap (λ s. some (cache_of 1 1 0 (s ∷ []))) (write_array_lem p x), only _)
write_keeps p false n g gs (first x) =
    (_, ap (λ s. some (cache_of 1 2 1 (s ∷ none ∷ []))) (write_array_lem p x), first _)
write_keeps p false n g gs (in_order x y) =
    (_, ap (λ s. some (cache_of 2 2 0 (slot x ∷ s ∷ []))) (write_array_lem p y), in_order x _)
write_keeps p false n g gs (turned x y) =
    (_, ap (λ s. some (cache_of 2 2 1 (s ∷ slot x ∷ []))) (write_array_lem p y), turned x _)

-- The packets, one after the other.
pub write_all : List Packet → GopCache → Option GopCache
write_all [] g = some g
write_all (p ∷ ps) g = do g' ← write_gop p g; write_all ps g'

-- The header of a video packet has been parsed.
abbrev pub IsParsed : Packet → Type 0
IsParsed p = p.is_video ≡ true → (tag : Tag) × (p.header ≡ some tag)

starts_group_lem : (p : Packet) → IsParsed p → starts_group p ≡ some (is_start p)
unfolding starts_group
starts_group_lem p ok = elim (Bool-cases p.is_video) [
  | inl e ↦ let (tag, h) = ok e in rw (e, h) refl
  | inr e ↦ rw e refl
]

write_all_lem :
    (ps : List Packet) (n : ℕ) (g : GopCache) (gs : List (List Packet))
    → Holds n g gs
    → All IsParsed ps
    → (g' : GopCache) × (write_all ps g ≡ some g') × Holds n g' (groups n gs ps)
unfolding write_all write_gop groups
write_all_lem [] n g gs h ok = (g, refl, h)
write_all_lem (p ∷ ps) n g gs h (ok, oks) =
    let (g', e, h') = write_keeps p (is_start p) n g gs h in
    let (g'', e', h'') = write_all_lem ps n g' (regroup n p (is_start p) gs) h' oks in
    (g'', rw (starts_group_lem p ok, e) e', h'')

module _ {E W : Type 0} (write : Packet → W → Option E × W) where
  send_round :
      (left : ℕ) (g : GopCache) (pos i index : ℕ) (x ys : List Packet) (w : W)
      → send_index g pos i ≡ some index
      → (get_elem? g.gops index) ≡ some (slot x)
      → ((w : W) → send_rounds write left g pos (i + 1) w ≡ some (send_list write ys w))
      → send_rounds write (suc left) g pos i w ≡ some (send_list write (x ++ ys) w)
  unfolding send_rounds send_array
  send_round left g pos i index x ys w e e' h =
      rw (e, e', send_packets_lem write x w)
        (after_send_lem write (send_rounds write left g pos (i + 1)) (send_list write ys) h
            (send_list write x w)
          ∙ ap some (sym (send_list-append write x ys w)))

  send_Holds :
      (n : ℕ) (g : GopCache) (gs : List (List Packet)) (w : W)
      → Holds n g gs
      → send_gop write g w ≡ some (send_list write (concat gs) w)
  unfolding send_gop new_gop_cache mod? send_rounds send_list
  send_Holds n g gs w none_of_one = refl
  send_Holds n g gs w none_of_two = refl
  send_Holds n g gs w (only x) =
      send_round 0 g 0 0 0 x [] w (unfold send_index in refl) refl (λ w. refl)
  send_Holds n g gs w (first x) =
      send_round 0 g 0 0 0 x [] w (unfold send_index in refl) refl (λ w. refl)
  send_Holds n g gs w (in_order x y) =
      send_round 1 g 1 0 0 x (y ++ []) w (unfold send_index in refl) refl
        (λ w. send_round 0 g 1 1 1 y [] w (unfold send_index in refl) refl (λ w. refl))
  send_Holds n g gs w (turned x y) =
      send_round 1 g 0 0 1 x (y ++ []) w (unfold send_index in refl) refl
        (λ w. send_round 0 g 0 1 0 y [] w (unfold send_index in refl) refl (λ w. refl))

  -- A cache of one or two groups that any packets were written to, video packets with a parsed
  -- header, sends the last groups of pictures, each cut off behind its first 1024 packets, oldest
  -- first, up to the first error of the player's Write, and nothing panics.
  pub latest_groups :
      (n : ℕ) (ps : List Packet) (w : W)
      → 0 < n
      → n ≤ 2
      → All IsParsed ps
      → (write_all ps (new_gop_cache n) >>= (λ g. send_gop write g w))
        ≡ some (send_list write (concat (groups n [] ps)) w)
  latest_groups zero ps w low high ok = absurd (omega arith)
  latest_groups (suc zero) ps w low high ok =
      let (g, e, h) = write_all_lem ps 1 (new_gop_cache 1) [] none_of_one ok in
      rw e (send_Holds 1 g (groups 1 [] ps) w h)
  latest_groups (suc (suc zero)) ps w low high ok =
      let (g, e, h) = write_all_lem ps 2 (new_gop_cache 2) [] none_of_two ok in
      rw e (send_Holds 2 g (groups 2 [] ps) w h)
  latest_groups (suc (suc (suc n))) ps w low high ok = absurd (omega arith)

small_mod : (a b : ℕ) → a < b → mod? a b ≡ some a
unfolding mod?
small_mod a b h = ground (arith, mod-eq_of_lt h)

-- A cache of three groups or more panics on the packet behind its first key frame, if that packet
-- starts no group itself.
pub three_groups-panic :
    (n : ℕ) (p q : Packet)
    → 2 < n
    → IsParsed p
    → IsParsed q
    → is_start p ≡ true
    → is_start q ≡ false
    → write_all (p ∷ q ∷ []) (new_gop_cache n) ≡ none
unfolding write_all write_gop write_to_array new_gop_cache
three_groups-panic zero p q big ok ok' e e' = absurd (omega arith)
three_groups-panic (suc zero) p q big ok ok' e e' = absurd (omega arith)
three_groups-panic (suc (suc zero)) p q big ok ok' e e' = absurd (omega arith)
three_groups-panic (suc (suc (suc n))) p q big ok ok' e e' =
    let count : ℕ = suc (suc (suc n)) in
    rw
      (
        starts_group_lem p ok,
        starts_group_lem q ok',
        e,
        e',
        small_mod 1 count (omega arith),
        small_mod 2 count (omega arith),
      )
      refl
