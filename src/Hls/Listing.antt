-- ===== src/Hls/Listing.antt =====
-- The playlist of some segments.
use yoshiera_huang_livego.Prelude.{
  ℕ, ◌+◌, ◌≡◌, refl, sym, ap, ◌∙◌, arith, Option, some, List, [], ◌∷◌, ◌++◌, max, ltb, ◌/◌,
  append_assoc, append-nil, if◌then◌else◌,
}
use yoshiera_huang_livego.Hls.Window.{
  TsItem, max_ts_cache_num, TsCacheItem, Playlist, Found, list_keys, seq_of, gen_m3u8_playlist,
}
use yoshiera_huang_livego.Hls.Keys.{Kept, keys, AreFound}

-- The playlist of some segments: the longest of them in whole seconds and one more, the number of
-- the first, and the duration and name of each.
abbrev pub longest : ℕ → List Kept → ℕ
longest m [] = m
longest m ((key, i) ∷ w) = longest (max m i.duration) w

abbrev pub first_number : List Kept → ℕ
first_number [] = 0
first_number ((key, i) ∷ w) = i.seq_num

abbrev pub entries_of : List Kept → List (ℕ × List ℕ)
entries_of [] = []
entries_of ((key, i) ∷ w) = (i.duration, i.name) ∷ entries_of w

abbrev pub playlist_of : List Kept → Playlist
playlist_of w = record {
  target_duration = longest 0 w / 1000 + 1;
  media_sequence = first_number w;
  entries = entries_of w;
}

-- A cache with these segments.
abbrev pub held : List ℕ → List Kept → (List ℕ → Option TsItem) → TsCacheItem
held id w lm = record { id = id; num = max_ts_cache_num; ll = keys w; lm = lm }

list_keys-entries :
    (lm : List ℕ → Option TsItem) (w : List Kept) (m s : ℕ) (es : List (ℕ × List ℕ))
    → AreFound lm w
    → list_keys lm (keys w) ((m, some s), es) ≡ ((longest m w, some s), es ++ entries_of w)
unfolding list_keys AreFound
list_keys-entries lm [] m s es f = λ k. ((m, some s), sym (append-nil es) k)
list_keys-entries lm ((key, i) ∷ w) m s es (here, f) =
    let greater : (if ltb m i.duration then i.duration else m) ≡ max m i.duration = ground arith in
    let all = append_assoc es ((i.duration, i.name) ∷ []) (entries_of w) in
    rw (list_keys, here, greater)
      (list_keys-entries lm w (max m i.duration) s (es ++ (i.duration, i.name) ∷ []) f
        ∙ (λ k. ((longest (max m i.duration) w, some s), all k)))

pub playlist_lem :
    (id : List ℕ) (w : List Kept) (lm : List ℕ → Option TsItem)
    → AreFound lm w
    → gen_m3u8_playlist (held id w lm) ≡ playlist_of w
unfolding gen_m3u8_playlist AreFound list_keys
playlist_lem id [] lm f = refl
playlist_lem id ((key, i) ∷ w) lm (here, f) =
    let greater : (if ltb 0 i.duration then i.duration else 0) ≡ max 0 i.duration = ground arith in
    rw (list_keys, here, greater)
      (ap
        (λ (r : Found). record {
          target_duration = r.0.0 / 1000 + 1;
          media_sequence = seq_of r.0.1;
          entries = r.1;
        })
        (list_keys-entries lm w (max 0 i.duration) i.seq_num ((i.duration, i.name) ∷ []) f))
