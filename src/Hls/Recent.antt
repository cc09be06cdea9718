-- ===== src/Hls/Recent.antt =====
-- The cache of segments holds the last three.
use mathlib.Core.Path.{subst}
use yoshiera_huang_livego.Prelude.{
  ℕ, suc, ◌<◌, ◌≡◌, refl, sym, ap, ◌∙◌, arith, inl, inr, true, false, Bool-cases, Option, none,
  some, List, [], ◌∷◌, ◌++◌, length, length-append, append_assoc, ◌==◌, if◌then◌else◌, min,
}
use yoshiera_huang_livego.Amf.Value.{same_bytes}
use yoshiera_huang_livego.Hls.Window.{
  TsItem, TsCacheItem, new_ts_cache_item, put, delete, set_item, get_item, gen_m3u8_playlist,
}
use yoshiera_huang_livego.Hls.Keys.{
  Kept, find, keys, find_behind, put_lem, delete_lem, AreDistinct, distinct-snoc, found_lem,
  found_at,
}
use yoshiera_huang_livego.Hls.Listing.{playlist_of, held, playlist_lem}

-- Calls of SetItem from a new cache on, each with a key that was not used before.
pub data Calls (id : List ℕ) : List Kept → TsCacheItem → Type 0 where
  start : Calls id [] (new_ts_cache_item id)
  call :
      {xs : List Kept} {c : TsCacheItem} (key : List ℕ) (i : TsItem)
      → Calls id xs c
      → find key xs ≡ none
      → Calls id (xs ++ (key, i) ∷ []) (set_item c key i)

keys-snoc :
    (w : List Kept) (key : List ℕ) (i : TsItem) → keys (w ++ (key, i) ∷ []) ≡ keys w ++ key ∷ []
keys-snoc [] key i = refl
keys-snoc ((k, j) ∷ w) key i = ap (λ ks. k ∷ ks) (keys-snoc w key i)

length-keys : (w : List Kept) → length (keys w) ≡ length w
length-keys [] = refl
length-keys (x ∷ w) = ap suc (length-keys w)

room_lem :
    (id : List ℕ) (w : List Kept) (lm : List ℕ → Option TsItem) (key : List ℕ) (i : TsItem)
    → length w < 3
    → set_item (held id w lm) key i ≡ held id (w ++ (key, i) ∷ []) (put key i lm)
unfolding set_item
room_lem id w lm key i few =
    let room : (length (keys w) == 3) ≡ false = ground (arith, length-keys w) in
    rw room
      (ap (λ ks. record { id = id; num = 3; ll = ks; lm = put key i lm }) (sym (keys-snoc w key i)))

full_lem :
    (id : List ℕ) (x : Kept) (w : List Kept) (lm : List ℕ → Option TsItem) (key : List ℕ)
    (i : TsItem)
    → length w ≡ 2
    → set_item (held id (x ∷ w) lm) key i ≡ held id (w ++ (key, i) ∷ []) (put key i (delete x.0 lm))
unfolding set_item
full_lem id x w lm key i two =
    let full : (suc (length (keys w)) == 3) ≡ true = ground (arith, length-keys w) in
    rw full (
      ap (λ ks. record { id = id; num = 3; ll = ks; lm = put key i (delete x.0 lm) })
        (sym (keys-snoc w key i)))

-- The cache holds the last three segments, or as many as there are.
record IsRecent (id : List ℕ) (xs : List Kept) (c : TsCacheItem) : Type 0 where
  older : List Kept
  recent : List Kept
  all : older ++ recent ≡ xs
  size : length recent ≡ min 3 (length xs)
  lm : List ℕ → Option TsItem
  same : c ≡ held id recent lm
  looked_up : (q : List ℕ) → lm q ≡ find q recent
  distinct : AreDistinct recent

-- One more segment, with room for it and without.
module _ (id : List ℕ) (xs : List Kept) (key : List ℕ) (i : TsItem) where
  grow :
      (c : TsCacheItem) (older recent : List Kept) (lm : List ℕ → Option TsItem)
      → older ++ recent ≡ xs
      → length recent ≡ min 3 (length xs)
      → length recent < 3
      → c ≡ held id recent lm
      → ((q : List ℕ) → lm q ≡ find q recent)
      → AreDistinct recent
      → find key recent ≡ none
      → IsRecent id (xs ++ (key, i) ∷ []) (set_item c key i)
  grow c older recent lm all size few same looked_up distinct gone = record {
    older = older;
    recent = recent ++ (key, i) ∷ [];
    all = sym (append_assoc older recent ((key, i) ∷ [])) ∙ ap (λ l. l ++ (key, i) ∷ []) all;
    size = omega (arith, length-append recent ((key, i) ∷ []), length-append xs ((key, i) ∷ []));
    lm = put key i lm;
    same = ap (λ c. set_item c key i) same ∙ room_lem id recent lm key i few;
    looked_up = λ q.
        ap (λ t. if same_bytes q key then some i else t) (looked_up q)
        ∙ put_lem recent key q i gone;
    distinct = distinct-snoc recent key i distinct gone;
  }

  shift :
      (c : TsCacheItem) (older : List Kept) (x : Kept) (w : List Kept) (lm : List ℕ → Option TsItem)
      → older ++ x ∷ w ≡ xs
      → suc (length w) ≡ min 3 (length xs)
      → length w ≡ 2
      → c ≡ held id (x ∷ w) lm
      → ((q : List ℕ) → lm q ≡ find q (x ∷ w))
      → AreDistinct (x ∷ w)
      → find key (x ∷ w) ≡ none
      → IsRecent id (xs ++ (key, i) ∷ []) (set_item c key i)
  unfolding AreDistinct
  shift c older x w lm all size two same looked_up (once, distinct) gone =
      let left = find_behind key (x ∷ []) w gone in
      record {
        older = older ++ x ∷ [];
        recent = w ++ (key, i) ∷ [];
        all =
            append_assoc older (x ∷ []) (w ++ (key, i) ∷ [])
            ∙ sym (append_assoc older (x ∷ w) ((key, i) ∷ []))
            ∙ ap (λ l. l ++ (key, i) ∷ []) all;
        size = omega (arith, length-append w ((key, i) ∷ []), length-append xs ((key, i) ∷ []));
        lm = put key i (delete x.0 lm);
        same = ap (λ c. set_item c key i) same ∙ full_lem id x w lm key i two;
        looked_up = λ q.
            ap (λ t. if same_bytes q key then some i else (if same_bytes q x.0 then none else t))
              (looked_up q)
            ∙ ap (λ t. if same_bytes q key then some i else t) (delete_lem x w q once)
            ∙ put_lem w key q i left;
        distinct = distinct-snoc w key i distinct left;
      }

  step :
      (c : TsCacheItem) (older recent : List Kept) (lm : List ℕ → Option TsItem)
      → older ++ recent ≡ xs
      → length recent ≡ min 3 (length xs)
      → c ≡ held id recent lm
      → ((q : List ℕ) → lm q ≡ find q recent)
      → AreDistinct recent
      → find key recent ≡ none
      → IsRecent id (xs ++ (key, i) ∷ []) (set_item c key i)
  step c older [] lm all size same looked_up distinct gone =
      grow c older [] lm all size (omega arith) same looked_up distinct gone
  step c older (x ∷ w) lm all size same looked_up distinct gone =
      elim (Bool-cases (length w == 2)) [
        | inl e ↦ shift c older x w lm all size (ground arith) same looked_up distinct gone
        | inr e ↦ grow c older (x ∷ w) lm all size (ground arith) same looked_up distinct gone
      ]

Calls-IsRecent : (id : List ℕ) {xs : List Kept} {c : TsCacheItem} → Calls id xs c → IsRecent id xs c
unfolding AreDistinct
Calls-IsRecent id start = record {
  older = [];
  recent = [];
  all = refl;
  size = refl;
  lm = λ k. none;
  same = refl;
  looked_up = λ q. refl;
  distinct = tt;
}
Calls-IsRecent id (call {xs} {c} key i h new) =
    let was = Calls-IsRecent id h in
    let gone : find key was.recent ≡ none =
      find_behind key was.older was.recent (subst (λ l. find key l ≡ none) (sym was.all) new) in
    step id xs key i c was.older was.recent was.lm was.all was.size was.same was.looked_up
      was.distinct gone

-- Behind any calls of SetItem from a new cache on, each with a key that was not used before, the
-- cache holds the last three segments, or as many as there are: GetItem finds these and no others,
-- and the playlist lists them in order, with the longest duration in whole seconds and one more, and
-- the number of the first.
pub Calls-recent :
    (id : List ℕ) {xs : List Kept} {c : TsCacheItem} (q : List ℕ)
    → Calls id xs c
    → (older : List Kept) × (recent : List Kept) × (older ++ recent ≡ xs)
      × (length recent ≡ min 3 (length xs))
      × (get_item c q ≡ find q recent)
      × (gen_m3u8_playlist c ≡ playlist_of recent)
unfolding get_item
Calls-recent id {xs} {c} q h =
    let is = Calls-IsRecent id h in
    let found = found_lem is.recent is.distinct in
    (
      is.older,
      is.recent,
      is.all,
      is.size,
      ap (λ c. get_item c q) is.same ∙ is.looked_up q,
      ap gen_m3u8_playlist is.same
          ∙ playlist_lem id is.recent is.lm (found_at is.lm is.recent is.recent is.looked_up found),
    )
