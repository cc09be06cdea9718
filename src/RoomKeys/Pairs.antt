-- ===== src/RoomKeys/Pairs.antt =====
-- What SetKey leaves in the cache, and what the two deletions take out of it.
use yoshiera_huang_livego.Prelude.{true, none, some, ◌⊎◌, List, [], ◌∷◌, ◌≡◌, ◌≢◌, refl, ◌∙◌}
use yoshiera_huang_livego.RoomKeys.{KeyCache, get_channel, delete_channel, delete_key}

-- One of the strings drawn is not in the cache.
abbrev pub SomeUnused : {S C : Type 0} → KeyCache S C → List S → C → Type 0
SomeUnused cache [] c = ⊥
SomeUnused cache (key ∷ draws) c = (cache.get key c ≡ none) ⊎ SomeUnused cache draws c

-- The entries after a new pair.
pub record HasPair {S C : Type 0} (cache : KeyCache S C) (channel key : S) (c c' : C) : Type 0 where
  pub key_of : cache.get channel c' ≡ some key
  pub channel_of : cache.get key c' ≡ some channel
  pub kept : (j : S) → j ≢ channel → j ≢ key → cache.get j c' ≡ cache.get j c

module _ {S C : Type 0} (cache : KeyCache S C) where
  -- What is left once both entries of a pair are deleted, in this order.
  deleted :
      (a b : S) (c : C)
      → a ≢ b
      → let c' = cache.delete b (cache.delete a c) in
        (cache.get a c' ≡ none)
        × (cache.get b c' ≡ none)
        × ((j : S) → j ≢ a → j ≢ b → cache.get j c' ≡ cache.get j c)
  deleted a b c ne = (
    cache.get-delete_ne b a (cache.delete a c) ne ∙ cache.get-delete a c,
    cache.get-delete b (cache.delete a c),
    λ j h k. cache.get-delete_ne b j (cache.delete a c) k ∙ cache.get-delete_ne a j c h,
  )

  -- A channel and a key that lead to each other: DeleteChannel and DeleteKey both return true and
  -- delete both entries, and no entry of another name.
  pub delete-pair :
      (channel key : S) (c : C)
      → channel ≢ key
      → cache.get channel c ≡ some key
      → cache.get key c ≡ some channel
      → (c' : C) × (delete_channel cache channel c ≡ (true, c'))
        × (delete_key cache key c ≡ (true, c'))
        × (get_channel cache channel c' ≡ none)
        × (get_channel cache key c' ≡ none)
        × ((j : S) → j ≢ channel → j ≢ key → get_channel cache j c' ≡ get_channel cache j c)
  unfolding get_channel delete_channel delete_key
  delete-pair channel key c ne e e' =
      let (gone, gone', kept) = deleted channel key c ne in
      (
        cache.delete key (cache.delete channel c),
        rw (delete_channel, e) refl,
        rw (delete_key, e') refl,
        gone,
        gone',
        kept,
      )
