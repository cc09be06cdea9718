-- ===== src/RoomKeys.antt =====
-- configure/channel.go: the keys of the channels. The third-party cache and its strings are
-- parameters, and so are the strings that uid.RandStringRunes draws.
pub mod Pairs
use yoshiera_huang_livego.Prelude.{Bool, true, false, Option, none, some, List, [], ◌∷◌, ◌≡◌, ◌≢◌}

-- The calls of the cache without expiration: Get, SetDefault and Delete, with what its package
-- documents of them.
pub record KeyCache (S C : Type 0) : Type 0 where
  pub get : S → C → Option S
  pub set_default : S → S → C → C
  pub delete : S → C → C
  pub get-set : (k v : S) (c : C) → get k (set_default k v c) ≡ some v
  pub get-set_ne : (k j v : S) (c : C) → j ≢ k → get j (set_default k v c) ≡ get j c
  pub get-delete : (k : S) (c : C) → get k (delete k c) ≡ none
  pub get-delete_ne : (k j : S) (c : C) → j ≢ k → get j (delete k c) ≡ get j c

module _ {S C : Type 0} (cache : KeyCache S C) where
  -- SetKey: the first of the strings drawn that is not found becomes the key. `none`: the loop
  -- would draw on.
  unfoldable pub set_key : S → List S → C → Option (S × C)
  set_key channel [] c = none
  set_key channel (key ∷ draws) c =
      let rest = set_key channel draws c in
      elim (cache.get key c) [
        | some _ ↦ rest
        | none ↦ some (key, cache.set_default key channel (cache.set_default channel key c))
      ]

  -- GetKey
  unfoldable pub get_key : S → List S → C → Option (S × C)
  get_key channel draws c = elim (cache.get channel c) [
    | some key ↦ some (key, c)
    | none ↦ set_key channel draws c
  ]

  -- GetChannel; `none` is its error.
  unfoldable pub get_channel : S → C → Option S
  get_channel key c = cache.get key c

  -- DeleteChannel
  unfoldable pub delete_channel : S → C → Bool × C
  delete_channel channel c = elim (cache.get channel c) [
    | some key ↦ (true, cache.delete key (cache.delete channel c))
    | none ↦ (false, c)
  ]

  -- DeleteKey
  unfoldable pub delete_key : S → C → Bool × C
  delete_key key c = elim (cache.get key c) [
    | some channel ↦ (true, cache.delete key (cache.delete channel c))
    | none ↦ (false, c)
  ]
