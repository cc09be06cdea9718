-- ===== src/Runs/Keys.antt =====
-- Room keys in a cache that is a function, and recorded timestamps.
use yoshiera_huang_livego.Prelude.{
  ℕ, ◌≡◌, ◌≢◌, refl, arith, max, true, Option, none, some, [], ◌∷◌, ◌==◌, if◌then◌else◌,
}
use yoshiera_huang_livego.RoomKeys.{KeyCache, get_channel, delete_channel, delete_key}
use yoshiera_huang_livego.Av.Timestamps.{
  Timestamps, calc_base_timestamp, rec_all, last_of, calc_base_timestamp-rec_all,
}
use yoshiera_huang_livego.RoomKeys.Pairs.{delete-pair}

abbrev table_set : ℕ → ℕ → (ℕ → Option ℕ) → ℕ → Option ℕ
table_set k v c j = if j == k then some v else c j

abbrev table_delete : ℕ → (ℕ → Option ℕ) → ℕ → Option ℕ
table_delete k c j = if j == k then none else c j

get-set_lem : (k v : ℕ) (c : ℕ → Option ℕ) → table_set k v c k ≡ some v
get-set_lem k v c = ground arith

get-set_ne_lem : (k j v : ℕ) (c : ℕ → Option ℕ) → j ≢ k → table_set k v c j ≡ c j
get-set_ne_lem k j v c h = ground arith

get-delete_lem : (k : ℕ) (c : ℕ → Option ℕ) → table_delete k c k ≡ none
get-delete_lem k c = ground arith

get-delete_ne_lem : (k j : ℕ) (c : ℕ → Option ℕ) → j ≢ k → table_delete k c j ≡ c j
get-delete_ne_lem k j c h = ground arith

abbrev table : KeyCache ℕ (ℕ → Option ℕ)
table = record {
  get = λ k c. c k;
  set_default = table_set;
  delete = table_delete;
  get-set = get-set_lem;
  get-set_ne = get-set_ne_lem;
  get-delete = get-delete_lem;
  get-delete_ne = get-delete_ne_lem;
}

-- The channel 1 has the key 7, the channel 2 has the key 9.
abbrev keys : ℕ → Option ℕ
keys = table_set 9 2 (table_set 2 9 (table_set 7 1 (table_set 1 7 (λ _. none))))

delete-pair_example :
    (c' : ℕ → Option ℕ) × (delete_channel table 2 keys ≡ (true, c'))
    × (delete_key table 9 keys ≡ (true, c'))
    × (get_channel table 2 c' ≡ none)
    × (get_channel table 9 c' ≡ none)
    × ((j : ℕ) → j ≢ 2 → j ≢ 9 → get_channel table j c' ≡ get_channel table j keys)
delete-pair_example = delete-pair table 2 9 keys (omega arith) refl refl

abbrev fresh : Timestamps
fresh = record { base_timestamp = 0; last_video_timestamp = 0; last_audio_timestamp = 0 }

calc_base_timestamp-rec_all_example :
    (calc_base_timestamp (rec_all ((40, 9) ∷ (23, 8) ∷ (0, 18) ∷ []) fresh)).base_timestamp
    ≡ max
        (last_of 9 0 ((40, 9) ∷ (23, 8) ∷ (0, 18) ∷ []))
        (last_of 8 0 ((40, 9) ∷ (23, 8) ∷ (0, 18) ∷ []))
calc_base_timestamp-rec_all_example =
    calc_base_timestamp-rec_all ((40, 9) ∷ (23, 8) ∷ (0, 18) ∷ []) fresh
