-- ===== src/Hls/Window.antt =====
-- protocol/hls/item.go and cache.go: the last segments of a stream.
use yoshiera_huang_livego.Prelude.{
  ℕ, ◌+◌, ◌/◌, Option, none, some, List, [], ◌∷◌, ◌++◌, length, ltb, ◌==◌, if◌then◌else◌,
}
use yoshiera_huang_livego.Amf.Value.{same_bytes}

pub record TsItem : Type 0 where
  pub name : List ℕ
  pub seq_num : ℕ
  pub duration : ℕ
  pub content : List ℕ

-- NewTSItem
abbrev pub new_ts_item : List ℕ → ℕ → ℕ → List ℕ → TsItem
new_ts_item name duration seq_num b = record {
  name = name;
  seq_num = seq_num;
  duration = duration;
  content = b;
}

-- maxTSCacheNum
abbrev pub max_ts_cache_num : ℕ
max_ts_cache_num = 3

-- TSCacheItem: the keys in order, and the map as a function.
pub record TsCacheItem : Type 0 where
  pub id : List ℕ
  pub num : ℕ
  pub ll : List (List ℕ)
  pub lm : List ℕ → Option TsItem

abbrev pub new_ts_cache_item : List ℕ → TsCacheItem
new_ts_cache_item id = record { id = id; num = max_ts_cache_num; ll = []; lm = λ k. none }

-- What stands in a map behind `m[key] = item` and `delete(m, key)`.
abbrev pub put : List ℕ → TsItem → (List ℕ → Option TsItem) → List ℕ → Option TsItem
put key i m k = if same_bytes k key then some i else m k

abbrev pub delete : List ℕ → (List ℕ → Option TsItem) → List ℕ → Option TsItem
delete key m k = if same_bytes k key then none else m k

-- The removal of the front of a full list. The front of an empty list is nil, whose Value panics;
-- a list of no keys is not full here.
abbrev pub drop_front : List (List ℕ) → TsCacheItem → TsCacheItem
drop_front [] c = c
drop_front (k ∷ ks) c = record c { ll = ks; lm = delete k c.lm }

-- SetItem
unfoldable pub set_item : TsCacheItem → List ℕ → TsItem → TsCacheItem
set_item c key i =
    let c = if length c.ll == c.num then drop_front c.ll c else c in
    record c { lm = put key i c.lm; ll = c.ll ++ key ∷ [] }

-- GetItem; `none` is ErrNoKey
unfoldable pub get_item : TsCacheItem → List ℕ → Option TsItem
get_item c key = c.lm key

-- The numbers that GenM3U8PlayList prints: the target duration, the number of the first segment, and
-- the duration and the name of each.
pub record Playlist : Type 0 where
  pub target_duration : ℕ
  pub media_sequence : ℕ
  pub entries : List (ℕ × List ℕ)

-- The round of a key. `first` is seq, `none` before a segment was found.
abbrev pub Found : Type 0
Found = (ℕ × Option ℕ) × List (ℕ × List ℕ)

abbrev pub list_item : Option TsItem → Found → Found
list_item none f = f
list_item (some v) ((longest, none), es) = (
  (if ltb longest v.duration then v.duration else longest, some v.seq_num),
  es ++ (v.duration, v.name) ∷ [],
)
list_item (some v) ((longest, some s), es) = (
  (if ltb longest v.duration then v.duration else longest, some s),
  es ++ (v.duration, v.name) ∷ [],
)

unfoldable pub list_keys : (List ℕ → Option TsItem) → List (List ℕ) → Found → Found
list_keys lm [] f = f
list_keys lm (k ∷ ks) f = list_keys lm ks (list_item (lm k) f)

abbrev pub seq_of : Option ℕ → ℕ
seq_of none = 0
seq_of (some s) = s

-- GenM3U8PlayList
unfoldable pub gen_m3u8_playlist : TsCacheItem → Playlist
unfolding list_keys
gen_m3u8_playlist c =
    let ((longest, first), es) = list_keys c.lm c.ll ((0, none), []) in
    record { target_duration = longest / 1000 + 1; media_sequence = seq_of first; entries = es }
