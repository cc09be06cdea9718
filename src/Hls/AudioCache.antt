-- ===== src/Hls/AudioCache.antt =====
-- protocol/hls/audio_cache.go: frames of audio that are put together to one.
use yoshiera_huang_livego.Prelude.{
  ℕ, ◌+◌, ◌*◌, ◌%◌, ◌^◌, ◌<◌, ◌≡◌, sym, ◌∙◌, arith, Bool, true, false, List, [], ◌∷◌, ◌++◌, length,
  length-append, append_assoc, append-nil, replicate, ◌==◌, if◌then◌else◌,
}

-- audioCacheLen
abbrev pub audio_cache_len : ℕ
audio_cache_len = 10 * 1024

-- The buffer is the list of the bytes in it.
pub record AudioCache : Type 0 where
  pub sound_format : ℕ
  pub num : ℕ
  pub offset : ℕ
  pub pts : ℕ
  pub buf : List ℕ

abbrev pub new_audio_cache : AudioCache
new_audio_cache = record {
  sound_format = 0;
  num = 0;
  offset = 0;
  pts = 0;
  buf = replicate audio_cache_len 0;
}

-- What the first frame does.
abbrev pub begun : AudioCache → ℕ → AudioCache
begun a pts = if a.num == 0 then record a { offset = 0; pts = pts; buf = [] } else a

-- Cache, which returns false always
unfoldable pub cache : AudioCache → List ℕ → ℕ → AudioCache × Bool
cache a src pts =
    let a = begun a pts in
    (
      record a { buf = a.buf ++ src; offset = a.offset + length src; num = (a.num + 1) % 2 ^ 8 },
      false,
    )

-- GetFrame
unfoldable pub get_frame : AudioCache → AudioCache × (ℕ × ℕ × List ℕ)
get_frame a = (record a { num = 0 }, (a.offset, a.pts, a.buf))

-- CacheNum
abbrev pub cache_num : AudioCache → ℕ
cache_num a = a.num

-- Frames with their timestamps, cached one after the other.
unfoldable pub cache_all : AudioCache → List (List ℕ × ℕ) → AudioCache
cache_all a [] = a
cache_all a ((src, pts) ∷ frames) = cache_all (cache a src pts).0 frames

-- The bytes of the frames.
abbrev pub joined : List (List ℕ × ℕ) → List ℕ
joined [] = []
joined ((src, pts) ∷ frames) = src ++ joined frames

-- A cache that holds frames.
behind_first :
    (frames : List (List ℕ × ℕ)) (a : AudioCache)
    → 0 < a.num
    → a.num + length frames < 2 ^ 8
    → (get_frame (cache_all a frames)).1
      ≡ (a.offset + length (joined frames), a.pts, a.buf ++ joined frames)
unfolding cache cache_all get_frame
behind_first [] a some_frame few =
    let sum : a.offset ≡ a.offset + 0 = omega arith in
    let all = sym (append-nil a.buf) in (λ i. (sum i, a.pts, all i))
behind_first ((src, pts) ∷ frames) a some_frame few =
    let counting : (a.num == 0) ≡ false = ground arith in
    let one_more : (a.num + 1) % 2 ^ 8 ≡ a.num + 1 = omega arith in
    let a1 : AudioCache = record a {
      buf = a.buf ++ src;
      offset = a.offset + length src;
      num = (a.num + 1) % 2 ^ 8;
    } in
    let sum : a.offset + length src + length (joined frames)
        ≡ a.offset + length (src ++ joined frames) =
      omega (arith, length-append src (joined frames)) in
    let all = append_assoc a.buf src (joined frames) in
    rw (cache_all, counting)
      (behind_first frames a1 (omega arith) (omega arith) ∙ (λ i. (sum i, a.pts, all i)))

-- GetFrame of a cache without frames that then gets one frame or more, at most 255, returns the
-- number of their bytes, the timestamp of the first and their bytes in order.
pub get_frame-cache_all :
    (a : AudioCache) (src : List ℕ) (pts : ℕ) (frames : List (List ℕ × ℕ))
    → cache_num a ≡ 0
    → length frames < 255
    → (get_frame (cache_all a ((src, pts) ∷ frames))).1
      ≡ (length (src ++ joined frames), pts, src ++ joined frames)
unfolding cache cache_all
get_frame-cache_all a src pts frames empty few =
    let first : (a.num == 0) ≡ true = ground arith in
    let one : (a.num + 1) % 2 ^ 8 ≡ 1 = omega arith in
    let a1 : AudioCache = record a {
      pts = pts;
      buf = src;
      offset = 0 + length src;
      num = (a.num + 1) % 2 ^ 8;
    } in
    let sum : 0 + length src + length (joined frames) ≡ length (src ++ joined frames) =
      omega (arith, length-append src (joined frames)) in
    rw first (
      behind_first frames a1 (omega arith) (omega arith)
      ∙ (λ i. (sum i, pts, src ++ joined frames)))
