-- ===== src/Runs/Segments.antt =====
-- Segments, timestamps and audio frames of a stream over HTTP.
use yoshiera_huang_livego.Prelude.{
  ℕ, ◌+◌, ◌*◌, ◌%◌, ◌^◌, ◌≤◌, ◌≡◌, refl, arith, true, false, List, [], ◌∷◌, ◌++◌, length, min,
}
use yoshiera_huang_livego.Hls.Align.{Align, align, align-near}
use yoshiera_huang_livego.Hls.AudioCache.{
  new_audio_cache, cache_all, get_frame, joined, get_frame-cache_all,
}
use yoshiera_huang_livego.Hls.Status.{
  new_status, update_all, reset_and_new, duration_ms, duration_ms-reset_and_new,
}
use yoshiera_huang_livego.Hls.Window.{
  TsItem, new_ts_item, TsCacheItem, new_ts_cache_item, set_item, get_item, gen_m3u8_playlist,
}
use yoshiera_huang_livego.Hls.Keys.{Kept, find}
use yoshiera_huang_livego.Hls.Listing.{playlist_of}
use yoshiera_huang_livego.Hls.Recent.{Calls, start, call, Calls-recent}

abbrev aligned : Align
aligned = record { frame_num = 3; frame_base = 9000 }

align-near_example :
    let (a', dts') = align aligned 15100 2089 in
    (dts' ≤ 15100 + 180)
    × (15100 ≤ dts' + 180)
    × ((a'.frame_base + a'.frame_num * 2089) % 2 ^ 64 ≡ (dts' + 2089) % 2 ^ 64)
align-near_example = align-near aligned 15100 2089 (omega arith) (omega arith)

get_frame-cache_all_example :
    (get_frame (cache_all new_audio_cache ((1 ∷ 2 ∷ [], 90) ∷ (3 ∷ [], 180) ∷ []))).1 ≡ (
      length ((1 ∷ 2 ∷ []) ++ joined ((3 ∷ [], 180) ∷ [])),
      90,
      (1 ∷ 2 ∷ []) ++ joined ((3 ∷ [], 180) ∷ []),
    )
get_frame-cache_all_example =
    get_frame-cache_all new_audio_cache (1 ∷ 2 ∷ []) 90 ((3 ∷ [], 180) ∷ []) refl (omega arith)

duration_ms-reset_and_new_example :
    let t' = update_all (reset_and_new new_status) ((false, 1000) ∷ (true, 1040) ∷ []) in
    (duration_ms t' ≡ 40) × (t'.has_video ≡ true) × (t'.seq_id ≡ 1)
duration_ms-reset_and_new_example =
    duration_ms-reset_and_new new_status false 1000 ((true, 1040) ∷ [])

abbrev segment : ℕ → TsItem
segment n = new_ts_item (n ∷ []) (1000 * n) n (0 ∷ n ∷ [])

abbrev segments : List Kept
segments =
    ((([] ++ (1 ∷ [], segment 1) ∷ []) ++ (2 ∷ [], segment 2) ∷ []) ++ (3 ∷ [], segment 3) ∷ [])
    ++ (4 ∷ [], segment 4) ∷ []

abbrev four : TsCacheItem
four =
    set_item
      (set_item
        (set_item (set_item (new_ts_cache_item []) (1 ∷ []) (segment 1)) (2 ∷ []) (segment 2))
        (3 ∷ []) (segment 3))
      (4 ∷ []) (segment 4)

four-Calls : Calls [] segments four
four-Calls =
    call (4 ∷ []) (segment 4)
      (call (3 ∷ []) (segment 3)
        (call (2 ∷ []) (segment 2) (call (1 ∷ []) (segment 1) start refl) refl) refl)
      refl

Calls-recent_example :
    (older : List Kept) × (recent : List Kept) × (older ++ recent ≡ segments)
    × (length recent ≡ min 3 (length segments))
    × (get_item four (1 ∷ []) ≡ find (1 ∷ []) recent)
    × (gen_m3u8_playlist four ≡ playlist_of recent)
Calls-recent_example = Calls-recent [] (1 ∷ []) four-Calls
