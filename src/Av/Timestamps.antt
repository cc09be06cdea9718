-- ===== src/Av/Timestamps.antt =====
-- av/rwbase.go: the timestamps of a reader or writer. The clock of Alive and SetPreTime is left out.
use yoshiera_huang_livego.Prelude.{
  ℕ, ◌≡◌, refl, ◌∙◌, ap, max, arith, List, [], ◌∷◌, ltb, ◌==◌, if◌then◌else◌,
}
use yoshiera_huang_livego.Av.{tag_audio, tag_video}

-- RWBase
pub record Timestamps : Type 0 where
  pub base_timestamp : ℕ
  pub last_video_timestamp : ℕ
  pub last_audio_timestamp : ℕ

-- CalcBaseTimestamp
unfoldable pub calc_base_timestamp : Timestamps → Timestamps
calc_base_timestamp t = record t {
  base_timestamp =
      if ltb t.last_video_timestamp t.last_audio_timestamp
      then t.last_audio_timestamp
      else t.last_video_timestamp;
}

-- RecTimestamp
unfoldable pub rec_timestamp : ℕ → ℕ → Timestamps → Timestamps
rec_timestamp timestamp type_id t =
    if type_id == tag_video
    then record t { last_video_timestamp = timestamp }
    else if type_id == tag_audio
    then record t { last_audio_timestamp = timestamp }
    else t

-- The timestamps and types, recorded one after the other.
pub rec_all : List (ℕ × ℕ) → Timestamps → Timestamps
rec_all [] t = t
rec_all ((timestamp, type_id) ∷ l) t = rec_all l (rec_timestamp timestamp type_id t)

-- The last timestamp of a type, `last` before these.
abbrev pub last_of : ℕ → ℕ → List (ℕ × ℕ) → ℕ
last_of kind last [] = last
last_of kind last ((timestamp, type_id) ∷ l) =
    last_of kind (if type_id == kind then timestamp else last) l

rec_timestamp_lem :
    (timestamp type_id : ℕ) (t : Timestamps)
    → rec_timestamp timestamp type_id t ≡ record t {
      last_video_timestamp = if type_id == tag_video then timestamp else t.last_video_timestamp;
      last_audio_timestamp = if type_id == tag_audio then timestamp else t.last_audio_timestamp;
    }
unfolding rec_timestamp
rec_timestamp_lem timestamp type_id t = ground arith

rec_all_lem :
    (l : List (ℕ × ℕ)) (t : Timestamps)
    → rec_all l t ≡ record t {
      last_video_timestamp = last_of tag_video t.last_video_timestamp l;
      last_audio_timestamp = last_of tag_audio t.last_audio_timestamp l;
    }
unfolding rec_all
rec_all_lem [] t = refl
rec_all_lem ((timestamp, type_id) ∷ l) t =
    let later : Timestamps → Timestamps = λ t. record t {
      last_video_timestamp = last_of tag_video t.last_video_timestamp l;
      last_audio_timestamp = last_of tag_audio t.last_audio_timestamp l;
    } in
    rec_all_lem l (rec_timestamp timestamp type_id t)
    ∙ ap later (rec_timestamp_lem timestamp type_id t)

-- After any recording, the base timestamp is the greater of the last timestamp of a video packet
-- and the last one of an audio packet; other packets count for nothing.
pub calc_base_timestamp-rec_all :
    (l : List (ℕ × ℕ)) (t : Timestamps)
    → (calc_base_timestamp (rec_all l t)).base_timestamp
      ≡ max
          (last_of tag_video t.last_video_timestamp l)
          (last_of tag_audio t.last_audio_timestamp l)
unfolding calc_base_timestamp
calc_base_timestamp-rec_all l t = rw (rec_all_lem l t) (ground arith)
