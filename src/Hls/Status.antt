-- ===== src/Hls/Status.antt =====
-- protocol/hls/status.go: how long a segment is so far. The two times of the clock are left out.
use yoshiera_huang_livego.Prelude.{
  ℕ, ◌+◌, ◌-◌, ◌%◌, ◌^◌, ◌≡◌, refl, Bool, true, false, ◌||◌, List, [], ◌∷◌, if◌then◌else◌,
}

pub record Status : Type 0 where
  pub has_video : Bool
  pub seq_id : ℕ
  pub has_set_first_ts : Bool
  pub first_timestamp : ℕ
  pub last_timestamp : ℕ

-- newStatus
abbrev pub new_status : Status
new_status = record {
  has_video = false;
  seq_id = 0;
  has_set_first_ts = false;
  first_timestamp = 0;
  last_timestamp = 0;
}

-- update
abbrev pub with_video : Bool → Status → Status
with_video is_video t = if is_video then record t { has_video = true } else t

abbrev pub with_first : ℕ → Status → Status
with_first timestamp t =
    if t.has_set_first_ts
    then t
    else record t { has_set_first_ts = true; first_timestamp = timestamp }

unfoldable pub update : Status → Bool → ℕ → Status
update t is_video timestamp = record (with_first timestamp (with_video is_video t)) {
  last_timestamp = timestamp;
}

-- resetAndNew
unfoldable pub reset_and_new : Status → Status
reset_and_new t = record t {
  seq_id = (t.seq_id + 1) % 2 ^ 64;
  has_video = false;
  has_set_first_ts = false;
}

-- durationMs, as an int64
unfoldable pub duration_ms : Status → ℕ
duration_ms t = (t.last_timestamp + (2 ^ 64 - t.first_timestamp)) % 2 ^ 64

-- Packets with their timestamps.
unfoldable pub update_all : Status → List (Bool × ℕ) → Status
update_all t [] = t
update_all t ((is_video, timestamp) ∷ ps) = update_all (update t is_video timestamp) ps

abbrev pub last_of : ℕ → List (Bool × ℕ) → ℕ
last_of n [] = n
last_of n ((is_video, timestamp) ∷ ps) = last_of timestamp ps

abbrev pub any_video : List (Bool × ℕ) → Bool
any_video [] = false
any_video ((is_video, timestamp) ∷ ps) = is_video || any_video ps

later :
    (ps : List (Bool × ℕ)) (video : Bool) (seq first last : ℕ)
    → update_all
        (record {
          has_video = video;
          seq_id = seq;
          has_set_first_ts = true;
          first_timestamp = first;
          last_timestamp = last;
        })
        ps
      ≡ record {
        has_video = video || any_video ps;
        seq_id = seq;
        has_set_first_ts = true;
        first_timestamp = first;
        last_timestamp = last_of last ps;
      }
unfolding update_all update
later [] true seq first last = refl
later [] false seq first last = refl
later ((true, t) ∷ ps) true seq first last = later ps true seq first t
later ((true, t) ∷ ps) false seq first last = later ps true seq first t
later ((false, t) ∷ ps) true seq first last = later ps true seq first t
later ((false, t) ∷ ps) false seq first last = later ps false seq first t

-- After a reset and one packet or more, the duration is the timestamp of the last packet less that of
-- the first, as an int64, the segment has video if one of the packets is video, and its number is
-- one more than that of the segment before, up to the wrap of 64 bits.
pub duration_ms-reset_and_new :
    (t : Status) (is_video : Bool) (timestamp : ℕ) (ps : List (Bool × ℕ))
    → let t' = update_all (reset_and_new t) ((is_video, timestamp) ∷ ps) in
      (duration_ms t' ≡ (last_of timestamp ps + (2 ^ 64 - timestamp)) % 2 ^ 64)
      × (t'.has_video ≡ is_video || any_video ps)
      × (t'.seq_id ≡ (t.seq_id + 1) % 2 ^ 64)
unfolding update_all update reset_and_new duration_ms
duration_ms-reset_and_new t true timestamp ps =
    let all = later ps true ((t.seq_id + 1) % 2 ^ 64) timestamp timestamp in
    rw all (refl, refl, refl)
duration_ms-reset_and_new t false timestamp ps =
    let all = later ps false ((t.seq_id + 1) % 2 ^ 64) timestamp timestamp in
    rw all (refl, refl, refl)
