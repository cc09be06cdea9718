-- ===== src/Hls/Align.antt =====
-- protocol/hls/align.go: timestamps of audio frames, moved to a regular distance.
use yoshiera_huang_livego.Prelude.{
  ℕ, ◌+◌, ◌-◌, ◌*◌, ◌%◌, ◌^◌, ◌≤◌, ◌<◌, ◌≡◌, arith, inl, inr, Bool-cases, leb, if◌then◌else◌,
}

-- syncms and defaultH264Hz
abbrev pub sync_ms : ℕ
sync_ms = 2

abbrev pub default_h264_hz : ℕ
default_h264_hz = 90

pub record Align : Type 0 where
  pub frame_num : ℕ
  pub frame_base : ℕ

abbrev pub distance : ℕ → ℕ → ℕ
distance est dts = if leb dts est then est - dts else dts - est

-- `align`, with the timestamp that it leaves in `*dts`
unfoldable pub align : Align → ℕ → ℕ → Align × ℕ
align a dts inc =
    let est = (a.frame_base + a.frame_num * inc) % 2 ^ 64 in
    if leb (distance est dts) (sync_ms * default_h264_hz)
    then (record a { frame_num = (a.frame_num + 1) % 2 ^ 64 }, est)
    else (record { frame_num = 1; frame_base = dts }, dts)

-- A timestamp of 64 bits is moved by at most 180 ticks, and the next one is expected `inc` ticks
-- behind it, up to the wrap of 64 bits, while the number of frames is below 2 ^ 64 - 1.
pub align-near :
    (a : Align) (dts inc : ℕ)
    → dts < 2 ^ 64
    → a.frame_num < 2 ^ 64 - 1
    → let (a', dts') = align a dts inc in
      (dts' ≤ dts + 180)
      × (dts ≤ dts' + 180)
      × ((a'.frame_base + a'.frame_num * inc) % 2 ^ 64 ≡ (dts' + inc) % 2 ^ 64)
unfolding align
align-near a dts inc fits few =
    let est = (a.frame_base + a.frame_num * inc) % 2 ^ 64 in
    elim (Bool-cases (leb (distance est dts) 180)) [
      | inl e ↦
          let close : (est ≤ dts + 180) × (dts ≤ est + 180) = ground (arith, e) in
          let count : (a.frame_num + 1) % 2 ^ 64 ≡ a.frame_num + 1 = omega arith in
          let more : (a.frame_num + 1) * inc ≡ a.frame_num * inc + inc = omega arith in
          rw (e, count, more) (close.0, close.1, omega arith)
      | inr e ↦ rw e (omega arith, omega arith, omega arith)
    ]
