-- ===== src/Av.antt =====
-- av/av.go: the constants that the other packages test.
pub mod Packet
pub mod Timestamps
use yoshiera_huang_livego.Prelude.{ℕ}

abbrev pub tag_audio : ℕ
tag_audio = 8

abbrev pub tag_video : ℕ
tag_video = 9

abbrev pub tag_script_data_amf0 : ℕ
tag_script_data_amf0 = 18

abbrev pub tag_script_data_amf3 : ℕ
tag_script_data_amf3 = 0xf

abbrev pub sound_aac : ℕ
sound_aac = 10

abbrev pub aac_seq_header : ℕ
aac_seq_header = 0

abbrev pub avc_seq_header : ℕ
avc_seq_header = 0

abbrev pub frame_key : ℕ
frame_key = 1

abbrev pub frame_inter : ℕ
frame_inter = 2

abbrev pub video_h264 : ℕ
video_h264 = 7
