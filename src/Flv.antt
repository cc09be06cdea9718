-- ===== src/Flv.antt =====
-- container/flv: the tags of FLV media.
pub mod Tag
pub mod Demuxer
