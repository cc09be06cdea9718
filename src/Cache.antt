-- ===== src/Cache.antt =====
-- protocol/rtmp/cache: what a stream keeps for the players that join late.
pub mod Gop
pub mod Special
pub mod Store
pub mod LateJoin
