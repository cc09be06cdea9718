-- ===== src/Hls.antt =====
-- protocol/hls: segments of a stream for a player over HTTP.
pub mod Align
pub mod AudioCache
pub mod Status
pub mod Window
pub mod Keys
pub mod Listing
pub mod Recent
