-- ===== src/Rtmp.antt =====
-- protocol/rtmp/core: the RTMP chunk layer.
pub mod ReadWriter
pub mod ChunkStream
pub mod Conn
pub mod Session
pub mod Handshake
