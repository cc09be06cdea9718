-- ===== src/Amf.antt =====
-- protocol/amf: the Action Message Format, version 0.
pub mod Value
pub mod Encoder
pub mod Decoder
pub mod Format
pub mod Maps
pub mod RoundTrip
pub mod Termination
pub mod Metadata
pub mod Reform
pub mod Batch
pub mod Version3
