-- ===== src/Amf3.antt =====
-- protocol/amf: the Action Message Format, version 3.
pub mod Item
pub mod Encoder
pub mod Reader
pub mod External
pub mod Decoder
pub mod Integers
pub mod Format
pub mod Reading
pub mod RoundTrip
pub mod Marked
pub mod Takes
pub mod Parts
pub mod Lookups
pub mod Termination
