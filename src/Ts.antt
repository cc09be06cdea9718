-- ===== src/Ts.antt =====
-- container/ts: the muxer of transport streams.
pub mod Buffer
pub mod Crc
pub mod Pes
pub mod Muxer
pub mod Tables
mod Receiver
mod Front
mod Room
mod Sizes
mod Filling
mod Prepared
mod Rounds
mod Carrying
mod Units
mod Delivery
pub mod RoundTrip
pub mod Checksum
pub mod Sections
pub mod Invariant
