-- ===== src/Runs.antt =====
-- Runs of the code on concrete inputs.
pub mod Integers
pub mod Transport
pub mod Cached
pub mod Limits
pub mod Messages
pub mod Keys
pub mod Streams
pub mod Versions
pub mod Segments
pub mod Sessions
