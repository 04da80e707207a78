-- ===== src/Encode.antt =====
-- apps/tts/crates/server/src/encode.rs and lame.rs: from a reading's samples to the bytes sent.
pub mod Trim
pub mod Lame
pub mod Format
pub mod Chunked
pub mod Samples
mod Examples
