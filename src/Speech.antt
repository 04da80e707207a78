-- ===== src/Speech.antt =====
-- apps/tts/crates/server/src/main.rs: what the speech handler sends of a reading.
pub mod Stream
pub mod Buffered
mod Examples
