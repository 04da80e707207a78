-- ===== src/KvCache.antt =====
-- The key/value caches of apps/tts/crates/engine/src/modules/attention.rs. A cache is modelled
-- along its time axis (dimension 2): an item is the key and value slice of one time step, for all
-- heads of a row.
pub mod Pow2
pub mod Stacked
pub mod Streaming
mod Examples
pub mod VoiceState
