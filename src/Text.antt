-- ===== src/Text.antt =====
-- How the engine reads text (apps/tts/crates/engine/src: pause.rs and the text functions of
-- tts_model.rs). A text is the list of its code points; a `str` is valid UTF-8, so nothing is lost.
pub mod Chars
pub mod Pause
pub mod Prompt
pub mod Ink
pub mod Sentences
mod Examples
