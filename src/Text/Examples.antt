-- ===== src/Text/Examples.antt =====
-- A text of two sentences, with a token for each character.
use vvaves.Common.{none, max, ◌≤◌, ◌+◌, ◌-◌, ◌/◌, ℕ, ◌*◌, ◌≡◌, some, false, [], ◌∷◌, length}
use vvaves.Text.Chars.{Text, Unicode}
use vvaves.Text.Chars
use vvaves.Text.Prompt.{
  prepare_text_prompt, adaptive_voice_prompt_chunk_frames,
  adaptive_voice_prompt_chunk_frames-bounds,
}
use vvaves.Text.Ink.{ink, ink_all}
use vvaves.Text.Pause.{strip_pause_markers}
use vvaves.Text.Pause.Found.{Durations, found_from, placed_pauses}
use vvaves.Text.Pause.Places.{AllSpaces, placed_pauses-AllSpaces}
use vvaves.Text.Sentences.{split_into_best_sentences}
use vvaves.Text.Sentences.Letters.{split-ink}

abbrev caseless : Unicode
caseless = record {
  is_uppercase = λ c. false;
  to_uppercase = λ c. c ∷ [];
  is_alphanumeric = λ c. false;
  is_digit = λ c. Chars.is_ascii_digit c;
}

abbrev greeting : Text
greeting = Chars.codes "Hello there. How are you?"

split-ink_example :
    ink_all (split_into_best_sentences (λ t. some (length t)) caseless greeting)
    ≡ ink (prepare_text_prompt caseless greeting)
split-ink_example = split-ink (λ t. some (length t)) caseless greeting

abbrev whole_seconds : Durations
whole_seconds = record {
  F = ℕ;
  parse = λ whole fraction. some (length whole);
  times_1000 = λ n. n * 1000;
  as_u32 = λ n. n;
}

abbrev paused : Text
paused = Chars.codes "Wait [pause:1s] then [pause:500ms] go."

placed_pauses-AllSpaces_example :
    AllSpaces
      (strip_pause_markers caseless paused)
      (placed_pauses whole_seconds (found_from caseless 0 paused 0) 0)
placed_pauses-AllSpaces_example = placed_pauses-AllSpaces whole_seconds caseless paused

adaptive_voice_prompt_chunk_frames-bounds_example :
    let n = adaptive_voice_prompt_chunk_frames none 700000 1920 in
    (1 ≤ n) × (n ≤ 240) × (n ≤ max 1 ((700000 + (1920 - 1)) / 1920))
adaptive_voice_prompt_chunk_frames-bounds_example =
    adaptive_voice_prompt_chunk_frames-bounds 700000 1920
