-- ===== src/Batch/Examples.antt =====
-- A small model, and a batcher of two streams.
use vvaves.Common.{
  Bool, replicate, ℕ, ◌+◌, ◌≡◌, refl, true, false, none, some, List, [], ◌∷◌, map, length, arith,
  ◌==◌, if◌then◌else◌,
}
use vvaves.Common.Results.{Result, ok, err}
use vvaves.Text.Chars.{Unicode}
use vvaves.Batch.{
  stream_of, Model, Stream, Frame, Batcher, new, add, add_layers, admitted, remove_at, advance_all,
  advanced, is_done, remove_done, settled, stepped, step, push_layers,
}
use vvaves.Batch.Rows.{InStep}
use vvaves.Batch.Calls.{made, added, moved_on, Reached-InStep, failed_step-streams}
use vvaves.Batch.Survivors.{going, step-streams}
use vvaves.Text.Chars.{
  trim, trim_end, trim_start, is_whitespace, word_count, split_whitespace, words_from,
}
use vvaves.Text.Pause.{strip_pause_markers, strip_from, marker_at, strip_prefix}
use vvaves.Text.Prompt.{
  prepare_text_prompt, max_gen_len, prepared, punctuated, last_char, capitalised, halve_spaces,
  line_breaks_to_spaces, estimate_frames_after_eos,
}
use vvaves.Batch.Ends.{steps, steps-end, reading-ends}

-- Two layers; a step of noise 0 fails, and the end of speech comes when it is 9.
abbrev toy : Model
toy = record {
  Voice = ℕ;
  Item = ℕ;
  Latent = ℕ;
  MimiState = ℕ;
  Audio = ℕ;
  Noise = ℕ;
  zero_item = 0;
  to_dtype = λ x. x;
  bos_emb = 1;
  init_states = 0;
  num_layers = 2;
  prompted = λ text voice. ok (λ i. some (voice ∷ i ∷ [], 2));
  forward_stacked = λ noise inputs caches.
      if noise == 0
      then ([], err)
      else (map (λ c. inputs) caches, ok (map (λ l. (l + 1, noise == 9)) inputs));
  decode = λ latent mimi step. (mimi + 1, ok (latent + step));
}

abbrev latin : Unicode
latin = record {
  is_uppercase = λ c. false;
  to_uppercase = λ c. c ∷ [];
  is_alphanumeric = λ c. true;
  is_digit = λ c. false;
}

abbrev hello : List ℕ
hello = 104 ∷ 105 ∷ []

abbrev one : Batcher ℕ ℕ ℕ
one = (add toy latin (new toy) hello 5).0

one-ok : (add toy latin (new toy) hello 5).1 ≡ ok 0
unfolding add admitted add_layers new
one-ok = refl

new_idle : (new toy).streams ≡ []
unfolding new
new_idle = refl

abbrev later : Batcher ℕ ℕ ℕ
later = (step toy 4 one).0

Reached-InStep_example : InStep toy later
Reached-InStep_example =
    Reached-InStep toy latin later (moved_on one 4 (added (new toy) hello 5 0 (made) one-ok))

abbrev stream_at : ℕ → ℕ → ℕ → Stream ℕ ℕ
stream_at id at bound = record {
  id = id;
  mimi_state = 0;
  backbone_input = 1;
  step = at;
  max_gen_len = bound;
  frames_after_eos = 3;
  eos_step = none;
}

-- A stream with a frame left and one with two.
abbrev two : Batcher ℕ ℕ ℕ
two = record { caches = []; streams = stream_at 4 1 2 ∷ stream_at 7 0 2 ∷ []; next_id = 8 }

abbrev two_frames : List (Frame ℕ)
two_frames =
    record { id = 4; audio = 3; done = true } ∷ record { id = 7; audio = 2; done = false } ∷ []

abbrev two_after : Batcher ℕ ℕ ℕ
two_after = record {
  caches = [];
  streams = record (stream_at 7 1 2) { mimi_state = 1; backbone_input = 2 } ∷ [];
  next_id = 8;
}

two-step : step toy 4 two ≡ (two_after, ok two_frames)
unfolding step stepped settled advance_all advanced is_done remove_done remove_at push_layers
two-step = refl

step-streams_example :
    (map (λ f. f.id) two_frames ≡ map (λ s. s.id) two.streams)
    × (map (λ s. s.id) two_after.streams ≡ going two_frames (map (λ s. s.id) two.streams))
step-streams_example = step-streams toy 4 two two_after two_frames two-step

abbrev none_left : Batcher ℕ ℕ ℕ
none_left = record { caches = []; streams = []; next_id = 8 }

two-steps : steps toy (4 ∷ 4 ∷ []) two ≡ ok none_left
unfolding steps step stepped settled advance_all advanced is_done remove_done remove_at push_layers
two-steps = refl

steps-end_example : none_left.streams ≡ []
steps-end_example =
    steps-end toy (4 ∷ 4 ∷ []) two none_left (omega arith, (omega arith, tt))
      (omega arith, (omega arith, tt)) two-steps

two-fails : step toy 0 two ≡ (two, err)
unfolding step stepped push_layers
two-fails = refl

failed_step-streams_example : length two.streams ≡ length two.streams
failed_step-streams_example = failed_step-streams toy 0 two two two-fails

abbrev draws : List ℕ
draws = replicate 39 9

abbrev read_out : Result (Batcher ℕ ℕ ℕ)
read_out = steps toy draws one

abbrev or_none : Result (Batcher ℕ ℕ ℕ) → Batcher ℕ ℕ ℕ
or_none (ok b) = b
or_none err = none_left

abbrev is_ok : Result (Batcher ℕ ℕ ℕ) → Bool
is_ok (ok b) = true
is_ok err = false

ok-or_none : (r : Result (Batcher ℕ ℕ ℕ)) → is_ok r ≡ true → r ≡ ok (or_none r)
ok-or_none (ok b) e = refl
ok-or_none err e = cc

draws-enough : length draws ≡ max_gen_len (prepare_text_prompt latin hello)
unfolding max_gen_len prepare_text_prompt prepared punctuated last_char capitalised halve_spaces
    line_breaks_to_spaces strip_pause_markers strip_from marker_at strip_prefix trim trim_end
    trim_start is_whitespace word_count split_whitespace words_from
draws-enough = refl

read_out-ok : is_ok read_out ≡ true
unfolding steps step stepped settled advance_all advanced is_done remove_done remove_at push_layers
    add admitted add_layers new stream_of max_gen_len prepare_text_prompt prepared punctuated
    last_char capitalised halve_spaces line_breaks_to_spaces strip_pause_markers strip_from
    marker_at strip_prefix trim trim_end trim_start is_whitespace word_count split_whitespace
    words_from estimate_frames_after_eos
read_out-ok = refl

reading-ends_example : (or_none read_out).streams ≡ []
reading-ends_example =
    reading-ends toy latin (new toy) (or_none read_out) hello 5 0 draws new_idle one-ok draws-enough
      (ok-or_none read_out read_out-ok)
