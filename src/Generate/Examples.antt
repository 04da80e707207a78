-- ===== src/Generate/Examples.antt =====
-- A short reading with a flow LM that hears the end of speech at once.
use vvaves.Common.{
  ℕ, ◌+◌, ◌≡◌, refl, true, false, some, arith, List, [], ◌∷◌, map, length, All, concat, replicate,
}
use vvaves.Common.Results.{ok, err}
use vvaves.Batch.{Model, stream_of}
use vvaves.Text.Chars.{Text, Unicode, codes, word_count}
use vvaves.Text.Prompt.{max_gen_len, estimate_frames_after_eos}
use vvaves.Generate.{Speaker, segment_frames}
use vvaves.Generate.Alone.{alone, rows_of, segment-alone}
use vvaves.Generate.VoicePrompt.{padded, voice_chunks, IsFrames, voice_chunks-IsFrames}
use vvaves.Generate.Bounds.{segment_frames-span}

abbrev toy : Model
toy = record {
  Voice = ℕ;
  Item = ℕ;
  Latent = ℕ;
  MimiState = ℕ;
  Audio = List ℕ;
  Noise = ℕ;
  zero_item = 0;
  to_dtype = λ x. x;
  bos_emb = 1;
  init_states = 0;
  num_layers = 0;
  prompted = λ text voice. err;
  forward_stacked = λ noise inputs caches. ([], err);
  decode = λ latent mimi step. (mimi + 1, ok (latent ∷ []));
}

abbrev speaker : Speaker ℕ ℕ (List ℕ)
speaker = record {
  State = ℕ;
  prompted = λ text voice. ok voice;
  forward = λ state latent step. (state, ok (latent + state, true));
  cat = λ chunks. ok (concat chunks);
  silence = λ n. ok (replicate n 0);
}

abbrev plain : Unicode
plain = record {
  is_uppercase = λ c. false;
  to_uppercase = λ c. c ∷ [];
  is_alphanumeric = λ c. false;
  is_digit = λ c. false;
}

abbrev hello : Text
hello = codes "hi"

segment-alone_example :
    segment_frames toy speaker hello hello (ok 3)
    ≡ map ok
        (alone toy (rows_of toy speaker (max_gen_len hello) 0 3 1) (stream_of toy 0 hello hello))
unfolding segment_frames max_gen_len word_count estimate_frames_after_eos
segment-alone_example =
    segment-alone toy speaker hello hello 0 3
      ((_, refl), ((_, refl), ((_, refl), ((_, refl), ((_, refl), ((_, refl), tt))))))

-- The flag at the first frame, and five frames more.
segment_frames-span_example : length (segment_frames toy speaker hello hello (ok 3)) ≡ 6
unfolding rows_of word_count segment_frames max_gen_len estimate_frames_after_eos
segment_frames-span_example =
    segment_frames-span toy speaker hello hello 3
      ((_, refl), ((_, refl), ((_, refl), ((_, refl), ((_, refl), ((_, refl), tt))))))

-- Three samples in frames of two.
voice_chunks-IsFrames_example :
    (concat {A = ℕ} (voice_chunks (some 1) 0 2 (7 ∷ 8 ∷ 9 ∷ [])) ≡ padded 0 2 (7 ∷ 8 ∷ 9 ∷ []))
    × All (IsFrames {A = ℕ} 2) (voice_chunks (some 1) 0 2 (7 ∷ 8 ∷ 9 ∷ []))
voice_chunks-IsFrames_example = voice_chunks-IsFrames (some 1) 0 2 (7 ∷ 8 ∷ 9 ∷ []) (omega arith)
