-- ===== src/Tokenizer/Vocab/Endless.antt =====
-- A field whose length makes the sum of positions wrap.
use vvaves.Common.{
  ℕ, zero, suc, ◌-◌, ◌^◌, ◌<◌, ◌≡◌, refl, some, List, [], ◌∷◌, ◌++◌, length, arith, lt→ltb,
}
use vvaves.Common.Results.{ok}
use vvaves.Tokenizer.{encode_varint, read_varint}
use vvaves.Tokenizer.Vocab.{finished, unfinished, Outer, outer_loop, outer_step}

-- A field to be skipped, 11 bytes with its length, which brings the position back to 0.
pub looping : List ℕ → List ℕ
looping rest = 0x12 ∷ (encode_varint (2 ^ 64 - 11) ++ rest)

module _ {F : Type 0} (lossy : List ℕ → List ℕ) (score_of : List ℕ → F) (zero_score : F) where
  abbrev start : Outer F
  start = record { vocab = []; unk_id = 0; pos = 0 }

  step-back :
      (fuel : ℕ) (rest : List ℕ)
      → outer_step lossy score_of zero_score (looping rest) fuel start ≡ finished (ok (some start))
  unfolding looping outer_step encode_varint read_varint
  step-back fuel rest = refl

  looping-some : (rest : List ℕ) → 0 < length (looping rest)
  unfolding looping
  looping-some rest = omega arith

  -- On a file that begins with the field 0x12 of length 2^64 - 11 the loop over the file's fields
  -- does not end, however often it is run.
  pub looping-unfinished :
      (fuel : ℕ) (rest : List ℕ)
      → outer_loop lossy score_of zero_score (looping rest) fuel start ≡ unfinished
  unfolding outer_loop
  looping-unfinished zero rest = rw (lt→ltb 0 (length (looping rest)) (looping-some rest)) refl
  looping-unfinished (suc fuel) rest =
      rw
        (
          lt→ltb 0 (length (looping rest)) (looping-some rest),
          step-back (length (looping rest)) rest,
        )
        (looping-unfinished fuel rest)
