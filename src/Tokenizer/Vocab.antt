-- ===== src/Tokenizer/Vocab.antt =====
-- `parse_sentencepiece_vocab` of conditioners/text.rs. An error and a panic are both an `err`; the
-- sums of positions wrap, as in a release build. A loop that does not end by itself is `unfinished`
-- at every fuel.
pub mod Pieces
pub mod Endless
use vvaves.Common.{
  ℕ, zero, suc, ◌+◌, ◌-◌, ◌/◌, ◌%◌, ◌^◌, bit_and, Bool, true, false, ◌&&◌, Option, none, some, List,
  [], ◌∷◌, ◌++◌, length, take, drop, is_empty, ltb, leb, ◌==◌, if◌then◌else◌,
}
use vvaves.Common.Results.{Result, ok, err, ◌>>=◌}
use vvaves.Tokenizer.{read_varint, encode_varint}

pub data Outcome (A : Type 0) : Type 0 where
  finished : Result A → Outcome A
  unfinished : Outcome A

-- What comes after a read, and after a loop.
abbrev pub and_then : {A B : Type 0} → Result A → (A → Outcome B) → Outcome B
and_then err k = finished err
and_then (ok a) k = k a

abbrev pub next : {A B : Type 0} → Outcome A → (A → Outcome B) → Outcome B
next unfinished k = unfinished
next (finished r) k = and_then r k

-- `pos + n` of a `usize`
abbrev pub forth : ℕ → ℕ → ℕ
forth pos n = (pos + n) % 2 ^ 64

-- `&data[a..b]`, which panics out of range.
pub slice : List ℕ → ℕ → ℕ → Result (List ℕ)
slice bytes a b = if leb a b && leb b (length bytes) then ok (take (b - a) (drop a bytes)) else err

-- The variables of the loop over the fields of a piece.
pub record Inner (F : Type 0) : Type 0 where
  pub piece : List ℕ
  pub score : F
  pub unk_id : ℕ
  pub inner_pos : ℕ

-- The variables of the loop over the fields of the file.
pub record Outer (F : Type 0) : Type 0 where
  pub vocab : List (List ℕ × F)
  pub unk_id : ℕ
  pub pos : ℕ

-- `String::from_utf8_lossy`, with a string as its bytes, and `f32::from_le_bytes` as an `f64`.
module _ {F : Type 0} (lossy : List ℕ → List ℕ) (score_of : List ℕ → F) (zero_score : F)
    (bytes : List ℕ) where
  read_piece : Inner F → Result (Inner F)
  unfolding slice
  read_piece s = do
    (len, p) ← read_varint bytes s.inner_pos
    text ← slice bytes p (forth p len)
    ok (record s { piece = lossy text; inner_pos = forth p len })

  -- Nothing is read, and nothing skipped, where fewer than four bytes are left.
  read_score : Inner F → Result (Inner F)
  unfolding slice
  read_score s =
      if leb (forth s.inner_pos 4) (length bytes)
      then (do
        four ← slice bytes s.inner_pos (forth s.inner_pos 4)
        ok (record s { score = score_of four; inner_pos = forth s.inner_pos 4 }))
      else ok s

  -- The type 2 is UNKNOWN; `count` is the length of the vocabulary.
  read_type : ℕ → Inner F → Result (Inner F)
  read_type count s = do
    (type_val, p) ← read_varint bytes s.inner_pos
    ok (record s { unk_id = if type_val == 2 then count else s.unk_id; inner_pos = p })

  skip_varint : ℕ → Result ℕ
  skip_varint pos = do (value, p) ← read_varint bytes pos; ok p

  skip_delimited : ℕ → Result ℕ
  skip_delimited pos = do (len, p) ← read_varint bytes pos; ok (forth p len)

  at_pos : Inner F → Result ℕ → Result (Inner F)
  at_pos s r = do p ← r; ok (record s { inner_pos = p })

  moved : Outer F → Result ℕ → Outcome (Option (Outer F))
  moved s r = and_then r (λ p. finished (ok (some (record s { pos = p }))))

  pub inner_field : ℕ → ℕ → ℕ → ℕ → Inner F → Result (Inner F)
  unfolding read_piece read_score read_type skip_varint skip_delimited at_pos
  inner_field end count field wire s =
      if (field == 1) && (wire == 2)
      then read_piece s
      else if (field == 2) && (wire == 5)
      then read_score s
      else if (field == 3) && (wire == 0)
      then read_type count s
      else if wire == 0
      then at_pos s (skip_varint s.inner_pos)
      else if wire == 2
      then at_pos s (skip_delimited s.inner_pos)
      else if wire == 5
      then ok (record s { inner_pos = forth s.inner_pos 4 })
      else if wire == 1
      then ok (record s { inner_pos = forth s.inner_pos 8 })
      else ok (record s { inner_pos = end })

  pub inner_step : ℕ → ℕ → Inner F → Result (Inner F)
  unfolding inner_field
  inner_step end count s = do
    (tag, p) ← read_varint bytes s.inner_pos
    inner_field end count (tag / 2 ^ 3) (bit_and tag 7) (record s { inner_pos = p })

  -- The loop while `inner_pos < end`.
  pub inner_loop : ℕ → ℕ → ℕ → Inner F → Outcome (Inner F)
  unfolding inner_step
  inner_loop zero end count s = if ltb s.inner_pos end then unfinished else finished (ok s)
  inner_loop (suc fuel) end count s =
      if ltb s.inner_pos end
      then and_then (inner_step end count s) (λ s'. inner_loop fuel end count s')
      else finished (ok s)

  -- A piece without text is left out.
  pub add_piece : ℕ → Outer F → Inner F → Outer F
  add_piece end s inner = record s {
    vocab = if is_empty inner.piece then s.vocab else s.vocab ++ ((inner.piece, inner.score) ∷ []);
    unk_id = inner.unk_id;
    pos = end;
  }

  pub new_inner : Outer F → ℕ → Inner F
  new_inner s p = record { piece = []; score = zero_score; unk_id = s.unk_id; inner_pos = p }

  -- `some` with the loop's next state, or `none` at a break.
  unfoldable pub outer_field : ℕ → ℕ → ℕ → Outer F → Outcome (Option (Outer F))
  unfolding inner_loop add_piece new_inner moved skip_varint skip_delimited
  outer_field fuel field wire s =
      if (field == 1) && (wire == 2)
      then and_then (read_varint bytes s.pos) (λ r.
        next (inner_loop fuel (forth r.1 r.0) (length s.vocab) (new_inner s r.1))
          (λ inner. finished (ok (some (add_piece (forth r.1 r.0) s inner)))))
      else if wire == 0
      then moved s (skip_varint s.pos)
      else if wire == 2
      then moved s (skip_delimited s.pos)
      else if wire == 5
      then moved s (ok (forth s.pos 4))
      else if wire == 1
      then moved s (ok (forth s.pos 8))
      else finished (ok none)

  unfoldable pub outer_step : ℕ → Outer F → Outcome (Option (Outer F))
  unfolding outer_field
  outer_step fuel s =
      and_then (read_varint bytes s.pos)
        (λ r. outer_field fuel (r.0 / 2 ^ 3) (bit_and r.0 7) (record s { pos = r.1 }))

  -- The loop while `pos < data.len()`. A loop over a piece's fields gets the file's length as fuel.
  unfoldable pub outer_loop : ℕ → Outer F → Outcome (Outer F)
  unfolding outer_step
  outer_loop zero s = if ltb s.pos (length bytes) then unfinished else finished (ok s)
  outer_loop (suc fuel) s =
      if ltb s.pos (length bytes)
      then next (outer_step (length bytes) s)
          (λ r. elim r [ none ↦ finished (ok s) | some s' ↦ outer_loop fuel s' ])
      else finished (ok s)

  pub checked : Outer F → Result (List (List ℕ × F) × ℕ)
  checked s = if is_empty s.vocab then err else ok (s.vocab, s.unk_id)

  pub parse_sentencepiece_vocab : Outcome (List (List ℕ × F) × ℕ)
  unfolding outer_loop checked
  parse_sentencepiece_vocab =
      next (outer_loop (length bytes) (record { vocab = []; unk_id = 0; pos = 0 }))
        (λ s. finished (checked s))
