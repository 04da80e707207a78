-- ===== src/Tokenizer/Vocab/Pieces.antt =====
-- A file of pieces: what `encode_piece` of conditioners/text.rs writes, and its parsing field by
-- field.
pub mod Parsed
pub mod File
use native.Mathlib.Nat.{mod-eq_of_lt}
use vvaves.Common.{
  ℕ, zero, suc, ◌+◌, ◌-◌, ◌*◌, ◌/◌, ◌%◌, ◌^◌, ◌≤◌, ◌<◌, bit_and, ◌≡◌, refl, ap, ap₂, subst, sym,
  ◌∙◌, Bool, true, false, Option, none, some, List, [], ◌∷◌, ◌++◌, length, take, drop, ltb, leb,
  ◌==◌, if◌then◌else◌, arith, length-append, length-drop, drop-drop, drop-length, take-length,
  lt→ltb, le→ltb, append_assoc,
}
use vvaves.Common.Results.{Result, ok, err, ◌>>=◌}
use vvaves.Tokenizer.{read_varint, encode_varint}
use vvaves.Tokenizer.Varint.{read_varint-at, read_varint-tag}
use vvaves.Tokenizer.Vocab.{
  Outcome, finished, and_then, slice, Inner, inner_step, inner_field, inner_loop, forth, read_piece,
  read_score, read_type,
}

-- A piece to be written: its text and its score as bytes, and its type.
pub record Entry : Type 0 where
  pub piece : List ℕ
  pub score : List ℕ
  pub piece_type : Option ℕ

unfoldable pub type_field : Option ℕ → List ℕ
type_field none = []
type_field (some t) = 0x18 ∷ encode_varint t

unfoldable pub message : Entry → List ℕ
unfolding type_field
message e =
    0x0a
    ∷ (encode_varint (length e.piece) ++ (e.piece ++ (0x15 ∷ (e.score ++ type_field e.piece_type))))

unfoldable pub encode_piece : Entry → List ℕ
unfolding message
encode_piece e = 0x0a ∷ (encode_varint (length (message e)) ++ message e)

module _ (bytes : List ℕ) where
  -- The bytes from `pos` on are `rest`.
  pub At : ℕ → List ℕ → Type 0
  At pos rest = (pos ≤ length bytes) × (drop pos bytes ≡ rest)

  pub at-length : (pos : ℕ) (rest : List ℕ) → At pos rest → pos + length rest ≡ length bytes
  unfolding At
  at-length pos rest at = omega (arith, at.0, length-drop pos bytes, ap length at.1)

  pub past : (pos : ℕ) (xs rest : List ℕ) → At pos (xs ++ rest) → At (pos + length xs) rest
  unfolding At
  past pos xs rest at = (
    omega (arith, at-length pos (xs ++ rest) at, length-append xs rest),
    sym (drop-drop pos (length xs) bytes) ∙ ap (drop (length xs)) at.1 ∙ drop-length xs rest,
  )

  pub past_one : (pos x : ℕ) (rest : List ℕ) → At pos (x ∷ rest) → At (suc pos) rest
  unfolding At
  past_one pos x rest at =
      let e : pos + 1 ≡ suc pos = omega arith in
      subst (λ p. At p rest) e (past pos (x ∷ []) rest at)

  pub slice-at :
      (pos : ℕ) (xs rest : List ℕ) → At pos (xs ++ rest) → slice bytes pos (pos + length xs) ≡ ok xs
  unfolding slice At
  slice-at pos xs rest at =
      let fits : pos + length xs ≤ length bytes =
        omega (arith, at-length pos (xs ++ rest) at, length-append xs rest) in
      let one : leb pos (pos + length xs) ≡ true = ground arith in
      let two : leb (pos + length xs) (length bytes) ≡ true = ground arith in
      let n : pos + length xs - pos ≡ length xs = omega arith in
      rw (one, two, n, at.1, take-length xs rest) refl

module _ {F : Type 0} (lossy : List ℕ → List ℕ) (score_of : List ℕ → F) (zero_score : F)
    (bytes : List ℕ) (fits : length bytes < 2 ^ 64) where
  abbrev step : ℕ → ℕ → Inner F → Result (Inner F)
  step = inner_step lossy score_of zero_score bytes

  step-tag :
      (end count tag : ℕ) (s : Inner F) (rest : List ℕ)
      → At bytes s.inner_pos (tag ∷ rest)
      → tag < 128
      → step end count s
        ≡ inner_field lossy score_of zero_score bytes end count
            (tag / 2 ^ 3)
            (bit_and tag 7)
            (record s { inner_pos = suc s.inner_pos })
  unfolding inner_step At
  step-tag end count tag s rest at h = rw (read_varint-tag bytes rest s.inner_pos tag at.1 h) refl

  pub piece_field :
      (end count : ℕ) (s : Inner F) (text rest : List ℕ)
      → At bytes s.inner_pos (0x0a ∷ (encode_varint (length text) ++ (text ++ rest)))
      → (q : ℕ) × (step end count s ≡ ok (record s { piece = lossy text; inner_pos = q }))
        × At bytes q rest
  unfolding inner_field read_piece At
  piece_field end count s text rest at =
      let p : ℕ = suc s.inner_pos in
      let code : List ℕ = encode_varint (length text) in
      let at1 : At bytes p (code ++ (text ++ rest)) =
        past_one bytes s.inner_pos 0x0a (code ++ (text ++ rest)) at in
      let p2 : ℕ = p + length code in
      let at2 : At bytes p2 (text ++ rest) = past bytes p code (text ++ rest) at1 in
      let q : ℕ = p2 + length text in
      let at3 : At bytes q rest = past bytes p2 text rest at2 in
      let short : length text < 2 ^ 64 =
        omega (arith, fits, at-length bytes p2 (text ++ rest) at2, length-append text rest) in
      let number : read_varint bytes p ≡ ok (length text, p2) =
        read_varint-at bytes (text ++ rest) p (length text) at1.1 short in
      let here : forth p2 (length text) ≡ q = mod-eq_of_lt (omega (arith, fits, at3.0)) in
      (
        q,
        step-tag end count 0x0a s (code ++ (text ++ rest)) at (omega arith)
            ∙ rw (number, here, slice-at bytes p2 text rest at2) refl,
        at3,
      )

  pub score_field :
      (end count : ℕ) (s : Inner F) (four rest : List ℕ)
      → At bytes s.inner_pos (0x15 ∷ (four ++ rest))
      → length four ≡ 4
      → (q : ℕ) × (step end count s ≡ ok (record s { score = score_of four; inner_pos = q }))
        × At bytes q rest
  unfolding inner_field read_score At
  score_field end count s four rest at four_long =
      let p : ℕ = suc s.inner_pos in
      let at1 : At bytes p (four ++ rest) = past_one bytes s.inner_pos 0x15 (four ++ rest) at in
      let q : ℕ = p + length four in
      let at2 : At bytes q rest = past bytes p four rest at1 in
      let here : forth p 4 ≡ q =
        ap (λ n. forth p n) (sym four_long) ∙ mod-eq_of_lt (omega (arith, fits, at2.0)) in
      let there : leb q (length bytes) ≡ true = ground (arith, at2.0) in
      (
        q,
        step-tag end count 0x15 s (four ++ rest) at (omega arith)
            ∙ rw (here, slice-at bytes p four rest at1, there) refl,
        at2,
      )

  pub kind_field :
      (end count t : ℕ) (s : Inner F) (rest : List ℕ)
      → At bytes s.inner_pos (0x18 ∷ (encode_varint t ++ rest))
      → t < 2 ^ 64
      → (q : ℕ) × (step end count s
          ≡ ok (record s { unk_id = if t == 2 then count else s.unk_id; inner_pos = q }))
        × At bytes q rest
  unfolding inner_field read_type At
  kind_field end count t s rest at small =
      let p : ℕ = suc s.inner_pos in
      let at1 : At bytes p (encode_varint t ++ rest) =
        past_one bytes s.inner_pos 0x18 (encode_varint t ++ rest) at in
      let q : ℕ = p + length (encode_varint t) in
      (
        q,
        step-tag end count 0x18 s (encode_varint t ++ rest) at (omega arith)
            ∙ rw (read_varint-at bytes rest p t at1.1 small) refl,
        past bytes p (encode_varint t) rest at1,
      )

  pub loop-on :
      (fuel end count : ℕ) (s s' : Inner F)
      → s.inner_pos < end
      → step end count s ≡ ok s'
      → inner_loop lossy score_of zero_score bytes (suc fuel) end count s
        ≡ inner_loop lossy score_of zero_score bytes fuel end count s'
  unfolding inner_loop
  loop-on fuel end count s s' going e = rw (lt→ltb s.inner_pos end going, e) refl

  pub loop-ends :
      (fuel end count : ℕ) (s : Inner F)
      → s.inner_pos ≡ end
      → inner_loop lossy score_of zero_score bytes fuel end count s ≡ finished (ok s)
  unfolding inner_loop
  loop-ends zero end count s e = let y : ltb s.inner_pos end ≡ false = ground arith in rw y refl
  loop-ends (suc fuel) end count s e =
      let y : ltb s.inner_pos end ≡ false = ground arith in rw y refl
