-- ===== src/Tokenizer/Vocab/Pieces/File.antt =====
-- A whole file of pieces is parsed to its vocabulary.
use vvaves.Common.{
  ℕ, zero, suc, ◌^◌, ◌≤◌, ◌<◌, ◌≡◌, refl, ap, ap₂, sym, ◌∙◌, false, List, [], ◌∷◌, ◌++◌, map,
  concat, All, is_empty, length, ltb, arith, length-append, lt→ltb, append_assoc, append-nil,
}
use vvaves.Common.Results.{ok}
use vvaves.Tokenizer.Vocab.{finished, Outer, outer_loop, checked, parse_sentencepiece_vocab}
use vvaves.Tokenizer.Vocab.Pieces.{Entry, encode_piece, At, at-length}
use vvaves.Tokenizer.Vocab.Pieces.Parsed.{unk_after, IsShortType, with_entry, piece-step}

unfoldable pub file : List Entry → List ℕ
file entries = concat (map encode_piece entries)

-- The place of the last piece of type UNKNOWN, counted from `count` on, or `unk`.
pub unk_of : List Entry → ℕ → ℕ → ℕ
unk_of [] count unk = unk
unk_of (e ∷ entries) count unk = unk_of entries (suc count) (unk_after e count unk)

-- A score has four bytes, a type is a `u64`, and the piece has text.
unfoldable pub IsEntry : (List ℕ → List ℕ) → Entry → Type 0
IsEntry lossy e =
    (length e.score ≡ 4) × IsShortType e.piece_type × (is_empty (lossy e.piece) ≡ false)

encode_piece-some : (e : Entry) → 0 < length (encode_piece e)
unfolding encode_piece
encode_piece-some e = omega arith

length-file : (entries : List Entry) → length entries ≤ length (file entries)
unfolding file
length-file [] = omega arith
length-file (e ∷ entries) =
    omega (
      arith,
      length-file entries,
      encode_piece-some e,
      length-append (encode_piece e) (file entries),
    )

module _ {F : Type 0} (lossy : List ℕ → List ℕ) (score_of : List ℕ → F) where
  pub vocab_of : List Entry → List (List ℕ × F)
  vocab_of entries = map (λ e. (lossy e.piece, score_of e.score)) entries

module _ {F : Type 0} (lossy : List ℕ → List ℕ) (score_of : List ℕ → F) (zero_score : F)
    (bytes : List ℕ) (fits : length bytes < 2 ^ 64) where
  loop-over :
      (fuel : ℕ) (s : Outer F)
      → s.pos ≡ length bytes
      → outer_loop lossy score_of zero_score bytes fuel s ≡ finished (ok s)
  unfolding outer_loop
  loop-over zero s e = let y : ltb s.pos (length bytes) ≡ false = ground arith in rw y refl
  loop-over (suc fuel) s e = let y : ltb s.pos (length bytes) ≡ false = ground arith in rw y refl

  file-loop :
      (entries : List Entry) (fuel : ℕ) (s : Outer F)
      → At bytes s.pos (file entries)
      → length entries ≤ fuel
      → All (IsEntry lossy) entries
      → (p : ℕ) × (outer_loop lossy score_of zero_score bytes fuel s
          ≡ finished (
              ok (record {
                vocab = s.vocab ++ vocab_of lossy score_of entries;
                unk_id = unk_of entries (length s.vocab) s.unk_id;
                pos = p;
              })))
  unfolding file unk_of vocab_of outer_loop IsEntry with_entry
  file-loop [] fuel s at enough valid =
      let all_read : s.pos ≡ length bytes = omega (arith, at-length bytes s.pos [] at) in
      (
        s.pos,
        loop-over fuel s all_read
            ∙ ap (λ v. finished (ok (record s { vocab = v }))) (sym (append-nil s.vocab)),
      )
  file-loop (e ∷ entries) zero s at enough valid = absurd (omega arith)
  file-loop (e ∷ entries) (suc fuel) s at enough valid =
      let (end, one, at_end, going) =
        piece-step lossy score_of zero_score bytes fits e s (file entries) at valid.0.0 valid.0.1
          valid.0.2 in
      let s' : Outer F = with_entry lossy score_of zero_score bytes fits e end s in
      let (p, rest) = file-loop entries fuel s' at_end (omega arith) valid.1 in
      let entry : List ℕ × F = (lossy e.piece, score_of e.score) in
      let more : length (s.vocab ++ (entry ∷ [])) ≡ suc (length s.vocab) =
        omega (arith, length-append s.vocab (entry ∷ [])) in
      let unk : ℕ = unk_after e (length s.vocab) s.unk_id in
      let same =
        ap₂ (λ v n. finished (ok (record { vocab = v; unk_id = unk_of entries n unk; pos = p })))
          (append_assoc s.vocab (entry ∷ []) (vocab_of lossy score_of entries)) more in
      (p, rw (lt→ltb s.pos (length bytes) going, one) (rest ∙ same))

-- A file of pieces that is shorter than 2^64 bytes, each with text, a score of four bytes and perhaps
-- a type, is parsed to their texts and scores in order, with the place of the last piece of type
-- UNKNOWN, or 0 if there is none.
pub parse-file :
    {F : Type 0} (lossy : List ℕ → List ℕ) (score_of : List ℕ → F) (zero_score : F) (e : Entry)
    (entries : List Entry)
    → length (file (e ∷ entries)) < 2 ^ 64
    → All (IsEntry lossy) (e ∷ entries)
    → parse_sentencepiece_vocab lossy score_of zero_score (file (e ∷ entries))
      ≡ finished (ok (vocab_of lossy score_of (e ∷ entries), unk_of (e ∷ entries) 0 0))
unfolding parse_sentencepiece_vocab checked At vocab_of
parse-file lossy score_of zero_score e entries fits valid =
    let bytes : List ℕ = file (e ∷ entries) in
    let (p, loop) =
      file-loop lossy score_of zero_score bytes fits (e ∷ entries) (length bytes)
        (record { vocab = []; unk_id = 0; pos = 0 }) (omega arith, refl) (length-file (e ∷ entries))
        valid in
    rw loop refl
