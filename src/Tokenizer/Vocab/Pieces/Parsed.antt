-- ===== src/Tokenizer/Vocab/Pieces/Parsed.antt =====
-- A file of pieces is parsed to the pieces.
use native.Mathlib.Nat.{mod-eq_of_lt}
use vvaves.Common.{
  ℕ, suc, ◌+◌, ◌-◌, ◌^◌, ◌≤◌, ◌<◌, ◌≡◌, refl, ap, subst, ◌∙◌, false, Option, none, some, List, [],
  ◌∷◌, ◌++◌, is_empty, length, ◌==◌, if◌then◌else◌, arith, length-append, append_assoc,
}
use vvaves.Common.Results.{ok}
use vvaves.Tokenizer.{read_varint, encode_varint}
use vvaves.Tokenizer.Varint.{read_varint-at, read_varint-tag}
use vvaves.Tokenizer.Vocab.{
  Outcome, finished, Inner, Outer, inner_loop, forth, new_inner, add_piece, outer_field, outer_step,
}
use vvaves.Tokenizer.Vocab.Pieces.{
  Entry, type_field, message, encode_piece, At, at-length, past, past_one, piece_field, score_field,
  kind_field, loop-on, loop-ends,
}

-- The identifier of the unknown piece after a piece at place `count`.
pub unk_after : Entry → ℕ → ℕ → ℕ
unk_after e count unk = elim e.piece_type [ none ↦ unk | some t ↦ if t == 2 then count else unk ]

abbrev pub IsShortType : Option ℕ → Type 0
IsShortType none = Unit
IsShortType (some t) = t < 2 ^ 64

module _ {F : Type 0} (lossy : List ℕ → List ℕ) (score_of : List ℕ → F) (zero_score : F)
    (bytes : List ℕ) (fits : length bytes < 2 ^ 64) where
  abbrev inner : ℕ → ℕ → ℕ → Inner F → Outcome (Inner F)
  inner = inner_loop lossy score_of zero_score bytes

  kind-loop :
      (kind : Option ℕ) (fuel end count : ℕ) (s : Inner F) (rest : List ℕ)
      → At bytes s.inner_pos (type_field kind ++ rest)
      → At bytes end rest
      → IsShortType kind
      → inner (suc fuel) end count s
        ≡ finished (
            ok (record s {
              unk_id = elim kind [ none ↦ s.unk_id | some t ↦ if t == 2 then count else s.unk_id ];
              inner_pos = end;
            }))
  unfolding type_field
  kind-loop none fuel end count s rest at at_end small =
      let e : s.inner_pos ≡ end =
        omega (arith, at-length bytes s.inner_pos rest at, at-length bytes end rest at_end) in
      loop-ends lossy score_of zero_score bytes fits (suc fuel) end count s e
      ∙ ap (λ p. finished (ok (record s { inner_pos = p }))) e
  kind-loop (some t) fuel end count s rest at at_end small =
      let (q, e, at_q) =
        kind_field lossy score_of zero_score bytes fits end count t s rest at small in
      let going : s.inner_pos < end = omega (
        arith,
        at-length bytes s.inner_pos (0x18 ∷ (encode_varint t ++ rest)) at,
        at-length bytes end rest at_end,
        length-append (encode_varint t) rest,
      ) in
      let same : q ≡ end =
        omega (arith, at-length bytes q rest at_q, at-length bytes end rest at_end) in
      let s' : Inner F = record s { unk_id = if t == 2 then count else s.unk_id; inner_pos = q } in
      loop-on lossy score_of zero_score bytes fits fuel end count s s' going e
      ∙ loop-ends lossy score_of zero_score bytes fits fuel end count s' same
      ∙ ap (λ p. finished (ok (record s' { inner_pos = p }))) same

  -- The loop over a message's fields, up to its end.
  message-loop :
      (e : Entry) (fuel end count : ℕ) (s : Inner F) (rest : List ℕ)
      → At bytes s.inner_pos (message e ++ rest)
      → At bytes end rest
      → length e.score ≡ 4
      → IsShortType e.piece_type
      → inner (suc (suc (suc fuel))) end count s
        ≡ finished (
            ok (record {
              piece = lossy e.piece;
              score = score_of e.score;
              unk_id = unk_after e count s.unk_id;
              inner_pos = end;
            }))
  unfolding message unk_after
  message-loop e fuel end count s rest at at_end four small =
      let code : List ℕ = encode_varint (length e.piece) in
      let kind : List ℕ = type_field e.piece_type in
      let later : List ℕ = 0x15 ∷ (e.score ++ (kind ++ rest)) in
      let at0 : At bytes s.inner_pos (0x0a ∷ (code ++ (e.piece ++ later))) =
        subst (λ l. At bytes s.inner_pos (0x0a ∷ l))
          (append_assoc code (e.piece ++ (0x15 ∷ (e.score ++ kind))) rest
            ∙ ap (λ l. code ++ l)
                (append_assoc e.piece (0x15 ∷ (e.score ++ kind)) rest
                  ∙ ap (λ l. e.piece ++ (0x15 ∷ l)) (append_assoc e.score kind rest)))
          at in
      let (q, one, at1) =
        piece_field lossy score_of zero_score bytes fits end count s e.piece later at0 in
      let s1 : Inner F = record s { piece = lossy e.piece; inner_pos = q } in
      let (q2, two, at2) =
        score_field lossy score_of zero_score bytes fits end count s1 e.score (kind ++ rest) at1
          four in
      let s2 : Inner F = record s1 { score = score_of e.score; inner_pos = q2 } in
      let end_len : end + length rest ≡ length bytes = at-length bytes end rest at_end in
      let going1 : s.inner_pos < end = omega (
        arith,
        end_len,
        at-length bytes s.inner_pos (0x0a ∷ (code ++ (e.piece ++ later))) at0,
        length-append code (e.piece ++ later),
        length-append e.piece later,
        length-append e.score (kind ++ rest),
        length-append kind rest,
      ) in
      let going2 : q < end = omega (
        arith,
        end_len,
        at-length bytes q later at1,
        length-append e.score (kind ++ rest),
        length-append kind rest,
      ) in
      loop-on lossy score_of zero_score bytes fits (suc (suc fuel)) end count s s1 going1 one
      ∙ loop-on lossy score_of zero_score bytes fits (suc fuel) end count s1 s2 going2 two
      ∙ kind-loop e.piece_type fuel end count s2 rest at2 at_end small

  message-long : (e : Entry) → 2 ≤ length (message e)
  unfolding message
  message-long e =
      let code : List ℕ = encode_varint (length e.piece) in
      let later : List ℕ = 0x15 ∷ (e.score ++ type_field e.piece_type) in
      omega (arith, length-append code (e.piece ++ later), length-append e.piece later)

  -- The vocabulary with one more piece.
  unfoldable pub with_entry : Entry → ℕ → Outer F → Outer F
  unfolding unk_after
  with_entry e end s = record s {
    vocab = s.vocab ++ ((lossy e.piece, score_of e.score) ∷ []);
    unk_id = unk_after e (length s.vocab) s.unk_id;
    pos = end;
  }

  pub piece-step :
      (e : Entry) (s : Outer F) (rest : List ℕ)
      → At bytes s.pos (encode_piece e ++ rest)
      → length e.score ≡ 4
      → IsShortType e.piece_type
      → is_empty (lossy e.piece) ≡ false
      → (end : ℕ) × (outer_step lossy score_of zero_score bytes (length bytes) s
          ≡ finished (ok (some (with_entry e end s))))
        × At bytes end rest
        × (s.pos < length bytes)
  unfolding encode_piece outer_step outer_field with_entry add_piece new_inner At
  piece-step e s rest at four small seen =
      let m : List ℕ = message e in
      let code : List ℕ = encode_varint (length m) in
      let p : ℕ = suc s.pos in
      let at0 : At bytes s.pos (0x0a ∷ (code ++ (m ++ rest))) =
        subst (λ l. At bytes s.pos (0x0a ∷ l)) (append_assoc code m rest) at in
      let at1 : At bytes p (code ++ (m ++ rest)) =
        past_one bytes s.pos 0x0a (code ++ (m ++ rest)) at0 in
      let p2 : ℕ = p + length code in
      let at2 : At bytes p2 (m ++ rest) = past bytes p code (m ++ rest) at1 in
      let end : ℕ = p2 + length m in
      let at3 : At bytes end rest = past bytes p2 m rest at2 in
      let total : p2 + length (m ++ rest) ≡ length bytes = at-length bytes p2 (m ++ rest) at2 in
      let short : length m < 2 ^ 64 = omega (arith, fits, total, length-append m rest) in
      let here : forth p2 (length m) ≡ end = mod-eq_of_lt (omega (arith, fits, at3.0)) in
      let fuel : length bytes ≡ suc (suc (suc (length bytes - 3))) =
        omega (arith, total, length-append m rest, message-long e) in
      let start : Inner F = new_inner lossy score_of zero_score bytes s p2 in
      let inside =
        ap (λ n. inner n end (length s.vocab) start) fuel
        ∙ message-loop e (length bytes - 3) end (length s.vocab) start rest at2 at3 four small in
      let number : read_varint bytes p ≡ ok (length m, p2) =
        read_varint-at bytes (m ++ rest) p (length m) at1.1 short in
      (
        end,
        rw
            (
              read_varint-tag bytes (code ++ (m ++ rest)) s.pos 0x0a at0.1 (omega arith),
              number,
              here,
              inside,
              seen,
            )
            refl,
        at3,
        omega (arith, at-length bytes s.pos (0x0a ∷ (code ++ (m ++ rest))) at0),
      )
