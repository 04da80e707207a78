-- ===== src/Text/Sentences/Letters.antt =====
-- No character of a text is lost by splitting it, and none changes its place.
use vvaves.Common.{
  ℕ, zero, suc, ◌+◌, ◌/◌, ◌≡◌, refl, sym, ap, ap₂, ◌∙◌, true, Option, List, [], ◌∷◌, ◌++◌, length,
  take, drop, concat, append-nil, append_assoc, is_empty, leb, ltb, if◌then◌else◌, Bool-cases, inl,
  inr, take-append-drop,
}
use vvaves.Text.Chars.{Text, Unicode, trim, split_whitespace, is_whitespace}
use vvaves.Text.Prompt.{prepare_text_prompt}
use vvaves.Text.Ink.{ink, ink_all, ink-append, ink_all-append, ink-trim, ink_all-split_whitespace}
use vvaves.Text.Sentences.{
  is_stop, add_piece, split_from, sentences_of, join, batches_from, Chunks, tokens_of, batch_chunks,
  all_batch_chunks, add_long, add_short, add_sentence, add_sentences, chunks_of, split_prepared,
  split_into_best_sentences, max_tokens,
}

ink_all-add_piece : (p : Text) (ps : List Text) → ink_all (add_piece p ps) ≡ ink p ++ ink_all ps
ink_all-add_piece [] ps = refl
ink_all-add_piece (c ∷ p) ps = refl

ink_all-split_from : (cs piece : Text) → ink_all (split_from cs piece) ≡ ink piece ++ ink cs
unfolding split_from
ink_all-split_from [] piece = ink_all-add_piece piece []
ink_all-split_from (c ∷ cs) piece =
    let joined : ink (piece ++ (c ∷ [])) ++ ink cs ≡ ink piece ++ ink (c ∷ cs) =
      ap (λ t. t ++ ink cs) (ink-append piece (c ∷ []))
      ∙ append_assoc (ink piece) (ink (c ∷ [])) (ink cs)
      ∙ ap (λ t. ink piece ++ t) (sym (ink-append (c ∷ []) cs)) in
    elim (Bool-cases (is_stop c)) [
      | inl y ↦
          rw (y, split_from)
            (ap (λ t. ink (piece ++ (c ∷ [])) ++ t) (ink_all-split_from cs []) ∙ joined)
      | inr y ↦ rw (y, split_from) (ink_all-split_from cs (piece ++ (c ∷ [])) ∙ joined)
    ]

ink_all-sentences_of : (ps : List Text) → ink_all (sentences_of ps) ≡ ink_all ps
unfolding sentences_of
ink_all-sentences_of [] = refl
ink_all-sentences_of (p ∷ ps) =
    ink_all-add_piece (trim p) (sentences_of ps)
    ∙ ap₂ (λ x y. x ++ y) (ink-trim p) (ink_all-sentences_of ps)

ink-join : (ws : List Text) → ink (join ws) ≡ ink_all ws
unfolding join is_whitespace
ink-join [] = refl
ink-join (w ∷ []) = sym (append-nil (ink w))
ink-join (w ∷ v ∷ ws) = ink-append w (32 ∷ join (v ∷ ws)) ∙ ap (λ t. ink w ++ t) (ink-join (v ∷ ws))

-- The words of the batches, in order.
concat-batches_from :
    (ws : List Text) (room : ℕ) (batch : List Text)
    → concat (batches_from ws room batch) ≡ batch ++ ws
unfolding batches_from
concat-batches_from [] room [] = refl
concat-batches_from [] room (b ∷ batch) = refl
concat-batches_from (w ∷ ws) zero batch = ap (λ l. batch ++ l) (concat-batches_from ws 34 (w ∷ []))
concat-batches_from (w ∷ ws) (suc room) batch =
    concat-batches_from ws room (batch ++ (w ∷ [])) ∙ append_assoc batch (w ∷ []) ws

module _ (count_tokens : Text → Option ℕ) where
  ink_all-batch_chunks :
      (batch : List Text) → ink_all (batch_chunks count_tokens batch) ≡ ink_all batch
  unfolding batch_chunks
  ink_all-batch_chunks batch =
      let mid = length batch / 2 in
      elim (Bool-cases (leb (tokens_of count_tokens (join batch)) max_tokens)) [
        | inl y ↦ rw y (append-nil (ink (join batch)) ∙ ink-join batch)
        | inr y ↦ rw y (
            ap₂ (λ a b. a ++ b) (ink-join (take mid batch))
              (append-nil (ink (join (drop mid batch))) ∙ ink-join (drop mid batch))
            ∙ sym (ink_all-append (take mid batch) (drop mid batch))
            ∙ ap ink_all (take-append-drop mid batch))
      ]

  ink_all-all_batch_chunks :
      (bs : List (List Text)) → ink_all (all_batch_chunks count_tokens bs) ≡ ink_all (concat bs)
  unfolding all_batch_chunks
  ink_all-all_batch_chunks [] = refl
  ink_all-all_batch_chunks (b ∷ bs) =
      ink_all-append (batch_chunks count_tokens b) (all_batch_chunks count_tokens bs)
      ∙ ap₂ (λ x y. x ++ y) (ink_all-batch_chunks b) (ink_all-all_batch_chunks bs)
      ∙ sym (ink_all-append b (concat bs))

  abbrev so_far : Chunks → Text
  so_far s = ink_all s.chunks ++ ink s.current

  -- The chunks with the current one behind them, if it has anything.
  ink_all-flushed :
      (chunks : List Text) (current : Text)
      → ink_all (if is_empty current then chunks else chunks ++ (current ∷ []))
        ≡ ink_all chunks ++ ink current
  ink_all-flushed chunks [] = sym (append-nil (ink_all chunks))
  ink_all-flushed chunks (c ∷ current) =
      ink_all-append chunks ((c ∷ current) ∷ [])
      ∙ ap (λ t. ink_all chunks ++ t) (append-nil (ink (c ∷ current)))

  add_long-so_far : (s : Chunks) (t : Text) → so_far (add_long count_tokens s t) ≡ so_far s ++ ink t
  unfolding add_long
  add_long-so_far s t =
      let flushed = if is_empty s.current then s.chunks else s.chunks ++ (s.current ∷ []) in
      let bs = batches_from (split_whitespace t) 35 [] in
      append-nil (ink_all (flushed ++ all_batch_chunks count_tokens bs))
      ∙ ink_all-append flushed (all_batch_chunks count_tokens bs)
      ∙ ap₂ (λ x y. x ++ y) (ink_all-flushed s.chunks s.current)
          (ink_all-all_batch_chunks bs
            ∙ ap ink_all (concat-batches_from (split_whitespace t) 35 [])
            ∙ ink_all-split_whitespace t)

  add_short-so_far :
      (s : Chunks) (t : Text) (n : ℕ) → so_far (add_short count_tokens s t n) ≡ so_far s ++ ink t
  unfolding add_short is_whitespace
  add_short-so_far s t n = elim (Bool-cases (is_empty s.current)) [
    | inl y ↦ rw y (ap (λ x. x ++ ink t) (sym (nothing s.current s.chunks y)))
    | inr y ↦ elim (Bool-cases (ltb max_tokens (s.tokens + n))) [
      | inl z ↦
          rw (y, z)
            (ap (λ x. x ++ ink t)
              (ink_all-append s.chunks (s.current ∷ [])
                ∙ ap (λ x. ink_all s.chunks ++ x) (append-nil (ink s.current))))
      | inr z ↦
          rw (y, z)
            (ap (λ x. ink_all s.chunks ++ x) (ink-append s.current (32 ∷ t))
              ∙ sym (append_assoc (ink_all s.chunks) (ink s.current) (ink t)))
    ]
  ]
    where
      nothing :
          (current : Text) (chunks : List Text)
          → is_empty current ≡ true
          → ink_all chunks ++ ink current ≡ ink_all chunks
      nothing [] chunks e = append-nil (ink_all chunks)
      nothing (c ∷ current) chunks e = cc

  add_sentences-so_far :
      (ts : List Text) (s : Chunks)
      → so_far (add_sentences count_tokens ts s) ≡ so_far s ++ ink_all ts
  unfolding add_sentences add_sentence
  add_sentences-so_far [] s = sym (append-nil (so_far s))
  add_sentences-so_far (t ∷ ts) s =
      let rest = add_sentences-so_far ts (add_sentence count_tokens s t) in
      let one : so_far (add_sentence count_tokens s t) ≡ so_far s ++ ink t =
        elim (Bool-cases (ltb max_tokens (tokens_of count_tokens t))) [
          | inl y ↦ rw y (add_long-so_far s t)
          | inr y ↦ rw y (add_short-so_far s t (tokens_of count_tokens t))
        ] in
      rest ∙ ap (λ x. x ++ ink_all ts) one ∙ append_assoc (so_far s) (ink t) (ink_all ts)

  ink_all-split_prepared :
      (prepared : Text) (ts : List Text)
      → ink_all ts ≡ ink prepared
      → ink_all (split_prepared count_tokens prepared ts) ≡ ink prepared
  unfolding split_prepared chunks_of
  ink_all-split_prepared prepared [] e = append-nil (ink prepared)
  ink_all-split_prepared prepared (t ∷ ts) e =
      let s0 : Chunks = record { chunks = []; current = []; tokens = 0 } in
      let s = add_sentences count_tokens (t ∷ ts) s0 in
      ink_all-flushed s.chunks s.current ∙ add_sentences-so_far (t ∷ ts) s0 ∙ e

  -- However tokens are counted: the chunks that a text is split into have together, in order, the
  -- characters of the prepared text that are no white space.
  pub split-ink :
      (u : Unicode) (text : Text)
      → ink_all (split_into_best_sentences count_tokens u text) ≡ ink (prepare_text_prompt u text)
  unfolding split_into_best_sentences
  split-ink u text =
      let prepared = prepare_text_prompt u text in
      ink_all-split_prepared prepared (sentences_of (split_from prepared []))
        (ink_all-sentences_of (split_from prepared []) ∙ ink_all-split_from prepared [])
