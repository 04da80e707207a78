-- ===== src/Text/Sentences.antt =====
-- `split_into_best_sentences` of tts_model.rs.
pub mod Letters
use vvaves.Common.{
  ℕ, zero, suc, ◌+◌, ◌/◌, ◌≡◌, refl, sym, ap, ap₂, ◌∙◌, Bool, true, false, not, ◌||◌, Option, none,
  some, List, [], ◌∷◌, ◌++◌, map, length, take, drop, concat, append-nil, append_assoc, is_empty,
  leb, ltb, ◌==◌, if◌then◌else◌, Bool-cases, inl, inr, take-append-drop,
}
use vvaves.Text.Chars.{Text, Unicode, trim, split_whitespace}
use vvaves.Text.Prompt.{prepare_text_prompt}
use vvaves.Text.Ink.{ink, ink_all, ink-append, ink_all-append, ink-trim, ink_all-split_whitespace}

-- MAX_TOKENS_PER_CHUNK
abbrev pub max_tokens : ℕ
max_tokens = 50

is_stop : ℕ → Bool
is_stop c = c == b'.' || c == b'!' || c == b'?' || c == b';' || c == b':'

-- A piece more, if there is one.
abbrev add_piece : Text → List Text → List Text
add_piece piece pieces = if is_empty piece then pieces else piece ∷ pieces

-- `split_inclusive`, with the characters read of the piece.
pub split_from : Text → Text → List Text
unfolding is_stop
split_from [] piece = add_piece piece []
split_from (c ∷ cs) piece = elim (is_stop c) [
  | true ↦ (piece ++ (c ∷ [])) ∷ split_from cs []
  | false ↦ split_from cs (piece ++ (c ∷ []))
]

-- The pieces trimmed, less the empty ones.
pub sentences_of : List Text → List Text
sentences_of [] = []
sentences_of (piece ∷ pieces) = add_piece (trim piece) (sentences_of pieces)

-- `join(" ")`
pub join : List Text → Text
join [] = []
join (w ∷ []) = w
join (w ∷ v ∷ ws) = w ++ (32 ∷ join (v ∷ ws))

-- `chunks(35)`, with the room left in the batch that is being filled.
pub batches_from : List Text → ℕ → List Text → List (List Text)
batches_from [] room batch = if is_empty batch then [] else batch ∷ []
batches_from (w ∷ ws) zero batch = batch ∷ batches_from ws 34 (w ∷ [])
batches_from (w ∷ ws) (suc room) batch = batches_from ws room (batch ++ (w ∷ []))

pub record Chunks : Type 0 where
  pub chunks : List Text
  pub current : Text
  pub tokens : ℕ

module _ (count_tokens : Text → Option ℕ) where
  -- `unwrap_or(MAX_TOKENS_PER_CHUNK)`
  tokens_of : Text → ℕ
  tokens_of t = elim (count_tokens t) [ none ↦ max_tokens | some n ↦ n ]

  -- A batch of words as one chunk, or as two halves.
  pub batch_chunks : List Text → List Text
  unfolding tokens_of join
  batch_chunks batch =
      let mid = length batch / 2 in
      if leb (tokens_of (join batch)) max_tokens
      then join batch ∷ []
      else join (take mid batch) ∷ join (drop mid batch) ∷ []

  pub all_batch_chunks : List (List Text) → List Text
  unfolding batch_chunks
  all_batch_chunks [] = []
  all_batch_chunks (batch ∷ batches) = batch_chunks batch ++ all_batch_chunks batches

  pub add_long : Chunks → Text → Chunks
  unfolding all_batch_chunks batches_from
  add_long s sentence =
      let flushed = if is_empty s.current then s.chunks else s.chunks ++ (s.current ∷ []) in
      record {
        chunks = flushed ++ all_batch_chunks (batches_from (split_whitespace sentence) 35 []);
        current = [];
        tokens = if is_empty s.current then s.tokens else 0;
      }

  pub add_short : Chunks → Text → ℕ → Chunks
  add_short s sentence n =
      if is_empty s.current
      then record s { current = sentence; tokens = n }
      else if ltb max_tokens (s.tokens + n)
      then record { chunks = s.chunks ++ (s.current ∷ []); current = sentence; tokens = n }
      else record s { current = s.current ++ (32 ∷ sentence); tokens = s.tokens + n }

  pub add_sentence : Chunks → Text → Chunks
  unfolding add_long add_short
  add_sentence s sentence =
      let n = tokens_of sentence in
      if ltb max_tokens n then add_long s sentence else add_short s sentence n

  pub add_sentences : List Text → Chunks → Chunks
  unfolding add_sentence
  add_sentences [] s = s
  add_sentences (t ∷ ts) s = add_sentences ts (add_sentence s t)

  pub chunks_of : Chunks → List Text
  chunks_of s = if is_empty s.current then s.chunks else s.chunks ++ (s.current ∷ [])

  pub split_prepared : Text → List Text → List Text
  unfolding add_sentences chunks_of
  split_prepared prepared [] = prepared ∷ []
  split_prepared prepared (t ∷ ts) =
      chunks_of (add_sentences (t ∷ ts) (record { chunks = []; current = []; tokens = 0 }))

  pub split_into_best_sentences : Unicode → Text → List Text
  unfolding split_prepared sentences_of split_from
  split_into_best_sentences u text =
      let prepared = prepare_text_prompt u text in
      split_prepared prepared (sentences_of (split_from prepared []))
