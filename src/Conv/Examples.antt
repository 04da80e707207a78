-- ===== src/Conv/Examples.antt =====
-- The convolutions on numbers, with a kernel of ones.
use vvaves.Common.{
  ℕ, ◌+◌, ◌-◌, ◌≡◌, refl, none, List, [], ◌∷◌, ◌++◌, map, length, take, replicate, arith,
}
use vvaves.Common.Results.{Result, ok, ◌>>=◌}
use vvaves.Conv.{downsample, effective_kernel_size, replicates}
use vvaves.Conv.Windows.{IsConv, all_windows}
use vvaves.Conv.Down.{columns, IsWhole, feed, first_padding}
use vvaves.Conv.Down.Restarts.{Utterance, chunks_of, each, feed-restarts}
use vvaves.Conv.Down.Chunks.{feed-conv}
use vvaves.Conv.Transposed
use vvaves.Conv.Transposed.{Columns, upsample}
use vvaves.Conv.Transposed.Laid.{Exact, with_bias, laid}
use vvaves.Conv.Transposed.Chunks.{IsConvTr, feed-convtr}
use vvaves.Conv.Transposed.Chunks

abbrev total : List ℕ → ℕ
total [] = 0
total (x ∷ xs) = x + total xs

abbrev conv : List ℕ → Result (List ℕ)
conv xs = ok (map total (all_windows (effective_kernel_size (downsample 2)) 2 xs))

-- Two chunks, the second at a later step.
abbrev first_chunk : List ℕ × ℕ
first_chunk = (1 ∷ 2 ∷ [], 0)

abbrev later_chunks : List (List ℕ × ℕ)
later_chunks = (3 ∷ 4 ∷ 5 ∷ 6 ∷ [], 1) ∷ (7 ∷ 8 ∷ [], 3) ∷ []

feed-conv_example :
    feed conv 0 (downsample 2) none (first_chunk ∷ later_chunks)
    ≡ conv
        (first_padding conv 0 (downsample 2) (1 ∷ 2 ∷ []) 0 ++ columns (first_chunk ∷ later_chunks))
unfolding replicates IsWhole downsample IsConv all_windows
feed-conv_example =
    feed-conv conv 0 (downsample 2) total (λ xs h. refl) (omega arith) first_chunk later_chunks
      ((omega arith, omega arith), ((omega arith, refl), ((omega arith, refl), tt)))
      (refl, (refl, tt))

-- A reading of two chunks, and one of a single chunk.
abbrev utterances : List (Utterance ℕ)
utterances = ((1 ∷ 2 ∷ [], 0), (3 ∷ 4 ∷ 5 ∷ 6 ∷ [], 1) ∷ []) ∷ ((7 ∷ 8 ∷ [], 0), []) ∷ []

feed-restarts_example :
    feed conv 0 (downsample 2) none (chunks_of utterances) ≡ each conv 0 (downsample 2) utterances
unfolding replicates IsWhole downsample IsConv all_windows
feed-restarts_example =
    feed-restarts conv 0 (downsample 2) total (λ xs h. refl) (omega arith) utterances refl
      (
        (((omega arith, refl), ((omega arith, refl), tt)), refl, (omega arith, tt)),
        ((((omega arith, refl), tt), refl, tt), tt),
      )

-- Natural numbers, whose sums are exact.
abbrev numbers : Columns ℕ
numbers = record { zero_column = 0; add = λ x y. x + y; sub = λ x y. x - y }

numbers-Exact : Exact numbers
numbers-Exact = record {
  zero-add = λ y. omega arith;
  add_assoc = λ x y z. omega arith;
  add_swap = λ x y z. omega arith;
  add-sub = λ x y. omega arith;
}

abbrev spread : ℕ → List ℕ
spread x = replicate 4 x

abbrev convtr : List ℕ → Result (List ℕ)
convtr xs = ok (with_bias numbers none (laid numbers spread 2 (0 ∷ 0 ∷ []) xs))

feed-convtr_example :
    Transposed.Chunks.feed numbers (upsample 2) convtr none ((1 ∷ 2 ∷ []) ∷ (3 ∷ []) ∷ [])
    ≡ (do y ← convtr (1 ∷ 2 ∷ 3 ∷ []); ok (take (length y - (4 - 2)) y))
unfolding IsConvTr upsample
feed-convtr_example =
    feed-convtr numbers (upsample 2) convtr numbers-Exact spread (λ x. refl, λ xs h. refl)
      (omega arith) (1 ∷ 2 ∷ []) ((3 ∷ []) ∷ []) (omega arith, (omega arith, tt))
