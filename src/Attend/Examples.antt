-- ===== src/Attend/Examples.antt =====
-- apps/tts/crates/engine/src/modules/sdpa.rs on numbers.
use vvaves.Common.{
  ℕ, ◌+◌, ◌*◌, ◌≡◌, refl, true, none, some, List, [], ◌∷◌, ◌++◌, length, take, drop, arith,
}
use vvaves.Attend.{Kernel, sdpa, sdpa_chunked}
use vvaves.Attend.Masked.{attention}
use vvaves.Attend.Whole.{sdpa-attention}
use vvaves.Attend.Chunked.{sdpa_chunked-attention}

dot : List ℕ → List ℕ → ℕ
dot [] v = 0
dot (p ∷ probs) [] = 0
dot (p ∷ probs) (x ∷ v) = p * x + dot probs v

dot-none : (probs : List ℕ) → dot probs [] ≡ 0
unfolding dot
dot-none [] = refl
dot-none (p ∷ probs) = refl

dot-append :
    (probs v w : List ℕ)
    → dot probs (v ++ w) ≡ dot (take (length v) probs) v + dot (drop (length v) probs) w
unfolding dot
dot-append [] [] w = refl
dot-append [] (x ∷ v) w = refl
dot-append (p ∷ probs) [] w = omega arith
dot-append (p ∷ probs) (x ∷ v) w =
    let later : dot probs (v ++ w) ≡ dot (take (length v) probs) v + dot (drop (length v) probs) w =
      dot-append probs v w in
    omega (arith, later)

-- A score is a product, and the bottom is far above every score, so that a hidden key shows.
abbrev numbers : Kernel ℕ ℕ ℕ
numbers = record {
  F = ℕ;
  Out = ℕ;
  score = ◌*◌;
  add = ◌+◌;
  zero_score = 0;
  neg_infinity = 1000;
  softmax = λ row. row;
  weigh = dot;
  plus = ◌+◌;
  zero_out = 0;
}

abbrev queries : List ℕ
queries = 2 ∷ 3 ∷ []

sdpa-attention_example :
    sdpa numbers queries (1 ∷ 4 ∷ 5 ∷ []) (7 ∷ 8 ∷ 9 ∷ []) true (some 2)
    ≡ attention numbers queries (1 ∷ 4 ∷ 5 ∷ []) (7 ∷ 8 ∷ 9 ∷ []) true (some 2) 1
sdpa-attention_example =
    sdpa-attention numbers (λ x. omega arith) queries (1 ∷ 4 ∷ 5 ∷ []) (7 ∷ 8 ∷ 9 ∷ []) true
      (some 2)

sdpa_chunked-attention_example :
    sdpa_chunked numbers queries
      ((1 ∷ 4 ∷ []) ∷ (5 ∷ []) ∷ [])
      ((7 ∷ 8 ∷ []) ∷ (9 ∷ []) ∷ [])
      true
      none
    ≡ attention numbers queries (1 ∷ 4 ∷ 5 ∷ []) (7 ∷ 8 ∷ 9 ∷ []) true none 1
sdpa_chunked-attention_example =
    sdpa_chunked-attention numbers (λ x. omega arith) dot-none dot-append (λ a b c. omega arith)
      (λ a. omega arith) (λ a. omega arith) queries ((1 ∷ 4 ∷ []) ∷ (5 ∷ []) ∷ [])
      ((7 ∷ 8 ∷ []) ∷ (9 ∷ []) ∷ []) true none refl
