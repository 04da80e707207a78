-- ===== src/Audio/Tensor.antt =====
-- The tensor of channels that a reader makes of interleaved samples.
use native.Mathlib.Nat.{suc-mul, mul_comm, mul-div_cancel}
use vvaves.Common.{
  if◌then◌else◌, drop-none, ℕ, zero, suc, ◌+◌, ◌-◌, ◌*◌, ◌/◌, ◌<◌, ◌≡◌, refl, ap, ap₂, sym, ◌∙◌,
  true, List, [], ◌∷◌, ◌++◌, map, concat, length, take, drop, replicate, All, ◌==◌, arith,
  append-nil, length-append, length-map, take-length, drop-length, ==_iff, lt→ltb,
}
use vvaves.Common.Results.{ok, err}
use vvaves.Audio.{FromVec, columns, reshaped, tensor_of}
use vvaves.Audio.Frames.{drop-at, interleaved, length-interleaved, columns-channels}

-- The elements as rows of `n`.
abbrev pub rows_of : {A : Type 0} → ℕ → ℕ → List A → List (List A)
rows_of zero n xs = []
rows_of (suc channels) n xs = take n xs ∷ rows_of channels n (drop n xs)

-- What candle says of `Tensor::from_vec`: the elements are laid out row by row, and another number
-- of them than the shape has is an error.
abbrev pub IsFromVec : {A : Type 0} → FromVec A → Type 0
IsFromVec {A = A} from_vec =
    (xs : List A) (channels n : ℕ)
    → from_vec xs channels n
      ≡ (if length xs == channels * n then ok (rows_of channels n xs) else err)

rows_of-concat :
    {A : Type 0}
    → (n : ℕ) (rows : List (List A)) → All (λ row. length row ≡ n) rows
    → rows_of (length rows) n (concat rows) ≡ rows
rows_of-concat n [] h = refl
rows_of-concat n (row ∷ rows) (same, h) =
    ap₂ ◌∷◌ (ap (λ k. take k (row ++ concat rows)) (sym same) ∙ take-length row (concat rows)) (
      ap (λ k. rows_of (length rows) n (drop k (row ++ concat rows))) (sym same)
      ∙ ap (rows_of (length rows) n) (drop-length row (concat rows))
      ∙ rows_of-concat n rows h)

length-concat_even :
    {A : Type 0}
    → (n : ℕ) (rows : List (List A)) → All (λ row. length row ≡ n) rows
    → length (concat rows) ≡ length rows * n
length-concat_even n [] h = omega arith
length-concat_even n (row ∷ rows) (same, h) = omega (
  arith,
  same,
  length-append row (concat rows),
  length-concat_even n rows h,
  suc-mul (length rows) n,
)

All-map :
    {F G : Type 0}
    → (of : F → G) (n : ℕ) (rows : List (List F)) → All (λ row. length row ≡ n) rows
    → All (λ row. length row ≡ n) (map (map of) rows)
All-map of n [] h = tt
All-map of n (row ∷ rows) (same, h) = (length-map of row ∙ same, All-map of n rows h)

from_vec-concat :
    {A : Type 0}
    → (from_vec : FromVec A) → IsFromVec from_vec
    → (n : ℕ) (rows : List (List A)) → All (λ row. length row ≡ n) rows
    → from_vec (concat rows) (length rows) n ≡ ok rows
from_vec-concat from_vec law n rows h =
    let full : (length (concat rows) == length rows * n) ≡ true =
      (==_iff (length (concat rows)) (length rows * n)).1 (length-concat_even n rows h) in
    law (concat rows) (length rows) n ∙ rw full (ap ok (rows_of-concat n rows h))

module _ {F G : Type 0} (z : F) (y : G) (of : F → G) (from_vec : FromVec G)
    (law : IsFromVec from_vec) where
  tensor_of-several :
      (rows : List (List F)) (n : ℕ)
      → All (λ row. length row ≡ n) rows
      → 1 < length rows
      → tensor_of y from_vec (interleaved z y of rows n 0) (length rows) ≡ ok (map (map of) rows)
  unfolding tensor_of reshaped
  tensor_of-several rows n h many =
      let samples = interleaved z y of rows n 0 in
      let total : length samples ≡ n * length rows = length-interleaved z y of rows n 0 in
      let frames : length samples / length rows ≡ n =
        ap (λ t. t / length rows) total ∙ mul-div_cancel n (omega (arith, many)) in
      let none_left : length samples - length rows * n ≡ 0 =
        omega (arith, total, mul_comm n (length rows)) in
      let same_rows : length (map (map of) rows) ≡ length rows = length-map (map of) rows in
      let whole : concat (columns y samples (length rows) n (length rows) 0)
            ++ replicate (length samples - length rows * n) y
          ≡ concat (map (map of) rows) =
        ap₂ (λ cols k. concat cols ++ replicate k y) (columns-channels z y of [] rows n h) none_left
        ∙ append-nil (concat (map (map of) rows)) in
      rw (lt→ltb 1 (length rows) many, frames, whole)
        (ap (λ k. from_vec (concat (map (map of) rows)) k n) (sym same_rows)
          ∙ from_vec-concat from_vec law n (map (map of) rows) (All-map of n rows h))

  interleaved-single :
      (row : List F) (left i : ℕ)
      → length row ≡ i + left
      → interleaved z y of (row ∷ []) left i ≡ map of (drop i row)
  interleaved-single row zero i h = sym (ap (map of) (drop-none i row (omega (arith, h))))
  interleaved-single row (suc left) i h =
      ap₂ ◌∷◌ refl (interleaved-single row left (suc i) (omega (arith, h)))
      ∙ ap (map of) (drop-at z row i (omega (arith, h)))

  tensor_of-single :
      (row : List F)
      → tensor_of y from_vec (interleaved z y of (row ∷ []) (length row) 0) 1 ≡ ok (map of row ∷ [])
  unfolding tensor_of
  tensor_of-single row =
      ap (λ s. from_vec s 1 (length s)) (interleaved-single row (length row) 0 (omega arith))
      ∙ ap (λ s. from_vec s 1 (length (map of row))) (sym (append-nil (map of row)))
      ∙ from_vec-concat from_vec law (length (map of row)) (map of row ∷ []) (refl, tt)

  pub tensor_of-interleaved :
      (rows : List (List F)) (n : ℕ)
      → All (λ row. length row ≡ n) rows
      → 0 < length rows
      → tensor_of y from_vec (interleaved z y of rows n 0) (length rows) ≡ ok (map (map of) rows)
  tensor_of-interleaved [] n h some_row = absurd (omega (arith, some_row))
  tensor_of-interleaved (row ∷ []) n (same, h) some_row =
      ap (λ k. tensor_of y from_vec (interleaved z y of (row ∷ []) k 0) 1) (sym same)
      ∙ tensor_of-single row
  tensor_of-interleaved (row ∷ row2 ∷ rows) n h some_row =
      tensor_of-several (row ∷ row2 ∷ rows) n h (omega arith)
