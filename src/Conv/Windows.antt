-- ===== src/Conv/Windows.antt =====
-- What a convolution without padding computes: one column for each window, `hop` apart.
use native.Mathlib.Nat.{mul-add-div_right, div-eq_of_lt}
use vvaves.Common.{
  ℕ, zero, suc, ◌+◌, ◌-◌, ◌*◌, ◌/◌, ◌≤◌, ◌<◌, ◌≡◌, ap, ap₂, ◌∙◌, List, [], ◌∷◌, ◌++◌, map, length,
  take, drop, take-append, drop-append, drop-drop, length-drop, arith,
}
use vvaves.Common.Results.{Result, ok}

module _ {A : Type 0} where
  unfoldable pub windows : ℕ → ℕ → ℕ → List A → List (List A)
  windows zero width hop xs = []
  windows (suc n) width hop xs = take width xs ∷ windows n width hop (drop hop xs)

  -- The windows that lie within the list, if it is at least one long.
  unfoldable pub all_windows : ℕ → ℕ → List A → List (List A)
  unfolding windows
  all_windows width hop xs = windows ((length xs - width) / hop + 1) width hop xs

-- candle's documented result: for an input at least as long as the kernel, a column for each
-- window, a function of the window alone.
unfoldable pub IsConv : {A B : Type 0} → ℕ → ℕ → (List A → B) → (List A → Result (List B)) → Type 0
unfolding all_windows
IsConv {A} width hop f conv =
    (xs : List A) → width ≤ length xs → conv xs ≡ ok (map f (all_windows width hop xs))

module _ {A : Type 0} where
  -- The windows of a chunk of `n` hops behind its padding are the first `n` of those of all.
  pub windows-append :
      (n m width hop : ℕ) (xs ys : List A)
      → 0 < hop
      → length xs ≡ (width - hop) + n * hop
      → windows (n + m) width hop (xs ++ ys)
        ≡ windows n width hop xs ++ windows m width hop (drop (n * hop) xs ++ ys)
  unfolding windows
  windows-append zero m width hop xs ys pos len =
      let e : zero + m ≡ m = omega arith in
      let d : 0 ≡ zero * hop = omega arith in
      ap (λ a. windows a width hop (xs ++ ys)) e ∙ ap (λ b. windows m width hop (drop b xs ++ ys)) d
  windows-append (suc n) m width hop xs ys pos len =
      let e : suc n + m ≡ suc (n + m) = omega arith in
      let d : hop + n * hop ≡ suc n * hop = grind arith in
      let fits : hop ≤ length xs = grind arith in
      let wide : width ≤ length xs = grind arith in
      let rest : length (drop hop xs) ≡ (width - hop) + n * hop =
        omega (arith, length-drop hop xs, d) in
      ap (λ a. windows a width hop (xs ++ ys)) e
      ∙ ap₂ ◌∷◌ (take-append width xs ys wide) (
          ap (windows (n + m) width hop) (drop-append hop xs ys fits)
          ∙ windows-append n m width hop (drop hop xs) ys pos rest
          ∙ ap (λ l. windows n width hop (drop hop xs) ++ windows m width hop (l ++ ys))
              (drop-drop hop (n * hop) xs ∙ ap (λ k. drop k xs) d))

pub count_windows :
    (width hop n : ℕ)
    → 0 < hop
    → 0 < width
    → ((width - hop) + suc n * hop - width) / hop + 1 ≡ suc n
count_windows width hop n pos wide =
    let rest : ℕ = (width - hop) + hop - width in
    let d : suc n * hop ≡ hop + n * hop = grind arith in
    let e : (width - hop) + suc n * hop - width ≡ n * hop + rest = omega (arith, d) in
    let small : rest / hop ≡ 0 = div-eq_of_lt (omega arith) in
    omega (arith, ap (λ k. k / hop) e, mul-add-div_right pos n rest, small)
