-- ===== src/Audio/Frames.antt =====
-- Taking frames apart into channels is the inverse of putting channels together.
use native.Mathlib.Nat.{suc-mul}
use vvaves.Common.{
  All, drop-none, ℕ, zero, suc, ◌+◌, ◌*◌, ◌<◌, ◌≡◌, refl, ap, ap₂, sym, ◌∙◌, List, [], ◌∷◌, ◌++◌,
  map, length, drop, arith, length-append, append_assoc,
}
use vvaves.Audio.{at, column, columns}

pub at-append_left :
    {A : Type 0} → (z : A) (xs ys : List A) (i : ℕ) → i < length xs → at z (xs ++ ys) i ≡ at z xs i
at-append_left z [] ys i h = absurd (omega (arith, h))
at-append_left z (x ∷ xs) ys zero h = refl
at-append_left z (x ∷ xs) ys (suc i) h = at-append_left z xs ys i (omega (arith, h))

at-append_right :
    {A : Type 0} → (z : A) (xs ys : List A) (i : ℕ) → at z (xs ++ ys) (length xs + i) ≡ at z ys i
at-append_right z [] ys i = ap (at z ys) (omega arith)
at-append_right z (x ∷ xs) ys i =
    let place : suc (length xs) + i ≡ suc (length xs + i) = omega arith in
    ap (at z (x ∷ (xs ++ ys))) place ∙ at-append_right z xs ys i

pub drop-at :
    {A : Type 0}
    → (z : A) (xs : List A) (i : ℕ) → i < length xs
    → at z xs i ∷ drop (suc i) xs ≡ drop i xs
drop-at z [] i h = absurd (omega (arith, h))
drop-at z (x ∷ xs) zero h = refl
drop-at z (x ∷ xs) (suc i) h = drop-at z xs i (omega (arith, h))

zero_before : (i : ℕ) → 0 + i ≡ i
zero_before i = omega arith

module _ {F G : Type 0} (z : F) (y : G) (of : F → G) where
  -- The `i`-th item of every channel.
  abbrev pub frame : List (List F) → ℕ → List G
  frame [] i = []
  frame (channel ∷ rows) i = of (at z channel i) ∷ frame rows i

  abbrev pub interleaved : List (List F) → ℕ → ℕ → List G
  interleaved rows zero i = []
  interleaved rows (suc left) i = frame rows i ++ interleaved rows left (suc i)

  pub length-frame : (rows : List (List F)) (i : ℕ) → length (frame rows i) ≡ length rows
  length-frame [] i = refl
  length-frame (channel ∷ rows) i = ap suc (length-frame rows i)

  pub length-interleaved :
      (rows : List (List F)) (left i : ℕ) → length (interleaved rows left i) ≡ left * length rows
  length-interleaved rows zero i = omega arith
  length-interleaved rows (suc left) i =
      let front = length-frame rows i in
      let rest = length-interleaved rows left (suc i) in
      length-append (frame rows i) (interleaved rows left (suc i))
      ∙ omega (arith, front, rest, suc-mul left (length rows))

  at-frame :
      (before rest : List (List F)) (channel : List F) (i : ℕ)
      → at y (frame (before ++ (channel ∷ rest)) i) (length before) ≡ of (at z channel i)
  at-frame [] rest channel i = refl
  at-frame (first ∷ before) rest channel i = at-frame before rest channel i

  at-interleaved :
      (rows : List (List F)) (c j left i : ℕ)
      → j < left
      → c < length rows
      → at y (interleaved rows left i) (j * length rows + c) ≡ at y (frame rows (i + j)) c
  at-interleaved rows c j zero i h within = absurd (omega (arith, h))
  at-interleaved rows c zero (suc left) i h within =
      let place : 0 * length rows + c ≡ c = omega arith in
      let here : i ≡ i + 0 = omega arith in
      ap (at y (frame rows i ++ interleaved rows left (suc i))) place
      ∙ at-append_left y (frame rows i) (interleaved rows left (suc i)) c
          (omega (arith, within, length-frame rows i))
      ∙ ap (λ k. at y (frame rows k) c) here
  at-interleaved rows c (suc j) (suc left) i h within =
      let width = length-frame rows i in
      let place : suc j * length rows + c ≡ length (frame rows i) + (j * length rows + c) =
        omega (arith, width, suc-mul j (length rows)) in
      let there : suc i + j ≡ i + suc j = omega arith in
      ap (at y (frame rows i ++ interleaved rows left (suc i))) place
      ∙ at-append_right y (frame rows i) (interleaved rows left (suc i)) (j * length rows + c)
      ∙ at-interleaved rows c j left (suc i) (omega (arith, h)) within
      ∙ ap (λ k. at y (frame rows k) c) there

  column-channel :
      (before rest : List (List F)) (channel : List F) (left i n : ℕ)
      → length channel ≡ i + left
      → length channel ≡ n
      → let rows = before ++ (channel ∷ rest) in
        column y (interleaved rows n 0) (length rows) (length before) left i
        ≡ map of (drop i channel)
  unfolding column
  column-channel before rest channel zero i n h same =
      sym (ap (map of) (drop-none i channel (omega (arith, h))))
  column-channel before rest channel (suc left) i n h same =
      let rows = before ++ (channel ∷ rest) in
      let inside : length before < length rows =
        omega (arith, length-append before (channel ∷ rest)) in
      let here : at y (interleaved rows n 0) (i * length rows + length before)
          ≡ of (at z channel i) =
        at-interleaved rows (length before) i n 0 (omega (arith, h, same)) inside
        ∙ at-frame before rest channel (0 + i)
        ∙ ap (λ k. of (at z channel k)) (zero_before i) in
      ap₂ ◌∷◌ here (column-channel before rest channel left (suc i) n (omega (arith, h)) same)
      ∙ ap (map of) (drop-at z channel i (omega (arith, h)))

  -- All channels from one on.
  pub columns-channels :
      (before rest : List (List F)) (n : ℕ)
      → All (λ channel. length channel ≡ n) rest
      → let rows = before ++ rest in
        columns y (interleaved rows n 0) (length rows) n (length rest) (length before)
        ≡ map (map of) rest
  unfolding columns
  columns-channels before [] n h = refl
  columns-channels before (channel ∷ rest) n (same, h) =
      let next : (before ++ (channel ∷ [])) ++ rest ≡ before ++ (channel ∷ rest) =
        append_assoc before (channel ∷ []) rest in
      let place : length (before ++ (channel ∷ [])) ≡ suc (length before) =
        length-append before (channel ∷ []) ∙ omega arith in
      ap₂ ◌∷◌ (column-channel before rest channel n 0 n (omega (arith, same)) same) (
        ap₂ (λ rows c. columns y (interleaved rows n 0) (length rows) n (length rest) c) (sym next)
          (sym place)
        ∙ columns-channels (before ++ (channel ∷ [])) rest n h)
