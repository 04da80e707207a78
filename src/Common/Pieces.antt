-- ===== src/Common/Pieces.antt =====
-- `chunks_exact` and `position` of Rust's slices and iterators.
use Prim.Native.Nat.{ℕ, zero, suc, ◌+◌, ◌*◌, ◌/◌, ◌≤◌, ◌<◌}
use mathlib.Core.Path.{◌≡◌, refl, ap, ap₂, ◌∙◌}
use mathlib.Core.Bool.{Bool, true, false}
use mathlib.Core.List.{List, [], ◌∷◌, ◌++◌}
use mathlib.Core.Option.{Option, none, some}
use mathlib.Core.Option
use native.Mathlib.Omega.{arith}
use native.Mathlib.Nat.{mul-add-div_right, div-mul-le_self}
use vvaves.Common.Lists.{
  length, take, drop, take-append, drop-append, drop-drop, length-append, length-drop,
}

module _ {ℓ} {A : Type ℓ} where
  -- `k` pieces of `h` items each, from the front.
  unfoldable pub pieces : ℕ → ℕ → List A → List (List A)
  pieces zero h xs = []
  pieces (suc k) h xs = take h xs ∷ pieces k h (drop h xs)

  -- `xs.chunks_exact(h)`; Rust panics at `h = 0`, where this has no piece.
  unfoldable pub chunks_exact : ℕ → List A → List (List A)
  chunks_exact h xs = pieces (length xs / h) h xs

  -- `iter.position(p)`
  unfoldable pub position : (A → Bool) → List A → Option ℕ
  position p [] = none
  position p (x ∷ xs) = elim (p x) [ true ↦ some 0 | false ↦ Option.map suc (position p xs) ]

  pub position-append :
      (p : A → Bool) (xs ys : List A)
      → position p xs ≡ none
      → position p (xs ++ ys) ≡ Option.map (λ i. length xs + i) (position p ys)
  unfolding position
  position-append p [] ys h = ground arith
  position-append p (x ∷ xs) ys h = ground (arith, position-append p xs ys)

  pub position-append_hit :
      (p : A → Bool) (xs ys : List A) (i : ℕ)
      → position p xs ≡ some i
      → position p (xs ++ ys) ≡ some i
  unfolding position
  position-append_hit p [] ys i h = ground arith
  position-append_hit p (x ∷ xs) ys zero h = ground (arith, position-append_hit p xs ys 0)
  position-append_hit p (x ∷ xs) ys (suc i) h = ground (arith, position-append_hit p xs ys i)

  pub position-lt : (p : A → Bool) (xs : List A) (i : ℕ) → position p xs ≡ some i → i < length xs
  unfolding position
  position-lt p [] i h = ground arith
  position-lt p (x ∷ xs) zero h = omega arith
  position-lt p (x ∷ xs) (suc i) h = ground (arith, position-lt p xs i)

  pub length-pieces : (k h : ℕ) (xs : List A) → length (pieces k h xs) ≡ k
  unfolding pieces
  length-pieces zero h xs = refl
  length-pieces (suc k) h xs = ap suc (length-pieces k h (drop h xs))

  pub pieces-append :
      (k h : ℕ) (xs ys : List A) → k * h ≤ length xs → pieces k h (xs ++ ys) ≡ pieces k h xs
  unfolding pieces
  pieces-append zero h xs ys le = refl
  pieces-append (suc k) h xs ys le =
      let fits : h ≤ length xs = grind arith in
      let room : k * h ≤ length (drop h xs) = grind (arith, length-drop h xs) in
      ap₂ ◌∷◌ (take-append h xs ys fits)
        (ap (pieces k h) (drop-append h xs ys fits) ∙ pieces-append k h (drop h xs) ys room)

  pub pieces-split :
      (j k h : ℕ) (xs : List A)
      → pieces (j + k) h xs ≡ pieces j h xs ++ pieces k h (drop (j * h) xs)
  unfolding pieces
  pieces-split zero k h xs =
      let e : zero + k ≡ k = omega arith in
      let d : 0 ≡ zero * h = omega arith in
      ap (λ a. pieces a h xs) e ∙ ap (λ b. pieces k h (drop b xs)) d
  pieces-split (suc j) k h xs =
      let e : suc j + k ≡ suc (j + k) = omega arith in
      let d : h + j * h ≡ suc j * h = grind arith in
      ap (λ n. pieces n h xs) e
      ∙ ap (λ l. take h xs ∷ l)
          (pieces-split j k h (drop h xs)
            ∙ ap (λ l. pieces j h (drop h xs) ++ pieces k h l)
                (drop-drop h (j * h) xs ∙ ap (λ n. drop n xs) d))

  -- The pieces of a longer list are those of its front, then those from where the front's end.
  pub chunks_exact-append :
      (h : ℕ) (xs ys : List A)
      → 0 < h
      → chunks_exact h (xs ++ ys)
        ≡ chunks_exact h xs ++ chunks_exact h (drop (length xs / h * h) (xs ++ ys))
  unfolding chunks_exact
  chunks_exact-append h xs ys pos =
      let j : ℕ = length xs / h in
      let le : j * h ≤ length xs = div-mul-le_self (length xs) h in
      let rest : ℕ = length (drop (j * h) (xs ++ ys)) in
      let total : length (xs ++ ys) ≡ j * h + rest =
        omega (arith, length-drop (j * h) (xs ++ ys), length-append xs ys) in
      let count : length (xs ++ ys) / h ≡ j + rest / h =
        ap (λ n. n / h) total ∙ mul-add-div_right pos j rest in
      ap (λ n. pieces n h (xs ++ ys)) count
      ∙ pieces-split j (rest / h) h (xs ++ ys)
      ∙ ap (λ l. l ++ pieces (rest / h) h (drop (j * h) (xs ++ ys))) (pieces-append j h xs ys le)
