-- ===== src/KvCache/Stacked/Windows.antt =====
-- The window of a row: its last `n` items before the cursor. How placing, growing and writing a
-- row change it.
use vvaves.Common.{
  ℕ, zero, suc, ◌+◌, ◌-◌, ◌≤◌, ◌<◌, ◌≡◌, refl, sym, ap, ◌∙◌, List, [], ◌∷◌, ◌++◌, length, set, take,
  drop, replicate, arith, drop-append, take-append, length-drop, length-replicate, take-length,
  drop-drop, drop-length,
}
use vvaves.KvCache.Stacked.{place}

module _ {ℓ} {A : Type ℓ} where
  abbrev pub window : ℕ → ℕ → List A → List A
  window cur n row = take n (drop (cur - n) row)

  drop-replicate : (m n : ℕ) (z : A) (xs : List A) → drop (m + n) (replicate m z ++ xs) ≡ drop n xs
  drop-replicate m n z xs =
      sym (drop-drop m n _)
      ∙ ap (drop n) (
          ap (λ k. drop k (replicate m z ++ xs)) (sym (length-replicate m z))
          ∙ drop-length (replicate m z) xs)

  -- What was in the window stays, where the cursor moves with the row.
  pub window-place :
      (z : A) (row : List A) (cur n shift right : ℕ)
      → n ≤ cur
      → cur ≤ length row
      → window (cur + shift) n (place z row shift right) ≡ window cur n row
  unfolding place
  window-place z row cur n shift right hn hc =
      let d : cur + shift - n ≡ shift + (cur - n) = omega arith in
      let within : cur - n ≤ length row = omega arith in
      let room : n ≤ length (drop (cur - n) row) = omega (arith, length-drop (cur - n) row) in
      ap (take n) (
        ap (λ k. drop k (place z row shift right)) d
        ∙ drop-replicate shift (cur - n) z _
        ∙ drop-append (cur - n) row _ within)
      ∙ take-append n (drop (cur - n) row) _ room

  -- A row placed up to the cursor is its own window.
  pub window-place_new :
      (z : A) (row : List A) (cur right : ℕ)
      → length row ≤ cur
      → window cur (length row) (place z row (cur - length row) right) ≡ row
  unfolding place
  window-place_new z row cur right h =
      let m = cur - length row in
      let d : m ≡ m + 0 = omega arith in
      ap (take (length row)) (ap (λ k. drop k (place z row m right)) d ∙ drop-replicate m 0 z _)
      ∙ take-length row _

  pub window-append :
      (row more : List A) (cur n : ℕ)
      → n ≤ cur
      → cur ≤ length row
      → window cur n (row ++ more) ≡ window cur n row
  window-append row more cur n hn hc =
      let within : cur - n ≤ length row = omega arith in
      let room : n ≤ length (drop (cur - n) row) = omega (arith, length-drop (cur - n) row) in
      ap (take n) (drop-append (cur - n) row more within) ∙ take-append n _ more room

  take-set :
      (n : ℕ) (row : List A) (k : A)
      → n < length row
      → take (suc n) (set row n k) ≡ take n row ++ (k ∷ [])
  take-set n [] k h = absurd (omega arith)
  take-set zero (x ∷ row) k h = refl
  take-set (suc n) (x ∷ row) k h = ap (λ l. x ∷ l) (take-set n row k (omega arith))

  drop-set : (m n : ℕ) (row : List A) (k : A) → drop m (set row (m + n) k) ≡ set (drop m row) n k
  drop-set zero n row k = ap (λ i. set row i k) (omega arith)
  drop-set (suc m) n [] k = refl
  drop-set (suc m) n (x ∷ row) k =
      let e : suc m + n ≡ suc (m + n) = omega arith in
      ap (λ i. drop (suc m) (set (x ∷ row) i k)) e ∙ drop-set m n row k

  -- An item written at the cursor joins the window.
  pub window-set :
      (row : List A) (cur n : ℕ) (k : A)
      → n ≤ cur
      → cur < length row
      → window (cur + 1) (suc n) (set row cur k) ≡ window cur n row ++ (k ∷ [])
  window-set row cur n k hn hc =
      let d : cur + 1 - suc n ≡ cur - n = omega arith in
      let e : cur ≡ (cur - n) + n = omega arith in
      let room : n < length (drop (cur - n) row) = omega (arith, length-drop (cur - n) row) in
      ap (λ m. take (suc n) (drop m (set row cur k))) d
      ∙ ap (λ i. take (suc n) (drop (cur - n) (set row i k))) e
      ∙ ap (take (suc n)) (drop-set (cur - n) n row k)
      ∙ take-set n (drop (cur - n) row) k room
