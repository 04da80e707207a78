-- ===== src/KvCache/Stacked/Count.antt =====
-- How many rows a `StackedKv` has after each call.
use vvaves.Common.{
  map, ℕ, suc, ◌≡◌, refl, ap, ◌∙◌, List, [], ◌∷◌, length, leb, arith, length-append, Bool-cases,
  inl, inr,
}
use vvaves.KvCache.Stacked.{
  Stacked, rows, empty, remove_at, add_row, row_added, remove_row, pushed, push, grown,
}
use vvaves.KvCache.Stacked.Rows.{length-bump, length-remove_at}

pub rows-empty {ℓ} : (A : Type ℓ) → rows (empty {A = A}) ≡ 0
unfolding rows empty
rows-empty A = refl

module _ {ℓ} {A : Type ℓ} where
  pub rows-add_row :
      (z : A) (to_dtype : A → A) (s : Stacked A) (k : List A) (at : ℕ)
      → rows (add_row z to_dtype s k at) ≡ suc (rows s)
  unfolding rows add_row row_added
  rows-add_row z to_dtype s k at = omega (arith, length-append s.len (length (map to_dtype k) ∷ []))

  len-grown : (z : A) (s : Stacked A) → (grown z s).len ≡ s.len
  unfolding grown
  len-grown z s = elim (Bool-cases (leb s.cap s.cur)) [
    | inl full ↦ rw full refl
    | inr free ↦ rw free refl
  ]

  pub rows-push :
      (z : A) (to_dtype : A → A) (s : Stacked A) (ks : List A)
      → rows (push z to_dtype s ks) ≡ rows s
  unfolding rows push pushed
  rows-push z to_dtype s ks =
      length-bump (length (map to_dtype ks)) (grown z s).len ∙ ap length (len-grown z s)

  pub rows-remove_row {κ} :
      {B : Type κ} (s : Stacked A) (i : ℕ) (ys : List B)
      → rows s ≡ length ys
      → rows (remove_row s i) ≡ length (remove_at i ys)
  unfolding rows remove_row
  rows-remove_row s i ys e = length-remove_at i s.len ys e
