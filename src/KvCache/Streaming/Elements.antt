-- ===== src/KvCache/Streaming/Elements.antt =====
-- Lists item by item: what `get_elem?` finds in a part, a join and a write.
use vvaves.Common.{
  ℕ, zero, suc, ◌+◌, ◌-◌, ◌%◌, ◌≤◌, ◌<◌, ◌≡◌, refl, ap, ap₂, ◌∙◌, sym, ◌⊎◌, inl, inr, none, some,
  List, [], ◌∷◌, ◌++◌, length, take, drop, get_elem?, arith, length-append, length-take,
  length-drop,
}
use native.Mathlib.Nat.{mod-eq_of_lt, mod-eq-sub-mod}
use vvaves.KvCache.Streaming.{slice_set}
use native.Mathlib.Decide.{dec_lt}

module _ {ℓ} {A : Type ℓ} where
  some-ne : {x y : A} → some x ≡ some y → x ≡ y
  some-ne e = cc

  pub list_ext : (xs ys : List A) → ((i : ℕ) → get_elem? xs i ≡ get_elem? ys i) → xs ≡ ys
  list_ext [] [] h = refl
  list_ext [] (y ∷ ys) h = let e : none ≡ some y = h 0 in cc
  list_ext (x ∷ xs) [] h = let e : some x ≡ none = h 0 in cc
  list_ext (x ∷ xs) (y ∷ ys) h = ap₂ ◌∷◌ (some-ne (h 0)) (list_ext xs ys (λ i. h (suc i)))

  pub get_elem?-append_left :
      (xs ys : List A) (i : ℕ) → i < length xs → get_elem? (xs ++ ys) i ≡ get_elem? xs i
  get_elem?-append_left [] ys i h = absurd (omega arith)
  get_elem?-append_left (x ∷ xs) ys zero h = refl
  get_elem?-append_left (x ∷ xs) ys (suc i) h = get_elem?-append_left xs ys i (omega arith)

  pub get_elem?-append_right :
      (xs ys : List A) (i j : ℕ) → i ≡ length xs + j → get_elem? (xs ++ ys) i ≡ get_elem? ys j
  get_elem?-append_right [] ys i j h = ap (get_elem? ys) (h ∙ omega arith)
  get_elem?-append_right (x ∷ xs) ys zero j h = absurd (omega arith)
  get_elem?-append_right (x ∷ xs) ys (suc i) j h = get_elem?-append_right xs ys i j (omega arith)

  pub get_elem?-past : (xs : List A) (i : ℕ) → length xs ≤ i → get_elem? xs i ≡ none
  get_elem?-past [] i h = refl
  get_elem?-past (x ∷ xs) zero h = absurd (omega arith)
  get_elem?-past (x ∷ xs) (suc i) h = get_elem?-past xs i (omega arith)

  pub get_elem?-take :
      (n : ℕ) (xs : List A) (i : ℕ) → i < n → get_elem? (take n xs) i ≡ get_elem? xs i
  get_elem?-take zero xs i h = absurd (omega arith)
  get_elem?-take (suc n) [] i h = refl
  get_elem?-take (suc n) (x ∷ xs) zero h = refl
  get_elem?-take (suc n) (x ∷ xs) (suc i) h = get_elem?-take n xs i (omega arith)

  pub get_elem?-drop :
      (n : ℕ) (xs : List A) (i : ℕ) → get_elem? (drop n xs) i ≡ get_elem? xs (n + i)
  get_elem?-drop zero xs i = ap (get_elem? xs) (omega arith)
  get_elem?-drop (suc n) [] i = refl
  get_elem?-drop (suc n) (x ∷ xs) i =
      let e : suc n + i ≡ suc (n + i) = omega arith in
      get_elem?-drop n xs i ∙ ap (get_elem? (x ∷ xs)) (sym e)

  -- A write within the buffer: what was there before it, the source, what was there after it.
  pub slice_set_before :
      (buf src : List A) (at i : ℕ)
      → at ≤ length buf
      → i < at
      → get_elem? (slice_set buf src at) i ≡ get_elem? buf i
  slice_set_before buf src at i h lt =
      get_elem?-append_left (take at buf) (src ++ drop (at + length src) buf) i
        (omega (arith, length-take at buf))
      ∙ get_elem?-take at buf i lt

  pub slice_set_in :
      (buf src : List A) (at i j : ℕ)
      → at ≤ length buf
      → j < length src
      → i ≡ at + j
      → get_elem? (slice_set buf src at) i ≡ get_elem? src j
  slice_set_in buf src at i j h lt e =
      get_elem?-append_right (take at buf) (src ++ drop (at + length src) buf) i j
        (omega (arith, length-take at buf))
      ∙ get_elem?-append_left src _ j lt

  pub slice_set_after :
      (buf src : List A) (at i : ℕ)
      → at ≤ length buf
      → at + length src ≤ i
      → get_elem? (slice_set buf src at) i ≡ get_elem? buf i
  slice_set_after buf src at i h le =
      get_elem?-append_right (take at buf) (src ++ drop (at + length src) buf) i (i - at)
        (omega (arith, length-take at buf))
      ∙ get_elem?-append_right src (drop (at + length src) buf) (i - at) (i - at - length src)
          (omega arith)
      ∙ get_elem?-drop (at + length src) buf (i - at - length src)
      ∙ ap (get_elem? buf) (omega arith)

  pub length-slice_set :
      (buf src : List A) (at : ℕ)
      → at + length src ≤ length buf
      → length (slice_set buf src at) ≡ length buf
  length-slice_set buf src at h = omega (
    arith,
    length-append (take at buf) (src ++ drop (at + length src) buf),
    length-append src (drop (at + length src) buf),
    length-take at buf,
    length-drop (at + length src) buf,
  )

-- A sum below twice the modulus wraps once at most.
pub mod_once : (a w : ℕ) → a < w + w → ((a < w) × (a % w ≡ a)) ⊎ ((w ≤ a) × (a % w ≡ a - w))
mod_once a w h = elim (dec_lt a w) [
  | yes p ↦ inl (p, mod-eq_of_lt p)
  | no q ↦ let le : w ≤ a = omega arith in inr (le, mod-eq-sub-mod le ∙ mod-eq_of_lt (omega arith))
]
