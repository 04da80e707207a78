-- ===== src/KvCache/Stacked/Rows.antt =====
-- The rows of `StackedKv` as the items that they stand for, and its invariant, through the list
-- operations that its functions make.
use vvaves.Common.{
  ℕ, zero, suc, ◌+◌, ◌≤◌, ◌≡◌, ◌<◌, refl, ap, ap₂, ◌∙◌, List, [], ◌∷◌, ◌++◌, map, length, replicate,
  arith, length-append, length-replicate, length-set,
}
use vvaves.KvCache.Stacked.{Stacked, remove_at, place, set_column, bump}
use vvaves.KvCache.Stacked.Windows.{window, window-place, window-append, window-set}

pub length-remove_at {ℓ κ} :
    {A : Type ℓ} {B : Type κ} (i : ℕ) (xs : List A) (ns : List B)
    → length xs ≡ length ns
    → length (remove_at i xs) ≡ length (remove_at i ns)
length-remove_at i [] [] h = refl
length-remove_at i [] (n ∷ ns) h = absurd (omega arith)
length-remove_at i (x ∷ xs) [] h = absurd (omega arith)
length-remove_at zero (x ∷ xs) (n ∷ ns) h = omega arith
length-remove_at (suc i) (x ∷ xs) (n ∷ ns) h = ap suc (length-remove_at i xs ns (omega arith))

pub length-bump : (b : ℕ) (v : List ℕ) → length (bump b v) ≡ length v
unfolding bump
length-bump zero v = refl
length-bump (suc b) [] = refl
length-bump (suc b) (n ∷ v) = ap suc (length-bump b v)

module _ {A : Type 0} where
  -- Each row is as wide as the buffer, and has no more items than the cursor has passed.
  abbrev pub Rows : ℕ → ℕ → List (List A) → List ℕ → Type 0
  Rows cap cur [] [] = Unit {0}
  Rows cap cur [] (n ∷ ns) = ⊥
  Rows cap cur (r ∷ rs) [] = ⊥
  Rows cap cur (r ∷ rs) (n ∷ ns) = (length r ≡ cap) × (n ≤ cur) × Rows cap cur rs ns

  pub record IsAligned (s : Stacked A) : Type 0 where
    pub aligned : Rows s.cap s.cur s.cells s.len
    pub room : s.cur ≤ s.cap
    pub positions : length s.pos ≡ length s.len

  -- The items that each row stands for.
  abbrev pub views_of : ℕ → List (List A) → List ℕ → List (List A)
  views_of cur [] ns = []
  views_of cur (r ∷ rs) [] = []
  views_of cur (r ∷ rs) (n ∷ ns) = window cur n r ∷ views_of cur rs ns

  abbrev pub views : Stacked A → List (List A)
  views s = views_of s.cur s.cells s.len

  -- An item for each history, at its end.
  abbrev pub extend_each : List (List A) → List A → List (List A)
  extend_each [] ks = []
  extend_each (h ∷ hs) [] = h ∷ hs
  extend_each (h ∷ hs) (k ∷ ks) = (h ++ (k ∷ [])) ∷ extend_each hs ks

  pub Rows-moved :
      (z : A) (cap cur shift right : ℕ) (cells : List (List A)) (len : List ℕ)
      → Rows cap cur cells len
      → Rows (shift + cap + right) (cur + shift) (map (λ r. place z r shift right) cells) len
  unfolding place
  Rows-moved z cap cur shift right [] [] h = tt
  Rows-moved z cap cur shift right [] (n ∷ ns) h = absurd h
  Rows-moved z cap cur shift right (r ∷ rs) [] h = absurd h
  Rows-moved z cap cur shift right (r ∷ rs) (n ∷ ns) (wide, fits, rest) = (
    omega (
      arith,
      length-append (replicate shift z) (r ++ replicate right z),
      length-append r (replicate right z),
      length-replicate shift z,
      length-replicate right z,
    ),
    omega arith,
    Rows-moved z cap cur shift right rs ns rest,
  )

  pub Rows-snoc :
      (cap cur n : ℕ) (r : List A) (cells : List (List A)) (len : List ℕ)
      → Rows cap cur cells len
      → length r ≡ cap
      → n ≤ cur
      → Rows cap cur (cells ++ (r ∷ [])) (len ++ (n ∷ []))
  Rows-snoc cap cur n r [] [] h wide fits = (wide, fits, tt)
  Rows-snoc cap cur n r [] (m ∷ ms) h wide fits = absurd h
  Rows-snoc cap cur n r (x ∷ xs) [] h wide fits = absurd h
  Rows-snoc cap cur n r (x ∷ xs) (m ∷ ms) (w, f, rest) wide fits =
      (w, f, Rows-snoc cap cur n r xs ms rest wide fits)

  pub views_of-moved :
      (z : A) (cap cur shift right : ℕ) (cells : List (List A)) (len : List ℕ)
      → Rows cap cur cells len
      → cur ≤ cap
      → views_of (cur + shift) (map (λ r. place z r shift right) cells) len ≡ views_of cur cells len
  views_of-moved z cap cur shift right [] ns h le = refl
  views_of-moved z cap cur shift right (r ∷ rs) [] h le = refl
  views_of-moved z cap cur shift right (r ∷ rs) (n ∷ ns) (wide, fits, rest) le =
      ap₂ ◌∷◌ (window-place z r cur n shift right fits (omega arith))
        (views_of-moved z cap cur shift right rs ns rest le)

  pub views_of-snoc :
      (cap cur n : ℕ) (r : List A) (cells : List (List A)) (len : List ℕ)
      → Rows cap cur cells len
      → views_of cur (cells ++ (r ∷ [])) (len ++ (n ∷ []))
        ≡ views_of cur cells len ++ (window cur n r ∷ [])
  views_of-snoc cap cur n r [] [] h = refl
  views_of-snoc cap cur n r [] (m ∷ ms) h = absurd h
  views_of-snoc cap cur n r (x ∷ xs) [] h = absurd h
  views_of-snoc cap cur n r (x ∷ xs) (m ∷ ms) (w, f, rest) =
      ap (λ l. window cur m x ∷ l) (views_of-snoc cap cur n r xs ms rest)

  pub Rows-remove_at :
      (i cap cur : ℕ) (cells : List (List A)) (len : List ℕ)
      → Rows cap cur cells len
      → Rows cap cur (remove_at i cells) (remove_at i len)
  Rows-remove_at i cap cur [] [] h = tt
  Rows-remove_at i cap cur [] (m ∷ ms) h = absurd h
  Rows-remove_at i cap cur (x ∷ xs) [] h = absurd h
  Rows-remove_at zero cap cur (x ∷ xs) (m ∷ ms) (w, f, rest) = rest
  Rows-remove_at (suc i) cap cur (x ∷ xs) (m ∷ ms) (w, f, rest) =
      (w, f, Rows-remove_at i cap cur xs ms rest)

  pub views_of-remove_at :
      (i cap cur : ℕ) (cells : List (List A)) (len : List ℕ)
      → Rows cap cur cells len
      → views_of cur (remove_at i cells) (remove_at i len) ≡ remove_at i (views_of cur cells len)
  views_of-remove_at i cap cur [] [] h = refl
  views_of-remove_at i cap cur [] (m ∷ ms) h = absurd h
  views_of-remove_at i cap cur (x ∷ xs) [] h = absurd h
  views_of-remove_at zero cap cur (x ∷ xs) (m ∷ ms) (w, f, rest) = refl
  views_of-remove_at (suc i) cap cur (x ∷ xs) (m ∷ ms) (w, f, rest) =
      ap (λ l. window cur m x ∷ l) (views_of-remove_at i cap cur xs ms rest)

  -- Wider buffers.
  pub Rows-widened :
      (more : List A) (cap cur : ℕ) (cells : List (List A)) (len : List ℕ)
      → Rows cap cur cells len
      → cur ≤ cap
      → Rows (cap + length more) cur (map (λ r. r ++ more) cells) len
        × (views_of cur (map (λ r. r ++ more) cells) len ≡ views_of cur cells len)
  Rows-widened more cap cur [] [] h le = (tt, refl)
  Rows-widened more cap cur [] (m ∷ ms) h le = absurd h
  Rows-widened more cap cur (x ∷ xs) [] h le = absurd h
  Rows-widened more cap cur (x ∷ xs) (m ∷ ms) (w, f, rest) le =
      let (rs, vs) = Rows-widened more cap cur xs ms rest le in
      (
        (omega (arith, length-append x more), f, rs),
        ap₂ ◌∷◌ (window-append x more cur m f (omega arith)) vs,
      )

  -- A column written at the cursor, an item for each row.
  pub Rows-written :
      (ks : List A) (cap cur : ℕ) (cells : List (List A)) (len : List ℕ)
      → Rows cap cur cells len
      → cur < cap
      → length ks ≡ length len
      → Rows cap (cur + 1) (set_column cur cells ks) (bump (length ks) len)
        × (views_of (cur + 1) (set_column cur cells ks) (bump (length ks) len)
            ≡ extend_each (views_of cur cells len) ks)
  unfolding set_column bump
  Rows-written [] cap cur [] [] h le e = (tt, refl)
  Rows-written (k ∷ ks) cap cur [] [] h le e = absurd (omega arith)
  Rows-written ks cap cur [] (m ∷ ms) h le e = absurd h
  Rows-written ks cap cur (x ∷ xs) [] h le e = absurd h
  Rows-written [] cap cur (x ∷ xs) (m ∷ ms) h le e = absurd (omega arith)
  Rows-written (k ∷ ks) cap cur (x ∷ xs) (m ∷ ms) (w, f, rest) le e =
      let (rs, vs) = Rows-written ks cap cur xs ms rest le (omega arith) in
      ((length-set x cur k ∙ w, omega arith, rs), ap₂ ◌∷◌ (window-set x cur m k f (omega arith)) vs)
