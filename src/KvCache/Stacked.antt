-- ===== src/KvCache/Stacked.antt =====
-- `StackedKv` of attention.rs: the caches of several streams as rows of one buffer, right-aligned
-- on one cursor.
pub mod Windows
pub mod Rows
pub mod Count
pub mod Refine
pub mod Runs
use vvaves.Common.{
  ℕ, zero, suc, ◌+◌, ◌-◌, Bool, List, [], ◌∷◌, ◌++◌, map, max, length, set, take, drop, replicate,
  ltb, leb, if◌then◌else◌,
}
use vvaves.KvCache.Pow2.{next_power_of_two}

pub record Stacked {ℓ} (A : Type ℓ) : Type ℓ where
  pub cells : List (List A)
  -- dimension 2 of the buffers, which they keep when they have no row
  pub cap : ℕ
  pub cur : ℕ
  pub len : List ℕ
  pub pos : List ℕ

pub rows {ℓ} : {A : Type ℓ} → Stacked A → ℕ
rows s = length s.len

unfoldable pub empty {ℓ} : {A : Type ℓ} → Stacked A
empty = record { cells = []; cap = 0; cur = 0; len = []; pos = [] }

-- `Vec::remove`, and the rows that `index_select` keeps. Past the end Rust panics.
abbrev pub remove_at {ℓ} : {A : Type ℓ} → ℕ → List A → List A
remove_at i [] = []
remove_at zero (x ∷ xs) = xs
remove_at (suc i) (x ∷ xs) = x ∷ remove_at i xs

pub remove_row {ℓ} : {A : Type ℓ} → Stacked A → ℕ → Stacked A
remove_row s i = record s {
  cells = remove_at i s.cells;
  len = remove_at i s.len;
  pos = remove_at i s.pos;
}

-- `k` in column `i` of each row, one item for each.
pub set_column {ℓ} : {A : Type ℓ} → ℕ → List (List A) → List A → List (List A)
set_column i [] ks = []
set_column i (r ∷ rs) [] = r ∷ rs
set_column i (r ∷ rs) (k ∷ ks) = set r i k ∷ set_column i rs ks

-- `for i in 0..b { v[i] += 1 }`
pub bump : ℕ → List ℕ → List ℕ
bump zero v = v
bump (suc b) [] = []
bump (suc b) (n ∷ v) = suc n ∷ bump b v

module _ {ℓ} {A : Type ℓ} (zero_item : A) where
  -- A row moved right by `left` columns and filled up with zeros.
  pub place : List A → ℕ → ℕ → List A
  place t left right = replicate left zero_item ++ (t ++ replicate right zero_item)

  -- `add_row` after the conversion and the test `rows > 0`.
  pub row_added : Bool → Stacked A → List A → ℕ → Stacked A
  unfolding place
  row_added occupied s k at =
      let len = length k in
      let new_cur = max s.cur len in
      let shift = new_cur - s.cur in
      let old_cap = if occupied then s.cap else 0 in
      let new_cap = next_power_of_two (max (new_cur + 1) (old_cap + shift)) in
      let olds =
        if occupied then map (λ r. place r shift (new_cap - old_cap - shift)) s.cells else [] in
      record {
        cells = olds ++ (place k (new_cur - len) (new_cap - new_cur) ∷ []);
        cap = new_cap;
        cur = new_cur;
        len = s.len ++ (len ∷ []);
        pos = s.pos ++ (at ∷ []);
      }

  pub grown : Stacked A → Stacked A
  grown s =
      let extra = max s.cap 64 in
      if leb s.cap s.cur
      then record s {
        cells = map (λ r. r ++ replicate extra zero_item) s.cells;
        cap = s.cap + extra;
      }
      else s

  -- `push` after the conversion.
  pub pushed : Stacked A → List A → Stacked A
  unfolding grown set_column bump
  pushed s ks =
      let g = grown s in
      record {
        cells = set_column g.cur g.cells ks;
        cap = g.cap;
        cur = g.cur + 1;
        len = bump (length ks) g.len;
        pos = bump (length ks) g.pos;
      }

-- `to_dtype` is the conversion of an item to `cache_dtype()`, half precision unless the environment
-- says otherwise. The environment is taken to stay as it is, so that it is the buffers' type too.
module _ {ℓ} {A : Type ℓ} (zero_item : A) (to_dtype : A → A) where
  pub add_row : Stacked A → List A → ℕ → Stacked A
  unfolding row_added rows
  add_row s k at = row_added zero_item (ltb 0 (rows s)) s (map to_dtype k) at

  -- `ks` has an item for each row, which `forward_stacked` has checked.
  pub push : Stacked A → List A → Stacked A
  unfolding pushed
  push s ks = pushed zero_item s (map to_dtype ks)
