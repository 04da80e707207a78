-- ===== src/KvCache/Stacked/Runs.antt =====
-- Any sequence of calls on a `StackedKv`, against a list of histories.
use vvaves.Common.{
  ℕ, suc, ◌+◌, ◌≤◌, ◌≡◌, refl, sym, ap, ◌∙◌, subst, List, [], ◌∷◌, ◌++◌, length, map, arith,
  Bool-cases, leb, inl, inr,
}
use vvaves.KvCache.Stacked.{
  Stacked, rows, empty, remove_at, remove_row, add_row, row_added, pushed, push, grown,
}
use vvaves.KvCache.Stacked.Rows.{IsAligned, Rows, views, views_of, extend_each}
use vvaves.KvCache.Stacked.Refine.{add_row-views, remove_row-views, push-views}

-- What `Batcher` asks of a cache: a row for a new stream, one taken out, an item for each row.
pub data Call (A : Type 0) : Type 0 where
  add : List A → ℕ → Call A
  remove : ℕ → Call A
  push_all : List A → Call A

module _ {A : Type 0} (z : A) (to_dtype : A → A) where
  pub step : Stacked A → Call A → Stacked A
  step s (add k at) = add_row z to_dtype s k at
  step s (remove i) = remove_row s i
  step s (push_all ks) = push z to_dtype s ks

  pub run : Stacked A → List (Call A) → Stacked A
  run s [] = s
  run s (c ∷ cs) = run (step s c) cs

  -- The same calls on a list of histories, of items as they are converted.
  unfoldable pub keep : List (List A) → Call A → List (List A)
  keep hs (add k at) = hs ++ (map to_dtype k ∷ [])
  keep hs (remove i) = remove_at i hs
  keep hs (push_all ks) = extend_each hs (map to_dtype ks)

  unfoldable pub keep_all : List (List A) → List (Call A) → List (List A)
  keep_all hs [] = hs
  keep_all hs (c ∷ cs) = keep_all (keep hs c) cs

  -- `forward_stacked` refuses a push of any other number of items.
  abbrev pub Fits : List (List A) → Call A → Type 0
  Fits hs (add k at) = Unit {0}
  Fits hs (remove i) = Unit {0}
  Fits hs (push_all ks) = length ks ≡ length hs

  abbrev pub AllFit : List (List A) → List (Call A) → Type 0
  AllFit hs [] = Unit {0}
  AllFit hs (c ∷ cs) = Fits hs c × AllFit (keep hs c) cs

  length-views_of :
      (cap cur : ℕ) (cells : List (List A)) (len : List ℕ)
      → Rows cap cur cells len
      → length (views_of cur cells len) ≡ length len
  length-views_of cap cur [] [] h = refl
  length-views_of cap cur [] (m ∷ ms) h = absurd h
  length-views_of cap cur (x ∷ xs) [] h = absurd h
  length-views_of cap cur (x ∷ xs) (m ∷ ms) (w, f, rest) =
      ap suc (length-views_of cap cur xs ms rest)

  pub rows-views : (s : Stacked A) → IsAligned s → length (views s) ≡ rows s
  unfolding rows
  rows-views s v = length-views_of s.cap s.cur s.cells s.len v.aligned

  step-views :
      (s : Stacked A) (c : Call A)
      → IsAligned s
      → Fits (views s) c
      → (views (step s c) ≡ keep (views s) c) × IsAligned (step s c)
  unfolding step keep
  step-views s (add k at) v fits = add_row-views z to_dtype s k at v
  step-views s (remove i) v fits = remove_row-views z s i v
  step-views s (push_all ks) v fits = push-views z to_dtype s ks v (fits ∙ rows-views s v)

  run-views :
      (cs : List (Call A)) (s : Stacked A) (hs : List (List A))
      → IsAligned s
      → views s ≡ hs
      → AllFit hs cs
      → (views (run s cs) ≡ keep_all hs cs) × IsAligned (run s cs)
  unfolding run keep_all
  run-views [] s hs v e fits = (e, v)
  run-views (c ∷ cs) s hs v e (fits, rest) =
      let (same, v') = step-views s c v (subst (λ l. Fits l c) (sym e) fits) in
      run-views cs (step s c) (keep hs c) v' (same ∙ ap (λ l. keep l c) e) rest

  empty-IsAligned : IsAligned (empty {A = A})
  unfolding empty
  empty-IsAligned = record { aligned = tt; room = omega arith; positions = refl }

  -- For any calls on a new cache in which each push has one item for each row: the items that
  -- `attend` reads for the rows are the histories that a plain list of lists keeps under the same
  -- calls, each item converted to the cache's type, and the buffers stay aligned (every row as wide
  -- as the buffer, none longer than the cursor, the cursor within the width).
  pub run-empty-views :
      (cs : List (Call A))
      → AllFit [] cs
      → (views (run empty cs) ≡ keep_all [] cs) × IsAligned (run empty cs)
  unfolding empty
  run-empty-views cs fits = run-views cs empty [] empty-IsAligned refl fits

  -- How many pushes there are among the calls.
  abbrev pub pushes : List (Call A) → ℕ
  pushes [] = 0
  pushes (add k at ∷ cs) = pushes cs
  pushes (remove i ∷ cs) = pushes cs
  pushes (push_all ks ∷ cs) = suc (pushes cs)

  step-cur : (s : Stacked A) (c : Call A) → s.cur + pushes (c ∷ []) ≤ (step s c).cur
  unfolding step add_row row_added remove_row push pushed grown
  step-cur s (add k at) = omega arith
  step-cur s (remove i) = omega arith
  step-cur s (push_all ks) = elim (Bool-cases (leb s.cap s.cur)) [
    | inl full ↦ rw full (omega arith)
    | inr free ↦ rw free (omega arith)
  ]

  run-cur : (cs : List (Call A)) (s : Stacked A) → s.cur + pushes cs ≤ (run s cs).cur
  unfolding run
  run-cur [] s = omega arith
  run-cur (add k at ∷ cs) s = omega (arith, step-cur s (add k at), run-cur cs (step s (add k at)))
  run-cur (remove i ∷ cs) s = omega (arith, step-cur s (remove i), run-cur cs (step s (remove i)))
  run-cur (push_all ks ∷ cs) s =
      omega (arith, step-cur s (push_all ks), run-cur cs (step s (push_all ks)))

  -- For any calls on a new cache in which each push has one item for each row: the buffers are at
  -- least as wide as the number of pushes since the cache was made, whatever rows have been taken
  -- out since.
  pub pushes-le-cap : (cs : List (Call A)) → AllFit [] cs → pushes cs ≤ (run empty cs).cap
  unfolding empty
  pushes-le-cap cs fits =
      let v = (run-empty-views cs fits).1 in omega (arith, run-cur cs empty, v.room)
