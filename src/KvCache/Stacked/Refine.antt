-- ===== src/KvCache/Stacked/Refine.antt =====
-- `StackedKv` keeps, for each stream, just the items that it was given: its operations are those
-- of a plain list of histories.
use vvaves.Common.{
  ℕ, suc, ◌+◌, ◌-◌, ◌≤◌, ◌<◌, ◌≡◌, refl, sym, ap, ap₂, ◌∙◌, subst, List, [], ◌∷◌, ◌++◌, map, max,
  length, replicate, arith, length-append, length-replicate, length-map, ltb, Bool-cases, leb, inl,
  inr, true, false, lt→ltb,
}
use vvaves.KvCache.Pow2.{next_power_of_two, le-next_power_of_two}
use vvaves.KvCache.Stacked.{
  Stacked, rows, remove_at, remove_row, place, row_added, add_row, pushed, push, grown,
}
use vvaves.KvCache.Stacked.Windows.{window-place_new}
use vvaves.KvCache.Stacked.Rows.{
  Rows, IsAligned, views_of, views, extend_each, Rows-moved, Rows-snoc, views_of-moved,
  views_of-snoc, Rows-remove_at, views_of-remove_at, length-remove_at, length-bump, Rows-widened,
  Rows-written,
}

module _ {A : Type 0} (z : A) where
  length-placed :
      (k : List A) (cur cap : ℕ)
      → length k ≤ cur
      → cur ≤ cap
      → length (place z k (cur - length k) (cap - cur)) ≡ cap
  unfolding place
  length-placed k cur cap h c =
      let left = replicate (cur - length k) z in
      let right = replicate (cap - cur) z in
      omega (
        arith,
        length-append left (k ++ right),
        length-append k right,
        length-replicate (cur - length k) z,
        length-replicate (cap - cur) z,
      )

  -- The old rows moved and a new one put below them, in buffers that are wide enough.
  appended :
      (cells : List (List A)) (cap cur : ℕ) (len : List ℕ) (k : List A) (cur' cap' : ℕ)
      → Rows cap cur cells len
      → cur ≤ cap
      → cur ≤ cur'
      → length k ≤ cur'
      → cap + (cur' - cur) ≤ cap'
      → let moved = map (λ r. place z r (cur' - cur) (cap' - cap - (cur' - cur))) cells in
        let new = place z k (cur' - length k) (cap' - cur') in
        (views_of cur' (moved ++ (new ∷ [])) (len ++ (length k ∷ []))
          ≡ views_of cur cells len ++ (k ∷ []))
        × Rows cap' cur' (moved ++ (new ∷ [])) (len ++ (length k ∷ []))
  appended cells cap cur len k cur' cap' rs le up fits wide =
      let shift = cur' - cur in
      let right = cap' - cap - shift in
      let moved = map (λ r. place z r shift right) cells in
      let new = place z k (cur' - length k) (cap' - cur') in
      let at : cur + shift ≡ cur' = omega arith in
      let width : shift + cap + right ≡ cap' = omega arith in
      let ok : Rows cap' cur' moved len =
        subst (λ c. Rows c cur' moved len) width
          (subst (λ c. Rows (shift + cap + right) c moved len) at
            (Rows-moved z cap cur shift right cells len rs)) in
      let same : views_of cur' moved len ≡ views_of cur cells len =
        ap (λ c. views_of c moved len) (sym at)
        ∙ views_of-moved z cap cur shift right cells len rs le in
      (
        views_of-snoc cap' cur' (length k) new moved len ok
            ∙ ap₂ (λ vs w. vs ++ (w ∷ [])) same (window-place_new z k cur' (cap' - cur') fits),
        Rows-snoc cap' cur' (length k) new moved len ok
            (length-placed k cur' cap' fits (omega arith)) fits,
      )

  abbrev made : List (List A) → ℕ → ℕ → List ℕ → List ℕ → Stacked A
  made cells c cur len pos = record { cells = cells; cap = c; cur = cur; len = len; pos = pos }

  abbrev Added : Stacked A → List A → Stacked A → Type 0
  Added s k t = (views t ≡ views s ++ (k ∷ [])) × IsAligned t

  row_added_first :
      (c cur : ℕ) (pos : List ℕ) (k : List A) (at : ℕ)
      → IsAligned (made [] c cur [] pos)
      → Added (made [] c cur [] pos) k (row_added z false (made [] c cur [] pos) k at)
  unfolding row_added
  row_added_first c cur pos k at v =
      let cur' = max cur (length k) in
      let big = le-next_power_of_two (max (cur' + 1) (0 + (cur' - cur))) in
      let cap' = next_power_of_two (max (cur' + 1) (0 + (cur' - cur))) in
      let (vs, rs) =
        appended [] cur cur [] k cur' cap' tt (omega arith) (omega arith) (omega arith)
          (omega arith) in
      (
        vs,
        record {
          aligned = rs;
          room = omega arith;
          positions = omega (arith, v.positions, length-append pos (at ∷ []));
        },
      )

  row_added_next :
      (s : Stacked A) (k : List A) (at : ℕ) → IsAligned s → Added s k (row_added z true s k at)
  unfolding row_added
  row_added_next s k at v =
      let cur' = max s.cur (length k) in
      let big = le-next_power_of_two (max (cur' + 1) (s.cap + (cur' - s.cur))) in
      let cap' = next_power_of_two (max (cur' + 1) (s.cap + (cur' - s.cur))) in
      let (vs, rs) =
        appended s.cells s.cap s.cur s.len k cur' cap' v.aligned v.room (omega arith) (omega arith)
          (omega arith) in
      (
        vs,
        record {
          aligned = rs;
          room = omega arith;
          positions = omega (
            arith,
            v.positions,
            length-append s.pos (at ∷ []),
            length-append s.len (length k ∷ []),
          );
        },
      )

  -- A new row: its items are the last history, and the others are as they were.
  add_row_by :
      (cells : List (List A)) (c cur : ℕ) (len pos : List ℕ) (k : List A) (at : ℕ)
      → IsAligned (made cells c cur len pos)
      → Added
          (made cells c cur len pos)
          k
          (row_added z (ltb 0 (length len)) (made cells c cur len pos) k at)
  add_row_by [] c cur [] pos k at v = row_added_first c cur pos k at v
  add_row_by [] c cur (m ∷ ms) pos k at v = absurd v.aligned
  add_row_by (r ∷ rs) c cur [] pos k at v = absurd v.aligned
  add_row_by (r ∷ rs) c cur (m ∷ ms) pos k at v =
      let s = made (r ∷ rs) c cur (m ∷ ms) pos in
      subst (λ b. Added s k (row_added z b s k at)) (sym (lt→ltb 0 (suc (length ms)) (omega arith)))
        (row_added_next s k at v)

  pub add_row-views :
      (to_dtype : A → A) (s : Stacked A) (k : List A) (at : ℕ)
      → IsAligned s
      → Added s (map to_dtype k) (add_row z to_dtype s k at)
  unfolding add_row rows
  add_row-views to_dtype s k at v = add_row_by s.cells s.cap s.cur s.len s.pos (map to_dtype k) at v

  pub remove_row-views :
      (s : Stacked A) (i : ℕ)
      → IsAligned s
      → (views (remove_row s i) ≡ remove_at i (views s)) × IsAligned (remove_row s i)
  unfolding remove_row
  remove_row-views s i v = (
    views_of-remove_at i s.cap s.cur s.cells s.len v.aligned,
    record {
      aligned = Rows-remove_at i s.cap s.cur s.cells s.len v.aligned;
      room = v.room;
      positions = length-remove_at i s.pos s.len v.positions;
    },
  )

  grown-views :
      (s : Stacked A)
      → IsAligned s
      → (views (grown z s) ≡ views s) × IsAligned (grown z s) × ((grown z s).cur < (grown z s).cap)
  unfolding grown
  grown-views s v = elim (Bool-cases (leb s.cap s.cur)) [
    | inl full ↦
        let extra = max s.cap 64 in
        let (rs, vs) =
          Rows-widened (replicate extra z) s.cap s.cur s.cells s.len v.aligned v.room in
        let rs' =
          subst (λ n. Rows (s.cap + n) s.cur (map (λ r. r ++ replicate extra z) s.cells) s.len)
            (length-replicate extra z) rs in
        rw (full, grown)
          (vs, record { aligned = rs'; room = omega arith; positions = v.positions }, omega arith)
    | inr free ↦ rw (free, grown) (refl, v, ground arith)
  ]

  grown-len : (s : Stacked A) → (grown z s).len ≡ s.len
  unfolding grown
  grown-len s = elim (Bool-cases (leb s.cap s.cur)) [
    | inl full ↦ rw (full, grown) refl
    | inr free ↦ rw (free, grown) refl
  ]

  -- One item for each row: each history has its item added at the end.
  pushed-views :
      (s : Stacked A) (ks : List A)
      → IsAligned s
      → length ks ≡ rows s
      → (views (pushed z s ks) ≡ extend_each (views s) ks) × IsAligned (pushed z s ks)
  unfolding pushed rows
  pushed-views s ks v e =
      let g = grown z s in
      let (same, ga, free) = grown-views s v in
      let count : length ks ≡ length g.len = e ∙ ap length (sym (grown-len s)) in
      let (rs, vs) = Rows-written ks g.cap g.cur g.cells g.len ga.aligned free count in
      (
        vs ∙ ap (λ l. extend_each l ks) same,
        record {
          aligned = rs;
          room = omega arith;
          positions =
              length-bump (length ks) g.pos ∙ ga.positions ∙ sym (length-bump (length ks) g.len);
        },
      )

  pub push-views :
      (to_dtype : A → A) (s : Stacked A) (ks : List A)
      → IsAligned s
      → length ks ≡ rows s
      → (views (push z to_dtype s ks) ≡ extend_each (views s) (map to_dtype ks))
        × IsAligned (push z to_dtype s ks)
  unfolding push
  push-views to_dtype s ks v e = pushed-views s (map to_dtype ks) v (length-map to_dtype ks ∙ e)
