-- ===== src/KvCache/Streaming/Remember.antt =====
-- `remember`: the ring of a windowed attention holds the last items of all that it was given.

use native.Mathlib.Nat.{mod-lt, mod-eq_of_lt}
use vvaves.Common.{
  ℕ, zero, suc, ◌+◌, ◌-◌, ◌%◌, ◌≤◌, ◌<◌, ◌≡◌, refl, sym, ap, ap₂, ◌∙◌, subst, inl, inr, List, ◌++◌,
  append-nil, min, length, take, drop, arith, ltb, leb, if◌then◌else◌, Bool-cases, length-append,
  length-take, length-drop, drop-append, drop-drop, drop-length, take_all, lt→ltb, leb→le,
}
use vvaves.KvCache.Streaming.{Cache, narrow, slice_set, write_ring, remember}
use vvaves.KvCache.Streaming.Parts.{
  last, view, IsRing, view-parts, chunks-parts, length-parts, write_if, two_writes,
  length-two_writes,
}
use vvaves.KvCache.Streaming.Window.{written-parts, evicted-parts}

head-eq : (h e w : ℕ) → h < w → (if ltb 0 e then (h + e) % w else h) ≡ (h + e) % w
head-eq h zero w lt = let k : h + 0 ≡ h = omega arith in sym (ap (λ n. n % w) k ∙ mod-eq_of_lt lt)
head-eq h (suc e) w lt = rw (lt→ltb 0 (suc e) (omega arith)) refl

len-eq : (n e : ℕ) → (if ltb 0 e then n - e else n) ≡ n - e
len-eq n zero = omega arith
len-eq n (suc e) = rw (lt→ltb 0 (suc e) (omega arith)) refl

module _ {A : Type 0} where
  -- `write_ring` without its tests.
  abbrev stored : Cache A → List A → Cache A
  stored c ks =
      let w = length c.buf in
      let e = c.len + length ks - w in
      let head = (c.head + e) % w in
      record c {
        buf = two_writes c.buf ks ((head + (c.len - e)) % w);
        len = (c.len - e) + length ks;
        head = head;
      }

  abbrev tested : Cache A → List A → ℕ → ℕ → Cache A
  tested c ks head len =
      let w = length c.buf in
      let t = length ks in
      let start = (head + len) % w in
      let first = min t (w - start) in
      let second = t - first in
      let one = if ltb 0 first then slice_set c.buf (narrow ks 0 first) start else c.buf in
      let two = if ltb 0 second then slice_set one (narrow ks first second) 0 else one in
      record c { buf = two; len = len + t; head = head }

  write_ring-stored :
      (c : Cache A) (ks : List A)
      → c.head < length c.buf
      → write_ring (length c.buf) c ks ≡ stored c ks
  unfolding write_ring
  write_ring-stored c ks h =
      let w = length c.buf in
      let t = length ks in
      let e = c.len + t - w in
      let head = (c.head + e) % w in
      let len = c.len - e in
      let start = (head + len) % w in
      let first = min t (w - start) in
      let one = if ltb 0 first then slice_set c.buf (narrow ks 0 first) start else c.buf in
      ap₂ (tested c ks) (head-eq c.head e w h) (len-eq c.len e)
      ∙ ap (λ b. record c { buf = b; len = len + t; head = head })
          (write_if (t - first) 0 first one ks
            ∙ ap (λ b. slice_set b (narrow ks first (t - first)) 0)
                (write_if first start 0 c.buf ks))

  -- The end of a join, where the second part is no longer than the end.
  last-append :
      (w e : ℕ) (xs ks : List A)
      → length ks ≤ w
      → e ≡ length xs + length ks - w
      → last w (xs ++ ks) ≡ drop e xs ++ ks
  last-append w e xs ks h q =
      let d : length (xs ++ ks) - w ≡ e = omega (arith, length-append xs ks) in
      ap (λ n. drop n (xs ++ ks)) d ∙ drop-append e xs ks (omega arith)

  stored-view :
      (c : Cache A) (ks : List A)
      → IsRing (length c.buf) c
      → length ks < length c.buf
      → (view (stored c ks) ≡ last (length c.buf) (view c ++ ks))
        × IsRing (length c.buf) (stored c ks)
  stored-view c ks r lt =
      let w = length c.buf in
      let e = c.len + length ks - w in
      let head = (c.head + e) % w in
      let hw : head < w = mod-lt (c.head + e) (omega arith) in
      let n = c.len - e in
      let start = (head + n) % w in
      let hs : start < w = mod-lt (head + n) (omega arith) in
      let wide : length (stored c ks).buf ≡ w = length-two_writes c.buf ks start hs (omega arith) in
      let held = view-parts w c r in
      let size : length (view c) ≡ c.len =
        ap length held ∙ length-parts c.buf c.head c.len (omega arith) (omega arith) in
      (
        chunks-parts (stored c ks).buf head (n + length ks) (omega arith) (omega arith)
            ∙ written-parts c.buf ks head n hw (omega arith)
            ∙ ap (λ l. l ++ ks)
                (evicted-parts c.buf c.head c.len e (omega arith) (omega arith) (omega arith)
                  ∙ ap (drop e) (sym held))
            ∙ sym (last-append w e (view c) ks (omega arith) (omega arith)),
        record { some_room = r.some_room; width = wide; within = omega arith; starts = hw },
      )

  -- A chunk as long as the window replaces the ring.
  replaced-view :
      (w : ℕ) (c : Cache A) (ks : List A)
      → IsRing w c
      → w ≤ length ks
      → let c' : Cache A = record c { buf = narrow ks (length ks - w) w; head = 0; len = w } in
        (view c' ≡ last w (view c ++ ks)) × IsRing w c'
  replaced-view w c ks r le =
      let buf = narrow ks (length ks - w) w in
      let wide : length buf ≡ w =
        omega (arith, length-take w (drop (length ks - w) ks), length-drop (length ks - w) ks) in
      let d = length ks - w in
      let whole : min w (length buf - 0) ≡ w = omega arith in
      let rest : w - w ≡ 0 = omega arith in
      let short : length (drop d ks) ≤ w = omega (arith, length-drop d ks) in
      let cut : length (view c ++ ks) - w ≡ length (view c) + d =
        omega (arith, length-append (view c) ks) in
      (
        chunks-parts buf 0 w (omega arith) (omega arith)
            ∙ ap (λ f. narrow buf 0 f ++ narrow buf 0 (w - f)) whole
            ∙ ap (λ n. take w buf ++ take n buf) rest
            ∙ append-nil (take w buf)
            ∙ take_all w buf (omega arith)
            ∙ take_all w (drop d ks) short
            ∙ sym (
                ap (λ n. drop n (view c ++ ks)) cut
                ∙ sym (drop-drop (length (view c)) d (view c ++ ks))
                ∙ ap (drop d) (drop-length (view c) ks)),
        record {
          some_room = r.some_room;
          width = wide;
          within = omega arith;
          starts = r.some_room;
        },
      )

  -- A ring that is given a chunk then holds the last `w` items of what it held and the chunk.
  pub remember-view :
      (w : ℕ) (c : Cache A) (ks : List A)
      → IsRing w c
      → (view (remember w c ks) ≡ last w (view c ++ ks)) × IsRing w (remember w c ks)
  unfolding remember
  remember-view w c ks r = elim (Bool-cases (leb w (length ks))) [
    | inl long ↦ rw long (replaced-view w c ks r (leb→le w (length ks) long))
    | inr short ↦
        let lt : length ks < w = ground arith in
        rw (short, lt→ltb 0 w r.some_room)
          (subst
            (λ n. (view (write_ring n c ks) ≡ last n (view c ++ ks)) × IsRing n (write_ring n c ks))
            r.width
            (rw (write_ring-stored c ks (omega arith))
              (stored-view c ks (subst (λ n. IsRing n c) (sym r.width) r) (omega arith))))
  ]
