-- ===== src/KvCache/Streaming/Parts.antt =====
-- The parts of a ring: where its items lie, and what two writes round its end change.

use native.Mathlib.Decide.{dec_lt}
use native.Mathlib.Nat.{mod-eq_of_lt}
use vvaves.Common.{
  ℕ, zero, suc, ◌+◌, ◌-◌, ◌%◌, ◌≤◌, ◌<◌, ◌≡◌, refl, sym, ap, ap₂, ◌∙◌, ◌⊎◌, inl, inr, false, List,
  [], ◌++◌, append-nil, min, length, take, drop, concat, get_elem?, arith, ltb, ◌==◌, if◌then◌else◌,
  Bool-cases, length-append, length-take, length-drop, take-append-drop, ltb→le,
}
use vvaves.KvCache.Streaming.{Cache, narrow, slice_set, wrapped_chunks, ring_chunks}
use vvaves.KvCache.Streaming.Elements.{
  get_elem?-append_left, get_elem?-append_right, get_elem?-take, get_elem?-drop, slice_set_before,
  slice_set_in, slice_set_after, length-slice_set, mod_once,
}

module _ {A : Type 0} where
  -- The last `w` items.
  abbrev pub last : ℕ → List A → List A
  last w xs = drop (length xs - w) xs

  abbrev pub view : Cache A → List A
  view c = concat (ring_chunks c.buf c.head c.len)

  pub record IsRing (w : ℕ) (c : Cache A) : Type 0 where
    pub some_room : 0 < w
    pub width : length c.buf ≡ w
    pub within : c.len ≤ w
    pub starts : c.head < w

  -- The ring's items in two parts.
  abbrev pub parts : List A → ℕ → ℕ → List A
  parts buf head len =
      let first = min len (length buf - head) in narrow buf head first ++ narrow buf 0 (len - first)

  concat-wrapped_chunks :
      (buf : List A) (head len : ℕ) → concat (wrapped_chunks buf head len) ≡ parts buf head len
  unfolding wrapped_chunks
  concat-wrapped_chunks buf head len =
      let first = min len (length buf - head) in
      elim (Bool-cases (ltb 0 (len - first))) [
        | inl more ↦
            rw more (ap (λ l. narrow buf head first ++ l) (append-nil (narrow buf 0 (len - first))))
        | inr none_left ↦
            let e : len - first ≡ 0 = omega (arith, ltb→le 0 (len - first) none_left) in
            rw none_left (ap (λ n. narrow buf head first ++ narrow buf 0 n) (sym e))
      ]

  inner-parts :
      (buf : List A) (head len : ℕ)
      → concat (if len == 0 then [] else wrapped_chunks buf head len) ≡ parts buf head len
  inner-parts buf head zero =
      let e : 0 ≡ min 0 (length buf - head) = omega arith in
      ap (λ f. narrow buf head f ++ narrow buf 0 (0 - f)) e
  inner-parts buf head (suc n) =
      let no : (suc n == 0) ≡ false = ground arith in rw no (concat-wrapped_chunks buf head (suc n))

  pub chunks-parts :
      (buf : List A) (head len : ℕ)
      → head < length buf
      → len ≤ length buf
      → concat (ring_chunks buf head len) ≡ parts buf head len
  unfolding ring_chunks
  chunks-parts buf head len hh hl =
      let no : (length buf == 0) ≡ false = ground arith in
      let e1 : min len (length buf) ≡ len = omega arith in
      let e2 : head % length buf ≡ head = mod-eq_of_lt hh in
      rw no (
        ap₂ (λ m h. concat (if m == 0 then [] else wrapped_chunks buf h m)) e1 e2
        ∙ inner-parts buf head len)

  pub view-parts : (w : ℕ) (c : Cache A) → IsRing w c → view c ≡ parts c.buf c.head c.len
  view-parts w c r = chunks-parts c.buf c.head c.len (omega arith) (omega arith)

  -- A write of nothing changes nothing, so the tests before the writes do not matter.
  pub write_if :
      (n at start : ℕ) (buf ks : List A)
      → (if ltb 0 n then slice_set buf (narrow ks start n) at else buf)
        ≡ slice_set buf (narrow ks start n) at
  write_if n at start buf ks = elim (Bool-cases (ltb 0 n)) [
    | inl some_left ↦ rw some_left refl
    | inr none_left ↦
        let e : n ≡ 0 = omega (arith, ltb→le 0 n none_left) in
        let d : at + 0 ≡ at = omega arith in
        rw none_left (
          sym (
            ap (λ m. slice_set buf (narrow ks start m) at) e
            ∙ ap (λ m. take at buf ++ drop m buf) d
            ∙ take-append-drop at buf))
  ]

  -- The `i`-th oldest item lies `i` places behind the head, round the ring.
  pub parts-get :
      (buf : List A) (head len i : ℕ)
      → head < length buf
      → len ≤ length buf
      → i < len
      → get_elem? (parts buf head len) i ≡ get_elem? buf ((head + i) % length buf)
  parts-get buf head len i hh hl hi =
      let w = length buf in
      let first = min len (w - head) in
      let l : length (narrow buf head first) ≡ first =
        omega (arith, length-take first (drop head buf), length-drop head buf) in
      elim (dec_lt i first) [
        | yes p ↦
            get_elem?-append_left (narrow buf head first) _ i (omega arith)
            ∙ get_elem?-take first (drop head buf) i p
            ∙ get_elem?-drop head buf i
            ∙ ap (get_elem? buf) (sym (mod-eq_of_lt (omega arith)))
        | no q ↦
            let k = i - first in
            get_elem?-append_right (narrow buf head first) (narrow buf 0 (len - first)) i k
              (omega arith)
            ∙ get_elem?-take (len - first) buf k (omega arith)
            ∙ ap (get_elem? buf) (omega (arith, mod_once (head + i) w (omega arith)))
      ]

  pub length-parts :
      (buf : List A) (head len : ℕ)
      → head < length buf
      → len ≤ length buf
      → length (parts buf head len) ≡ len
  length-parts buf head len hh hl =
      let first = min len (length buf - head) in
      omega (
        arith,
        length-append (narrow buf head first) (narrow buf 0 (len - first)),
        length-take first (drop head buf),
        length-drop head buf,
        length-take (len - first) buf,
      )

  -- The two writes of `write_ring`, from where the `n` items that stay end.
  abbrev pub two_writes : List A → List A → ℕ → List A
  two_writes buf ks start =
      let first = min (length ks) (length buf - start) in
      slice_set (slice_set buf (narrow ks 0 first) start) (narrow ks first (length ks - first)) 0

  length-narrow :
      (ks : List A) (start n : ℕ) → start + n ≤ length ks → length (narrow ks start n) ≡ n
  length-narrow ks start n h = omega (arith, length-take n (drop start ks), length-drop start ks)

  narrow-get :
      (ks : List A) (start n j : ℕ)
      → j < n
      → get_elem? (narrow ks start n) j ≡ get_elem? ks (start + j)
  narrow-get ks start n j h = get_elem?-take n (drop start ks) j h ∙ get_elem?-drop start ks j

  module _ (buf ks : List A) (start : ℕ) (hs : start < length buf)
      (ht : length ks ≤ length buf) where
    abbrev first_part : ℕ
    first_part = min (length ks) (length buf - start)

    abbrev rest_part : List A
    rest_part = narrow ks first_part (length ks - first_part)

    l1 : length (narrow ks 0 first_part) ≡ first_part
    l1 = length-narrow ks 0 first_part (omega arith)

    l2 : length (narrow ks first_part (length ks - first_part)) ≡ length ks - first_part
    l2 = length-narrow ks first_part (length ks - first_part) (omega arith)

    abbrev one_write : List A
    one_write = slice_set buf (narrow ks 0 first_part) start

    length-one_write : length one_write ≡ length buf
    length-one_write = length-slice_set buf (narrow ks 0 first_part) start (omega (arith, l1))

    pub length-two_writes : length (two_writes buf ks start) ≡ length buf
    length-two_writes =
        length-slice_set one_write rest_part 0 (omega (arith, l2, length-one_write))
        ∙ length-one_write

    -- The `d`-th item of the chunk lies `d` places behind where the writes start.
    pub two_writes-new :
        (d : ℕ)
        → d < length ks
        → get_elem? (two_writes buf ks start) ((start + d) % length buf) ≡ get_elem? ks d
    two_writes-new d hd = elim (mod_once (start + d) (length buf) (omega arith)) [
      | inl (lt, e) ↦
          ap (get_elem? (two_writes buf ks start)) e
          ∙ slice_set_after one_write rest_part 0 (start + d) (omega arith) (omega (arith, l2))
          ∙ slice_set_in buf (narrow ks 0 first_part) start (start + d) d (omega arith)
              (omega (arith, l1)) refl
          ∙ narrow-get ks 0 first_part d (omega arith)
          ∙ ap (get_elem? ks) (omega arith)
      | inr (le, e) ↦
          let j = start + d - length buf in
          ap (get_elem? (two_writes buf ks start)) e
          ∙ slice_set_in one_write rest_part 0 j j (omega arith) (omega (arith, l2)) (omega arith)
          ∙ narrow-get ks first_part (length ks - first_part) j (omega arith)
          ∙ ap (get_elem? ks) (omega arith)
    ]

    -- A place that is not behind the start by less than the chunk keeps its item.
    pub two_writes-old :
        (p : ℕ)
        → p < length buf
        → (start + length ks ≤ p + length buf)
        → (p < start) ⊎ (start + length ks ≤ p)
        → get_elem? (two_writes buf ks start) p ≡ get_elem? buf p
    two_writes-old p hp wrap side =
        slice_set_after one_write rest_part 0 p (omega arith) (omega (arith, l2)) ∙ elim side [
          | inl before ↦ slice_set_before buf (narrow ks 0 first_part) start p (omega arith) before
          | inr after ↦
              slice_set_after buf (narrow ks 0 first_part) start p (omega arith) (omega (arith, l1))
        ]
