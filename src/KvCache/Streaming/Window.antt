-- ===== src/KvCache/Streaming/Window.antt =====
-- The ring after a chunk is written behind what stays, and after its oldest items are taken away.
use native.Mathlib.Decide.{dec_lt}
use native.Mathlib.Nat.{mod-add-mod, mod-lt}
use vvaves.Common.{
  ℕ, ◌+◌, ◌-◌, ◌%◌, ◌≤◌, ◌<◌, ◌≡◌, sym, ap, ◌∙◌, ◌⊎◌, inl, inr, List, ◌++◌, length, drop, get_elem?,
  arith, length-append, length-drop,
}
use vvaves.KvCache.Streaming.Elements.{
  list_ext, get_elem?-append_left, get_elem?-append_right, get_elem?-past, get_elem?-drop, mod_once,
}
use vvaves.KvCache.Streaming.Parts.{
  parts, parts-get, length-parts, two_writes, length-two_writes, two_writes-new, two_writes-old,
}

module _ {A : Type 0} where
  -- What stays is the tail of the ring, and the chunk joins it: the ring from `head` on, where
  -- `n` items stay and the chunk is written behind them.
  written-get :
      (buf ks : List A) (head n i : ℕ)
      → head < length buf
      → n + length ks ≤ length buf
      → i < n + length ks
      → get_elem? (two_writes buf ks ((head + n) % length buf)) ((head + i) % length buf)
        ≡ get_elem? (parts buf head n ++ ks) i
  written-get buf ks head n i hh hn hi =
      let w = length buf in
      let start = (head + n) % w in
      let at = (head + i) % w in
      let ms = mod_once (head + n) w (omega arith) in
      let hs : start < w = mod-lt (head + n) (omega arith) in
      let ht : length ks ≤ w = omega arith in
      let len : length (parts buf head n) ≡ n = length-parts buf head n hh (omega arith) in
      elim (dec_lt i n) [
        | yes p ↦
            let mi = mod_once (head + i) w (omega arith) in
            let side : (at < start) ⊎ (start + length ks ≤ at) = elim (dec_lt at start) [
              | yes before ↦ inl before
              | no after ↦ inr (omega (arith, ms, mi))
            ] in
            two_writes-old buf ks start hs ht at (mod-lt (head + i) (omega arith))
              (omega (arith, ms, mi)) side
            ∙ sym (
                get_elem?-append_left (parts buf head n) ks i (omega arith)
                ∙ parts-get buf head n i hh (omega arith) p)
        | no q ↦
            let d = i - n in
            let same : at ≡ (start + d) % w =
              ap (λ m. m % w) (let e : head + i ≡ head + n + d = omega arith in e)
              ∙ sym (mod-add-mod (head + n) w d) in
            ap (get_elem? (two_writes buf ks start)) same
            ∙ two_writes-new buf ks start hs ht d (omega arith)
            ∙ sym (get_elem?-append_right (parts buf head n) ks i d (omega arith))
      ]

  -- Behind `n` items that stay, the chunk is written: the ring then holds those and the chunk.
  pub written-parts :
      (buf ks : List A) (head n : ℕ)
      → head < length buf
      → n + length ks ≤ length buf
      → parts (two_writes buf ks ((head + n) % length buf)) head (n + length ks)
        ≡ parts buf head n ++ ks
  written-parts buf ks head n hh hn =
      let w = length buf in
      let start = (head + n) % w in
      let hs : start < w = mod-lt (head + n) (omega arith) in
      let two = two_writes buf ks start in
      let wide : length two ≡ w = length-two_writes buf ks start hs (omega arith) in
      let len = length-parts two head (n + length ks) (omega arith) (omega arith) in
      let len' : length (parts buf head n ++ ks) ≡ n + length ks =
        omega
          (arith, length-append (parts buf head n) ks, length-parts buf head n hh (omega arith)) in
      list_ext _ _ λ i. elim (dec_lt i (n + length ks)) [
        | yes p ↦
            parts-get two head (n + length ks) i (omega arith) (omega arith) p
            ∙ ap (λ m. get_elem? two ((head + i) % m)) wide
            ∙ written-get buf ks head n i hh hn p
        | no q ↦
            get_elem?-past (parts two head (n + length ks)) i (omega arith)
            ∙ sym (get_elem?-past (parts buf head n ++ ks) i (omega arith))
      ]

  -- Taking the oldest items away moves the head.
  pub evicted-parts :
      (buf : List A) (head n e : ℕ)
      → head < length buf
      → n ≤ length buf
      → e ≤ n
      → parts buf ((head + e) % length buf) (n - e) ≡ drop e (parts buf head n)
  evicted-parts buf head n e hh hn he =
      let w = length buf in
      let h' : (head + e) % w < w = mod-lt (head + e) (omega arith) in
      let len = length-parts buf head n hh hn in
      let len' = length-parts buf ((head + e) % w) (n - e) h' (omega arith) in
      let dropped = length-drop e (parts buf head n) in
      list_ext _ _ λ i. elim (dec_lt i (n - e)) [
        | yes p ↦
            parts-get buf ((head + e) % w) (n - e) i h' (omega arith) p
            ∙ ap (get_elem? buf) (
                mod-add-mod (head + e) w i
                ∙ ap (λ m. m % w) (let s : head + e + i ≡ head + (e + i) = omega arith in s))
            ∙ sym (
                get_elem?-drop e (parts buf head n) i
                ∙ parts-get buf head n (e + i) hh hn (omega arith))
        | no q ↦
            get_elem?-past (parts buf ((head + e) % w) (n - e)) i (omega arith)
            ∙ sym (get_elem?-past (drop e (parts buf head n)) i (omega arith))
      ]
