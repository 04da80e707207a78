-- ===== src/KvCache/Streaming.antt =====
-- The cache of `StreamingMultiheadAttention` in attention.rs: `ring_chunks`, `init_state` and what
-- `forward` does with the buffers and the cursor. The projections, RoPE and the attention itself
-- are tensor arithmetic and stay outside: `ks` is the chunk's keys and values, and the result's
-- first part is the keys and values that the attention is given, oldest first.
pub mod Elements
pub mod Parts
pub mod Window
pub mod Remember
pub mod Runs
use vvaves.Common.{
  ℕ, ◌+◌, ◌-◌, ◌%◌, Bool, Option, none, some, List, [], ◌∷◌, ◌++◌, min, length, take, drop,
  replicate, concat, ltb, leb, ◌==◌, if◌then◌else◌,
}
use vvaves.KvCache.Pow2.{next_power_of_two}

-- `k_buf` and `v_buf` with the cursor of voice_state.rs.
pub record Cache {ℓ} (A : Type ℓ) : Type ℓ where
  pub buf : List A
  pub pos : ℕ
  pub len : ℕ
  pub head : ℕ

-- `narrow(2, start, n)`
abbrev pub narrow {ℓ} : {A : Type ℓ} → List A → ℕ → ℕ → List A
narrow buf start n = take n (drop start buf)

-- `slice_set(src, 2, at)`, which refuses what would pass the end.
abbrev pub slice_set {ℓ} : {A : Type ℓ} → List A → List A → ℕ → List A
slice_set buf src at = take at buf ++ (src ++ drop (at + length src) buf)

-- The body of `ring_chunks` where there is something to read.
pub wrapped_chunks {ℓ} : {A : Type ℓ} → List A → ℕ → ℕ → List (List A)
wrapped_chunks buf head len =
    let first_len = min len (length buf - head) in
    let second_len = len - first_len in
    narrow buf head first_len ∷ (if ltb 0 second_len then narrow buf 0 second_len ∷ [] else [])

pub ring_chunks {ℓ} : {A : Type ℓ} → List A → ℕ → ℕ → List (List A)
unfolding wrapped_chunks
ring_chunks buf head len =
    let cap = length buf in
    if cap == 0
    then []
    else if min len cap == 0
    then []
    else wrapped_chunks buf (head % cap) (min len cap)

-- The first thing `forward` does with what it read: the cursor within the buffers.
pub read_cache {ℓ} : {A : Type ℓ} → Cache A → Cache A
read_cache c =
    let cap = length c.buf in
    record c { len = min c.len cap; head = if ltb 0 cap then c.head % cap else 0 }

module _ {ℓ} {A : Type ℓ} where
  -- The chunk written behind what the ring keeps, in two parts where it wraps.
  pub write_ring : ℕ → Cache A → List A → Cache A
  write_ring w c ks =
      let t = length ks in
      let evict = c.len + t - w in
      let head = if ltb 0 evict then (c.head + evict) % w else c.head in
      let len = if ltb 0 evict then c.len - evict else c.len in
      let start = (head + len) % w in
      let first = min t (w - start) in
      let second = t - first in
      let one = if ltb 0 first then slice_set c.buf (narrow ks 0 first) start else c.buf in
      let two = if ltb 0 second then slice_set one (narrow ks first second) 0 else one in
      record c { buf = two; len = len + t; head = head }

  pub remember : ℕ → Cache A → List A → Cache A
  remember w c ks =
      let t = length ks in
      if leb w t
      then record c { buf = narrow ks (t - w) w; head = 0; len = w }
      else if ltb 0 w
      then write_ring w c ks
      else c

module _ {ℓ} {A : Type ℓ} (zero_item : A) where
  -- `init_state`
  pub init_state : Option ℕ → Cache A
  init_state context =
      let cap : ℕ = elim context [ none ↦ 64 | some w ↦ w ] in
      record { buf = replicate cap zero_item; pos = 0; len = 0; head = 0 }

  -- The buffers brought to the window's size.
  pub fit : ℕ → Cache A → Cache A
  fit w c =
      let cap = length c.buf in
      if cap == w then c else record c {
        buf = if ltb w cap then narrow c.buf 0 w else c.buf ++ replicate (w - cap) zero_item;
        len = min c.len w;
        head = 0;
      }

  pub forward_windowed : ℕ → Cache A → List A → List A × Cache A
  unfolding read_cache fit remember
  forward_windowed w c ks =
      let c1 = fit w (read_cache c) in
      (concat (ring_chunks c1.buf c1.head c1.len) ++ ks, remember w c1 ks)

  pub grow : Cache A → ℕ → List A
  grow c t =
      let cap = length c.buf in
      if ltb cap (c.len + t)
      then c.buf ++ replicate (next_power_of_two (c.len + t) - cap) zero_item
      else c.buf

  pub forward_linear : Cache A → List A → List A × Cache A
  unfolding read_cache grow
  forward_linear c ks =
      let c1 = read_cache c in
      let buf = slice_set (grow c1 (length ks)) ks c1.len in
      let len = c1.len + length ks in
      (narrow buf 0 len, record c1 { buf = buf; len = len; head = 0 })

  -- The cache part of `forward`; the position is an argument of it.
  pub forward : Option ℕ → Cache A → List A → ℕ → List A × Cache A
  unfolding forward_windowed forward_linear
  forward context c ks current_pos =
      let (seen, c') =
        let r : List A × Cache A = elim context [
          | none ↦ forward_linear c ks
          | some w ↦ forward_windowed w c ks
        ] in
        r in
      (seen, record c' { pos = current_pos + length ks })
