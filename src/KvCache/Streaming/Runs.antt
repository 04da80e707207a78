-- ===== src/KvCache/Streaming/Runs.antt =====
-- A reading through a `StreamingMultiheadAttention`, chunk by chunk: what the attention is given.
use native.Mathlib.Nat.{mod-eq_of_lt}
use vvaves.Common.{
  ℕ, ◌+◌, ◌-◌, ◌%◌, ◌≤◌, ◌<◌, ◌≡◌, refl, sym, ap, ap₂, ◌∙◌, subst, inl, inr, Option, none, some,
  true, List, [], ◌∷◌, ◌++◌, append_assoc, min, length, take, drop, replicate, concat, arith, ltb,
  ◌==◌, if◌then◌else◌, Bool-cases, length-append, length-take, length-drop, length-replicate,
  lt→ltb, drop-append, drop-drop, drop-nil, ltb→le, take-append, take-length,
}
use vvaves.KvCache.Pow2.{next_power_of_two, le-next_power_of_two}
use vvaves.KvCache.Streaming.{
  Cache, narrow, slice_set, ring_chunks, read_cache, init_state, fit, remember, grow,
  forward_windowed, forward_linear, forward,
}
use vvaves.KvCache.Streaming.Elements.{length-slice_set}
use vvaves.KvCache.Streaming.Parts.{last, view, IsRing, chunks-parts}
use vvaves.KvCache.Streaming.Remember.{remember-view}

module _ {A : Type 0} (z : A) where
  -- The chunks of a reading given one after the other, each with what the attention saw.
  pub read_on : Option ℕ → Cache A → List (List A × ℕ) → List (List A)
  read_on context c [] = []
  read_on context c ((ks, at) ∷ rest) =
      let (seen, c') = forward z context c ks at in seen ∷ read_on context c' rest

  -- What each chunk should see: all that came before it, or the last `w` items of that, then
  -- itself.
  abbrev pub recent : Option ℕ → List A → List A
  recent none past = past
  recent (some w) past = last w past

  pub should_see : Option ℕ → List A → List (List A × ℕ) → List (List A)
  should_see context past [] = []
  should_see context past ((ks, at) ∷ rest) =
      (recent context past ++ ks) ∷ should_see context (past ++ ks) rest

  -- A well-formed ring is read as it is.
  read_ring : (w : ℕ) (c : Cache A) → IsRing w c → fit z w (read_cache c) ≡ c
  unfolding fit read_cache
  read_ring w c r =
      let same : (length c.buf == w) ≡ true = ground arith in
      let len : min c.len (length c.buf) ≡ c.len = omega arith in
      let small : c.head < length c.buf = omega arith in
      let head : (if ltb 0 (length c.buf) then c.head % length c.buf else 0) ≡ c.head =
        rw (lt→ltb 0 (length c.buf) (omega arith)) (mod-eq_of_lt small) in
      rw same (ap₂ (λ l h. record c { len = l; head = h }) len head)

  windowed-sees :
      (w : ℕ) (c : Cache A) (ks : List A)
      → IsRing w c
      → forward_windowed z w c ks ≡ (view c ++ ks, remember w c ks)
  unfolding forward_windowed
  windowed-sees w c ks r =
      ap (λ k. (concat (ring_chunks k.buf k.head k.len) ++ ks, remember w k ks)) (read_ring w c r)

  -- The last items of a join depend on the last items of its first part only.
  last-last : (w : ℕ) (past ks : List A) → last w (last w past ++ ks) ≡ last w (past ++ ks)
  last-last w past ks =
      let d = length past - w in
      let front : drop d past ++ ks ≡ drop d (past ++ ks) =
        sym (drop-append d past ks (omega arith)) in
      let n = length (drop d past ++ ks) - w in
      let total : d + n ≡ length (past ++ ks) - w =
        omega (arith, length-append (drop d past) ks, length-append past ks, length-drop d past) in
      ap (drop n) front ∙ drop-drop d n (past ++ ks) ∙ ap (λ k. drop k (past ++ ks)) total

  -- What the buffers of an unwindowed attention hold, and that they hold it all.
  abbrev pub Holds : Cache A → List A → Type 0
  Holds c past = (c.len ≤ length c.buf) × (take c.len c.buf ≡ past)

  grow-room :
      (c : Cache A) (t : ℕ)
      → c.len ≤ length c.buf
      → (c.len + t ≤ length (grow z c t)) × (take c.len (grow z c t) ≡ take c.len c.buf)
  unfolding grow
  grow-room c t h = elim (Bool-cases (ltb (length c.buf) (c.len + t))) [
    | inl tight ↦
        let more = next_power_of_two (c.len + t) - length c.buf in
        rw tight (
          omega (
            arith,
            length-append c.buf (replicate more z),
            length-replicate more z,
            le-next_power_of_two (c.len + t),
          ),
          take-append c.len c.buf (replicate more z) h,
        )
    | inr free ↦ rw free (ltb→le (length c.buf) (c.len + t) free, refl)
  ]

  -- A chunk written right behind the first `n` items.
  take-slice_set :
      (buf ks : List A) (n : ℕ)
      → n + length ks ≤ length buf
      → take (n + length ks) (slice_set buf ks n) ≡ take n buf ++ ks
  take-slice_set buf ks n h =
      let front = take n buf ++ ks in
      let size : n + length ks ≡ length front =
        omega (arith, length-append (take n buf) ks, length-take n buf) in
      ap₂ take size (sym (append_assoc (take n buf) ks (drop (n + length ks) buf)))
      ∙ take-length front (drop (n + length ks) buf)

  appended :
      (c : Cache A) (ks : List A)
      → c.len ≤ length c.buf
      → let buf = slice_set (grow z c (length ks)) ks c.len in
        (c.len + length ks ≤ length buf) × (take (c.len + length ks) buf ≡ take c.len c.buf ++ ks)
  appended c ks h =
      let (room, kept) = grow-room c (length ks) h in
      (
        omega (arith, length-slice_set (grow z c (length ks)) ks c.len room),
        take-slice_set (grow z c (length ks)) ks c.len room ∙ ap (λ l. l ++ ks) kept,
      )

  linear-sees :
      (c : Cache A) (past ks : List A)
      → Holds c past
      → ((forward_linear z c ks).0 ≡ past ++ ks) × Holds (forward_linear z c ks).1 (past ++ ks)
  unfolding forward_linear read_cache
  linear-sees c past ks (fits, holds) =
      let (room, joined) = appended (read_cache c) ks (omega arith) in
      let len : min c.len (length c.buf) ≡ c.len = omega arith in
      let seen = joined ∙ ap (λ n. take n c.buf ++ ks) len ∙ ap (λ l. l ++ ks) holds in
      (seen, (room, seen))

  -- What a cache has to hold after `past`.
  abbrev pub Remembers : Option ℕ → Cache A → List A → Type 0
  Remembers none c past = Holds c past
  Remembers (some w) c past = IsRing w c × (view c ≡ last w past)

  pub forward-sees :
      (context : Option ℕ) (c : Cache A) (past ks : List A) (at : ℕ)
      → Remembers context c past
      → ((forward z context c ks at).0 ≡ recent context past ++ ks)
        × Remembers context (forward z context c ks at).1 (past ++ ks)
  unfolding forward
  forward-sees none c past ks at r = linear-sees c past ks r
  forward-sees (some w) c past ks at (r, holds) =
      let (next, ring) = remember-view w c ks r in
      let same = read_ring w c r in
      let again : Cache A → Cache A = λ k. record (remember w k ks) { pos = at + length ks } in
      let ring' : IsRing w (again c) = record {
        some_room = ring.some_room;
        width = ring.width;
        within = ring.within;
        starts = ring.starts;
      } in
      (
        ap (λ (k : Cache A). concat (ring_chunks k.buf k.head k.len) ++ ks) same
            ∙ ap (λ l. l ++ ks) holds,
        (
          subst (λ k. IsRing w (again k)) (sym same) ring',
          ap (λ k. view (remember w k ks)) same
              ∙ next
              ∙ ap (λ l. last w (l ++ ks)) holds
              ∙ last-last w past ks,
        ),
      )

  -- What a windowed attention is given comes from the ring's chunks.
  pub forward-chunks :
      (w : ℕ) (c : Cache A) (ks : List A) (at : ℕ)
      → let c1 = fit z w (read_cache c) in
        (forward z (some w) c ks at).0 ≡ concat (ring_chunks c1.buf c1.head c1.len) ++ ks
  unfolding forward forward_windowed
  forward-chunks w c ks at = refl

  read_on-sees :
      (context : Option ℕ) (chunks : List (List A × ℕ)) (c : Cache A) (past : List A)
      → Remembers context c past
      → read_on context c chunks ≡ should_see context past chunks
  unfolding read_on should_see
  read_on-sees context [] c past r = refl
  read_on-sees context ((ks, at) ∷ rest) c past r =
      let (seen, r') = forward-sees context c past ks at r in
      ap₂ ◌∷◌ seen (read_on-sees context rest (forward z context c ks at).1 (past ++ ks) r')

  abbrev pub HasWindow : Option ℕ → Type 0
  HasWindow none = Unit {0}
  HasWindow (some w) = 0 < w

  pub init-Remembers :
      (context : Option ℕ) → HasWindow context → Remembers context (init_state z context) []
  unfolding init_state
  init-Remembers none h = (omega (arith, length-replicate 64 z), refl)
  init-Remembers (some w) h =
      let buf = replicate w z in
      let wide : length buf ≡ w = length-replicate w z in
      let none_yet : min 0 (length buf - 0) ≡ 0 = omega arith in
      (
        record { some_room = h; width = wide; within = omega arith; starts = h },
        chunks-parts buf 0 0 (omega arith) (omega arith)
            ∙ ap (λ f. narrow buf 0 f ++ narrow buf 0 (0 - f)) none_yet
            ∙ sym (drop-nil (0 - w)),
      )

  -- From a new state, and where the window, if there is one, is 1 at least: the keys and values
  -- that the attention is given for each chunk of a reading are the chunk's own behind all that
  -- came before, if there is no window, and behind the last `w` of those, in order, if the window
  -- is `w`. This holds whatever the chunks' lengths are.
  pub reading-sees :
      (context : Option ℕ) (chunks : List (List A × ℕ))
      → HasWindow context
      → read_on context (init_state z context) chunks ≡ should_see context [] chunks
  reading-sees context chunks h =
      read_on-sees context chunks (init_state z context) [] (init-Remembers context h)
