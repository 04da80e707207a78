-- ===== src/Batch/Survivors.antt =====
-- What a step that goes well does with the streams.
use vvaves.Common.{
  ℕ, suc, ◌+◌, ◌<◌, ◌≡◌, refl, sym, ap, ap₂, ◌∙◌, subst, Bool, true, false, ◌||◌, List, [], ◌∷◌,
  ◌++◌, map, length, leb, arith, append_assoc, length-append, is_empty, if◌then◌else◌, Bool-cases,
  inl, inr,
}
use vvaves.Common.Results.{Result, ok, err}
use vvaves.KvCache.Stacked
use vvaves.Batch.{
  Model, Stream, Frame, Batcher, remove_at, remove_done, advance_all, advanced, collected, settled,
  stepped, step, is_done, past_eos, mark_eos, push_layers,
}

-- The items whose frame is not the last.
abbrev pub going {ℓ} : {A : Type ℓ} {Audio : Type 0} → List (Frame Audio) → List A → List A
going [] xs = xs
going (frame ∷ frames) [] = []
going (frame ∷ frames) (x ∷ xs) = if frame.done then going frames xs else x ∷ going frames xs

module _ {L M Audio : Type 0} where
  -- A stream, the same a step later, and the frame it made.
  pub record IsMove (s s' : Stream L M) (frame : Frame Audio) : Type 0 where
    pub same : s'.id ≡ s.id
    pub named : frame.id ≡ s.id
    pub later : s'.step ≡ suc s.step
    pub bound : s'.max_gen_len ≡ s.max_gen_len
    pub goes_on : frame.done ≡ false → suc s.step < s.max_gen_len

  abbrev pub Moved : List (Stream L M) → List (Stream L M) → List (Frame Audio) → Type 0
  Moved [] [] [] = Unit {0}
  Moved (s ∷ ss) (s' ∷ ss') (frame ∷ frames) = IsMove s s' frame × Moved ss ss' frames
  Moved [] [] (frame ∷ frames) = ⊥
  Moved [] (s' ∷ ss') frames = ⊥
  Moved (s ∷ ss) [] frames = ⊥
  Moved (s ∷ ss) (s' ∷ ss') [] = ⊥

  abbrev Moves : Stream L M → Stream L M × Result (Frame Audio) → Type 0
  Moves s (s', ok frame) = IsMove s s' frame
  Moves s (s', err) = Unit {0}

  abbrev AllMove : List (Stream L M) → List (Stream L M) × Result (List (Frame Audio)) → Type 0
  AllMove ss (ss', ok frames) = Moved ss ss' frames
  AllMove ss (ss', err) = Unit {0}

  pub Moved-names :
      (ss ss' : List (Stream L M)) (frames : List (Frame Audio))
      → Moved ss ss' frames
      → (map (λ f. f.id) frames ≡ map (λ s. s.id) ss)
        × (map (λ s. s.id) ss' ≡ map (λ s. s.id) ss)
        × (length frames ≡ length ss')
  Moved-names [] [] [] h = (refl, refl, refl)
  Moved-names [] [] (f ∷ frames) h = absurd h
  Moved-names [] (s' ∷ ss') frames h = absurd h
  Moved-names (s ∷ ss) [] frames h = absurd h
  Moved-names (s ∷ ss) (s' ∷ ss') [] h = absurd h
  Moved-names (s ∷ ss) (s' ∷ ss') (f ∷ frames) (e, h) =
      let (names, ids, size) = Moved-names ss ss' frames h in
      (ap₂ (λ x xs. x ∷ xs) e.named names, ap₂ (λ x xs. x ∷ xs) e.same ids, ap suc size)

  pub map-going :
      (frames : List (Frame Audio)) (ss : List (Stream L M))
      → map (λ s. s.id) (going frames ss) ≡ going frames (map (λ s. s.id) ss)
  map-going [] ss = refl
  map-going (f ∷ frames) [] = refl
  map-going (f ∷ frames) (s ∷ ss) = elim (Bool-cases f.done) [
    | inl e ↦ rw e (map-going frames ss)
    | inr e ↦ rw e (ap (λ xs. s.id ∷ xs) (map-going frames ss))
  ]

leb-false_lt : (a b : ℕ) → leb a b ≡ false → b < a
leb-false_lt a b e = ground arith

or_false : (a b : Bool) → (a || b) ≡ false → b ≡ false
or_false true b e = cc
or_false false b e = e

remove_at-length {ℓ} :
    {A : Type ℓ} (front : List A) (x : A) (xs : List A)
    → Stacked.remove_at (length front) (front ++ (x ∷ xs)) ≡ front ++ xs
remove_at-length [] x xs = refl
remove_at-length (y ∷ front) x xs = ap (λ l. y ∷ l) (remove_at-length front x xs)

module _ (m : Model) where
  open m use {Item, Latent, MimiState, Audio, Noise}

  -- The loop from the last frame to the first takes out the streams that are done, and no other.
  remove_done-going :
      (frames : List (Frame Audio)) (b : Batcher Item Latent MimiState) (i : ℕ)
      (front ss : List (Stream Latent MimiState))
      → i ≡ length front
      → b.streams ≡ front ++ ss
      → length frames ≡ length ss
      → (remove_done m i frames b).streams ≡ front ++ going frames ss
  unfolding remove_done remove_at
  remove_done-going [] b i front ss at e size = e
  remove_done-going (f ∷ frames) b i front [] at e size = absurd (omega arith)
  remove_done-going (f ∷ frames) b i front (s ∷ ss) at e size =
      let next : suc i ≡ length (front ++ (s ∷ [])) = omega (arith, length-append front (s ∷ [])) in
      let rest =
        remove_done-going frames b (suc i) (front ++ (s ∷ [])) ss next
          (e ∙ sym (append_assoc front (s ∷ []) ss)) (omega arith)
        ∙ append_assoc front (s ∷ []) (going frames ss) in
      elim (Bool-cases f.done) [
        | inl d ↦ rw d (ap₂ Stacked.remove_at at rest ∙ remove_at-length front s (going frames ss))
        | inr d ↦ rw d rest
      ]

  is_done-bound :
      (s : Stream Latent MimiState) (eos : Bool)
      → is_done m s eos ≡ false
      → suc s.step < s.max_gen_len
  unfolding is_done
  is_done-bound s eos e =
      let h = leb-false_lt s.max_gen_len (s.step + 1) (
        or_false (past_eos (mark_eos eos s.eos_step s.step) s.step s.frames_after_eos)
          (leb s.max_gen_len (s.step + 1)) e) in
      omega (arith, h)

  advanced-Moves :
      (s : Stream Latent MimiState) (latent : Latent) (eos : Bool) (d : MimiState × Result Audio)
      → Moves s (advanced m s latent eos d)
  unfolding advanced
  advanced-Moves s latent eos (mimi', err) = tt
  advanced-Moves s latent eos (mimi', ok audio) = record {
    same = refl;
    named = refl;
    later = omega arith;
    bound = refl;
    goes_on = is_done-bound s eos;
  }

  collected-AllMove :
      (s : Stream Latent MimiState) (ss : List (Stream Latent MimiState))
      (a : Stream Latent MimiState × Result (Frame Audio))
      (r : List (Stream Latent MimiState) × Result (List (Frame Audio)))
      → Moves s a
      → AllMove ss r
      → AllMove (s ∷ ss) (collected m a r)
  collected-AllMove s ss (s', ok f) (ss', ok fs) h hs = (h, hs)
  collected-AllMove s ss (s', ok f) (ss', err) h hs = tt
  collected-AllMove s ss (s', err) (ss', r) h hs = tt

  advance_all-AllMove :
      (ss : List (Stream Latent MimiState)) (rs : List (Latent × Bool))
      → AllMove ss (advance_all m ss rs)
  unfolding advance_all
  advance_all-AllMove [] rs = tt
  advance_all-AllMove (s ∷ ss) [] = tt
  advance_all-AllMove (s ∷ ss) ((latent, eos) ∷ rs) =
      collected-AllMove s ss (advanced m s latent eos (m.decode latent s.mimi_state s.step))
        (advance_all m ss rs) (advanced-Moves s latent eos (m.decode latent s.mimi_state s.step))
        (advance_all-AllMove ss rs)

  -- A step that went well: every stream moved, and those that are done are gone.
  abbrev pub Steps :
      Batcher Item Latent MimiState
      → Batcher Item Latent MimiState × Result (List (Frame Audio))
      → Type 0
  Steps b (b', err) = Unit {0}
  Steps b (b', ok frames) =
      (ss' : List (Stream Latent MimiState)) × Moved b.streams ss' frames
      × (b'.streams ≡ going frames ss')

  settled-Steps :
      (b b0 : Batcher Item Latent MimiState)
      (r : List (Stream Latent MimiState) × Result (List (Frame Audio)))
      → AllMove b.streams r
      → Steps b (settled m b0 r)
  unfolding settled
  settled-Steps b b0 (ss', err) h = tt
  settled-Steps b b0 (ss', ok frames) h = (
    ss',
    h,
    remove_done-going frames (record b0 { streams = ss' }) 0 [] ss' refl refl
        (Moved-names b.streams ss' frames h).2,
  )

  stepped-Steps :
      (b : Batcher Item Latent MimiState) (r : List (List Item) × Result (List (Latent × Bool)))
      → Steps b (stepped m b r)
  unfolding stepped
  stepped-Steps b (items, err) = tt
  stepped-Steps b (items, ok rows) =
      settled-Steps b (record b { caches = push_layers m b.caches items })
        (advance_all m b.streams rows) (advance_all-AllMove b.streams rows)

  idle-Steps :
      (b : Batcher Item Latent MimiState) (ss : List (Stream Latent MimiState))
      → b.streams ≡ ss
      → is_empty ss ≡ true
      → Steps b (b, ok [])
  idle-Steps b [] e h = ([], subst (λ l. Moved {Audio = Audio} l [] []) (sym e) tt, e)
  idle-Steps b (s ∷ ss) e h = cc

  pub step-Steps : (noise : Noise) (b : Batcher Item Latent MimiState) → Steps b (step m noise b)
  unfolding step
  step-Steps noise b = elim (Bool-cases (is_empty b.streams)) [
    | inl e ↦ rw (e, step) (idle-Steps b b.streams refl e)
    | inr e ↦
        rw (e, step)
          (stepped-Steps b
            (m.forward_stacked noise (map (λ s. s.backbone_input) b.streams) b.caches))
  ]

  -- If a step goes well, then it makes one frame for each stream, in the streams' order, and the
  -- streams that are left are those whose frame was not the last, in that order.
  pub step-streams :
      (noise : Noise) (b b' : Batcher Item Latent MimiState) (frames : List (Frame Audio))
      → step m noise b ≡ (b', ok frames)
      → (map (λ f. f.id) frames ≡ map (λ s. s.id) b.streams)
        × (map (λ s. s.id) b'.streams ≡ going frames (map (λ s. s.id) b.streams))
  step-streams noise b b' frames e =
      let (ss', moved, left) = subst (Steps b) e (step-Steps noise b) in
      let (names, ids, size) = Moved-names b.streams ss' frames moved in
      (names, ap (map (λ s. s.id)) left ∙ map-going frames ss' ∙ ap (λ l. going frames l) ids)
