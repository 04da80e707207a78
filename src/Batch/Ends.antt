-- ===== src/Batch/Ends.antt =====
-- How long a stream lasts.
use vvaves.Common.{
  ◌++◌, ◌∙◌, Bool, true, false, Option, ap, ℕ, suc, ◌+◌, ◌<◌, ◌≤◌, ◌≡◌, refl, sym, subst, List, [],
  ◌∷◌, length, All, arith, Bool-cases, inl, inr,
}
use vvaves.Common.Results.{Result, ok, err, ◌>>=◌, >>=-eq-ok}
use vvaves.KvCache.Stacked.{Stacked}
use vvaves.Text.Chars.{Text, Unicode}
use vvaves.Text.Prompt.{prepare_text_prompt, max_gen_len, zero-lt-max_gen_len}
use vvaves.Batch.{add, add_layers, admitted, stream_of, Model, Stream, Frame, Batcher, step}
use vvaves.Batch.Survivors.{going, Moved, Steps, step-Steps}

module _ {L M : Type 0} where
  -- A stream that has a frame to make within its bound.
  abbrev pub Alive : Stream L M → Type 0
  Alive s = s.step < s.max_gen_len

  -- A stream that reaches its bound in `k` frames at most.
  abbrev pub Within : ℕ → Stream L M → Type 0
  Within k s = s.max_gen_len ≤ s.step + k

  going-Alive :
      {Audio : Type 0} (ss ss' : List (Stream L M)) (frames : List (Frame Audio))
      → Moved ss ss' frames
      → All Alive (going frames ss')
  going-Alive [] [] [] h = tt
  going-Alive [] [] (f ∷ frames) h = absurd h
  going-Alive [] (s' ∷ ss') frames h = absurd h
  going-Alive (s ∷ ss) [] frames h = absurd h
  going-Alive (s ∷ ss) (s' ∷ ss') [] h = absurd h
  going-Alive (s ∷ ss) (s' ∷ ss') (f ∷ frames) (e, h) = elim (Bool-cases f.done) [
    | inl d ↦ rw d (going-Alive ss ss' frames h)
    | inr d ↦ rw d (omega (arith, e.goes_on d, e.later, e.bound), going-Alive ss ss' frames h)
  ]

  going-Within :
      {Audio : Type 0} (k : ℕ) (ss ss' : List (Stream L M)) (frames : List (Frame Audio))
      → Moved ss ss' frames
      → All (Within (suc k)) ss
      → All (Within k) (going frames ss')
  going-Within k [] [] [] h w = tt
  going-Within k [] [] (f ∷ frames) h w = absurd h
  going-Within k [] (s' ∷ ss') frames h w = absurd h
  going-Within k (s ∷ ss) [] frames h w = absurd h
  going-Within k (s ∷ ss) (s' ∷ ss') [] h w = absurd h
  going-Within k (s ∷ ss) (s' ∷ ss') (f ∷ frames) (e, h) (wide, w) = elim (Bool-cases f.done) [
    | inl d ↦ rw d (going-Within k ss ss' frames h w)
    | inr d ↦ rw d (omega (arith, e.later, e.bound, wide), going-Within k ss ss' frames h w)
  ]

  none_left : (ss : List (Stream L M)) → All Alive ss → All (Within 0) ss → ss ≡ []
  none_left [] a w = refl
  none_left (s ∷ ss) (a, _) (w, _) = absurd (omega (arith, a, w))

module _ (m : Model) where
  open m use {Voice, Item, Latent, MimiState, Audio, Noise}

  abbrev after_step :
      Batcher Item Latent MimiState × Result (List (Frame Audio))
      → Result (Batcher Item Latent MimiState)
  after_step (b, ok frames) = ok b
  after_step (b, err) = err

  -- A step for each draw of the noise, while they go well.
  unfoldable pub steps :
      List Noise → Batcher Item Latent MimiState → Result (Batcher Item Latent MimiState)
  steps [] b = ok b
  steps (noise ∷ noises) b = after_step (step m noise b) >>= λ b'. steps noises b'

  after_step-ok :
      (r : Batcher Item Latent MimiState × Result (List (Frame Audio)))
      (b' : Batcher Item Latent MimiState)
      → after_step r ≡ ok b'
      → (frames : List (Frame Audio)) × (r ≡ (b', ok frames))
  after_step-ok (b, ok frames) b' e = (frames, cc)
  after_step-ok (b, err) b' e = cc

  -- Where every stream has a frame to make within its bound and none is further from its bound
  -- than a number of steps: after that many steps, if they go well, no stream is left.
  pub steps-end :
      (noises : List Noise) (b b' : Batcher Item Latent MimiState)
      → All Alive b.streams
      → All (Within (length noises)) b.streams
      → steps noises b ≡ ok b'
      → b'.streams ≡ []
  unfolding steps
  steps-end [] b b' a w e =
      let same : b ≡ b' = cc in subst (λ x. x.streams ≡ []) same (none_left b.streams a w)
  steps-end (noise ∷ noises) b b' a w e =
      let (b1, went, rest) = >>=-eq-ok (after_step (step m noise b)) _ e in
      let (frames, whole) = after_step-ok (step m noise b) b1 went in
      let (ss', moved, left) = subst (Steps m b) whole (step-Steps m noise b) in
      steps-end noises b1 b' (subst (All Alive) (sym left) (going-Alive b.streams ss' frames moved))
        (subst (All (Within (length noises))) (sym left)
          (going-Within (length noises) b.streams ss' frames moved w))
        rest

  admitted-streams :
      (b : Batcher Item Latent MimiState) (prepared text : Text) (r : List (Stacked Item) × Bool)
      (id : ℕ)
      → (admitted m b prepared text r).1 ≡ ok id
      → (admitted m b prepared text r).0.streams
        ≡ b.streams ++ (stream_of m b.next_id prepared text ∷ [])
  unfolding admitted
  admitted-streams b prepared text (caches', true) id e = refl
  admitted-streams b prepared text (caches', false) id e = cc

  add-streams :
      (u : Unicode) (b : Batcher Item Latent MimiState) (text : Text) (voice : Voice) (id : ℕ)
      → (add m u b text voice).1 ≡ ok id
      → (add m u b text voice).0.streams
        ≡ b.streams ++ (stream_of m b.next_id (prepare_text_prompt u text) text ∷ [])
  unfolding add
  add-streams u b text voice id = by_prompting (m.prompted (prepare_text_prompt u text) voice)
    where
      by_prompting :
          (p : Result (ℕ → Option (List Item × ℕ)))
          → let r : Batcher Item Latent MimiState × Result ℕ = elim p [
            | err ↦ (b, err)
            | ok read ↦
                admitted m b
                  (prepare_text_prompt u text)
                  text
                  (add_layers m m.num_layers 0 read b.caches)
          ] in
            r.1 ≡ ok id
            → r.0.streams
              ≡ b.streams ++ (stream_of m b.next_id (prepare_text_prompt u text) text ∷ [])
      by_prompting err = λ e. cc
      by_prompting (ok read) =
          admitted-streams b (prepare_text_prompt u text) text
            (add_layers m m.num_layers 0 read b.caches) id

  -- A text added to a batcher without streams has been read, and no stream is left, after 13 steps
  -- for each word of the prepared text and 26 more, if the steps go well.
  pub reading-ends :
      (u : Unicode) (b b' : Batcher Item Latent MimiState) (text : Text) (voice : Voice) (id : ℕ)
      (noises : List Noise)
      → b.streams ≡ []
      → (add m u b text voice).1 ≡ ok id
      → length noises ≡ max_gen_len (prepare_text_prompt u text)
      → steps noises (add m u b text voice).0 ≡ ok b'
      → b'.streams ≡ []
  unfolding stream_of
  reading-ends u b b' text voice id noises idle added size went =
      let prepared = prepare_text_prompt u text in
      let s = stream_of m b.next_id prepared text in
      let alone : (add m u b text voice).0.streams ≡ s ∷ [] =
        add-streams u b text voice id added ∙ ap (λ ss. ss ++ (s ∷ [])) idle in
      steps-end noises (add m u b text voice).0 b'
        (subst (All Alive) (sym alone) (zero-lt-max_gen_len prepared, tt))
        (subst (All (Within (length noises))) (sym alone) (omega (arith, size), tt)) went
