-- ===== src/Scheduler/Loop/Unheard.antt =====
-- What holds of a reading: it has its slot, and its current attempt was not heard while it can still
-- be given up.
use mathlib.Core.Bool.{true≢false}
use vvaves.Common.{
  ℕ, ◌+◌, ◌≤◌, ◌<◌, ◌≡◌, refl, ap, sym, ◌∙◌, Bool, true, false, ◌&&◌, ◌||◌, List, [], ◌∷◌, ◌++◌,
  length, leb, ltb, length-append, ◌⊎◌, inl, inr, arith, Bool-cases, ltb→le, ltb→lt,
}
use vvaves.Common.Floats.{Floats}
use vvaves.Common.Results.{Result}
use vvaves.Encode.Format.{to_samples}
use vvaves.Speech.Stream.{Piece, frame, segment_end}
use vvaves.Scheduler.{Job, Active, Batching}
use vvaves.Scheduler.Loop.{
  false_start_frames, max_attempts, false_start_db, rms_db, new_active, reset_segment, heard,
  is_false_start, read_again,
}

-- Whether nothing was sent behind the mark of the last segment that ended.
abbrev pub at_mark : List Piece → Bool
at_mark [] = true
at_mark (segment_end ∷ []) = true
at_mark (frame samples ∷ []) = false
at_mark (piece ∷ next ∷ pieces) = at_mark (next ∷ pieces)

pub at_mark-append : (sent : List Piece) → at_mark (sent ++ (segment_end ∷ [])) ≡ true
at_mark-append [] = refl
at_mark-append (frame samples ∷ []) = refl
at_mark-append (segment_end ∷ []) = refl
at_mark-append (frame samples ∷ next ∷ pieces) = at_mark-append (next ∷ pieces)
at_mark-append (segment_end ∷ next ∷ pieces) = at_mark-append (next ∷ pieces)

guards :
    (late silent done room : Bool)
    → ((late && silent) || (done && silent)) && room ≡ true
    → (silent ≡ true) × (room ≡ true)
guards true true done room h = (refl, h)
guards false true true room h = (refl, h)
guards false true false room h = absurd (true≢false (sym h))
guards true false true room h = absurd (true≢false (sym h))
guards true false false room h = absurd (true≢false (sym h))
guards false false true room h = absurd (true≢false (sym h))
guards false false false room h = absurd (true≢false (sym h))

no_guards :
    (late silent done room : Bool)
    → ((late && silent) || (done && silent)) && room ≡ false
    → late ≡ true
    → (silent ≡ false) ⊎ (room ≡ false)
no_guards true true done room h e = inr h
no_guards true false done room h e = inl refl
no_guards false silent done room h e = absurd (true≢false (sym e))

or_late : (loud late : Bool) → loud ≡ false → loud || late || false ≡ true → late ≡ true
or_late true late e h = absurd (true≢false e)
or_late false true e h = refl
or_late false false e h = absurd (true≢false (sym h))

-- What IEEE 754 and `f32::max` say of numbers, which are not NaN. `f32::max` is a number if its
-- first argument is one.
pub record Ordered (f : Floats) : Type 1 where
  pub IsNumber : f.F → Type 0
  pub neg_lit-IsNumber : (m e : ℕ) → IsNumber (f.neg_lit m e)
  pub neg_infinity-IsNumber : IsNumber f.neg_infinity
  pub fmax-IsNumber : (x y : f.F) → IsNumber x → IsNumber (f.fmax x y)
  pub not-less : (x t : f.F) → IsNumber x → IsNumber t → f.less x t ≡ false → f.at_least x t ≡ true
  pub not-at_least :
      (x t : f.F) → IsNumber x → IsNumber t → f.at_least x t ≡ true → f.less x t ≡ false
  pub at_least-fmax :
      (x y t : f.F) → IsNumber x → f.at_least x t ≡ true → f.at_least (f.fmax x y) t ≡ true

module _ (f : Floats) (b : Batching) (hears : ℕ → List Piece → Bool)
    (samples_of : b.Audio → Result (List f.F)) (gain : f.F) where
  open f use {F, at_least, fmax}
  open b use {Voice}

  abbrev threshold : F
  threshold = false_start_db f b hears samples_of gain

  -- All frames of the current attempt wait, and no frame of the current segment was sent.
  unfoldable pub IsUnheard : Active Voice F → Type 0
  IsUnheard a = (length a.pending ≡ a.frames_seen) × (at_mark a.job.sent ≡ true)

  -- The current attempt is not given up any more.
  pub IsSettled : Active Voice F → Type 0
  IsSettled a = (at_least a.peak_db threshold ≡ true) ⊎ (max_attempts ≤ a.attempt)

  pub sent-IsSettled :
      (a : Active Voice F) (sent : List Piece) (n : ℕ)
      → IsSettled a
      → IsSettled (record a { job = record a.job { sent = sent }; samples_sent = n })
  unfolding IsSettled
  sent-IsSettled a sent n h = h

  -- What holds of a reading whatever was sent.
  pub record IsSound (a : Active Voice F) : Type 1 where
    pub granted : a.job.slot ≡ true
    pub attempts : a.attempt ≤ max_attempts
    pub number : (o : Ordered f) → o.IsNumber a.peak_db

  pub record IsFine (a : Active Voice F) : Type 1 where
    pub granted : a.job.slot ≡ true
    pub attempts : a.attempt ≤ max_attempts
    pub number : (o : Ordered f) → o.IsNumber a.peak_db
    pub quiet : Ordered f → IsUnheard a ⊎ IsSettled a

  pub new_active-IsFine :
      (job : Job Voice)
      → job.slot ≡ true
      → job.sent ≡ []
      → IsFine (new_active f b hears samples_of gain job)
  unfolding new_active IsUnheard
  new_active-IsFine job h unsent = record {
    granted = h;
    attempts = omega arith;
    number = λ o. o.neg_infinity-IsNumber;
    quiet = λ o. inl (refl, ap at_mark unsent);
  }

  pub sound : (a : Active Voice F) → IsFine a → IsSound a
  sound a fine = record { granted = fine.granted; attempts = fine.attempts; number = fine.number }

  needs :
      (a : Active Voice F) (samples : List F) (done : Bool)
      → is_false_start f b hears samples_of gain (heard f b hears samples_of gain a samples) done
        ≡ true
      → (f.less (fmax a.peak_db (rms_db f b hears samples_of gain samples)) threshold ≡ true)
        × (a.attempt < max_attempts)
  unfolding is_false_start heard
  needs a samples done h =
      let (silent, room) =
        guards (leb false_start_frames (a.frames_seen + 1))
          (f.less (fmax a.peak_db (rms_db f b hears samples_of gain samples)) threshold) done
          (ltb a.attempt max_attempts) h in
      (silent, ltb→lt a.attempt max_attempts room)

  -- A false start is one of an attempt that was not heard.
  pub false_start-IsUnheard :
      (o : Ordered f) (a : Active Voice F) (samples : List F) (done : Bool)
      → IsFine a
      → is_false_start f b hears samples_of gain (heard f b hears samples_of gain a samples) done
        ≡ true
      → IsUnheard a
  unfolding is_false_start heard IsSettled
  false_start-IsUnheard o a samples done fine h = elim (fine.quiet o) [
    | inl u ↦ u
    | inr (inl loud) ↦
        let level : F = rms_db f b hears samples_of gain samples in
        let still : at_least (fmax a.peak_db level) threshold ≡ true =
          o.at_least-fmax a.peak_db level threshold (fine.number o) loud in
        let not_silent =
          o.not-at_least (fmax a.peak_db level) threshold
            (o.fmax-IsNumber a.peak_db level (fine.number o)) (o.neg_lit-IsNumber 30 0) still in
        absurd (true≢false (sym (needs a samples done h).0 ∙ not_silent))
    | inr (inr last) ↦ absurd (omega (arith, (needs a samples done h).1, last))
  ]

  pub read_again-IsFine :
      (a : Active Voice F) (samples : List F) (done : Bool)
      → IsFine a
      → is_false_start f b hears samples_of gain (heard f b hears samples_of gain a samples) done
        ≡ true
      → IsFine (read_again f b hears samples_of gain (heard f b hears samples_of gain a samples))
  unfolding is_false_start heard read_again reset_segment IsUnheard
  read_again-IsFine a samples done fine h = record {
    granted = fine.granted;
    attempts = omega (arith, (needs a samples done h).1);
    number = λ o. o.neg_infinity-IsNumber;
    quiet = λ o. inl (refl, (false_start-IsUnheard o a samples done fine h).1);
  }

  -- A frame that waits with those before it.
  pub waits-IsFine :
      (a : Active Voice F) (samples : List F)
      → IsFine a
      → IsFine (record (heard f b hears samples_of gain a samples) {
        pending = a.pending ++ (to_samples f samples gain ∷ []);
      })
  unfolding heard IsUnheard IsSettled
  waits-IsFine a samples fine = record {
    granted = fine.granted;
    attempts = fine.attempts;
    number =
        λ o. o.fmax-IsNumber a.peak_db (rms_db f b hears samples_of gain samples) (fine.number o);
    quiet = λ o. elim (fine.quiet o) [
      | inl (all, unsent) ↦
          inl (omega (arith, all, length-append a.pending (to_samples f samples gain ∷ [])), unsent)
      | inr (inl loud) ↦ inr (
          inl (
            o.at_least-fmax a.peak_db (rms_db f b hears samples_of gain samples) threshold
              (fine.number o) loud))
      | inr (inr last) ↦ inr (inr last)
    ];
  }

  -- A reading that is heard is settled, unless the frame was its segment's last.
  pub going_out-IsSettled :
      (o : Ordered f) (a : Active Voice F)
      → IsFine a
      → is_false_start f b hears samples_of gain a false ≡ false
      → at_least a.peak_db threshold || leb false_start_frames a.frames_seen || false ≡ true
      → IsSettled a
  unfolding is_false_start IsSettled
  going_out-IsSettled o a fine kept h = elim (Bool-cases (at_least a.peak_db threshold)) [
    | inl y ↦ inl y
    | inr y ↦
        let late : leb false_start_frames a.frames_seen ≡ true =
          or_late (at_least a.peak_db threshold) (leb false_start_frames a.frames_seen) y h in
        elim (no_guards (leb false_start_frames a.frames_seen) (f.less a.peak_db threshold) false
          (ltb a.attempt max_attempts) kept late) [
            | inl loud ↦
                inl (o.not-less a.peak_db threshold (fine.number o) (o.neg_lit-IsNumber 30 0) loud)
            | inr last ↦ inr (ltb→le a.attempt max_attempts last)
          ]
  ]

  -- What was sent does not matter to it.
  pub sent-IsSound :
      (a : Active Voice F) (sent : List Piece) (n : ℕ)
      → IsSound a
      → IsSound (record a { job = record a.job { sent = sent }; samples_sent = n })
  sent-IsSound a sent n fine = record {
    granted = fine.granted;
    attempts = fine.attempts;
    number = fine.number;
  }

  pub emptied-IsFine :
      (a : Active Voice F)
      → IsSound a
      → (Ordered f → IsSettled a)
      → IsFine (record a { pending = [] })
  unfolding IsSettled
  emptied-IsFine a fine settled = record {
    granted = fine.granted;
    attempts = fine.attempts;
    number = fine.number;
    quiet = λ o. inr (settled o);
  }

  -- The start of the next segment, whatever was heard of the last.
  pub next-IsFine :
      (a : Active Voice F) (sent : List Piece) (n : ℕ)
      → a.job.slot ≡ true
      → at_mark sent ≡ true
      → IsFine (
          reset_segment f b hears samples_of gain
            (record a { job = record a.job { sent = sent }; segment = n; attempt = 1 }))
  unfolding reset_segment IsUnheard
  next-IsFine a sent n granted marked = record {
    granted = granted;
    attempts = omega arith;
    number = λ o. o.neg_infinity-IsNumber;
    quiet = λ o. inl (refl, marked);
  }
