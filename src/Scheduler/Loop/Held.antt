-- ===== src/Scheduler/Loop/Held.antt =====
-- What is done with a frame keeps the count of the slots.
use vvaves.Common.{
  ℕ, ◌+◌, ◌≡◌, refl, sym, subst, Bool, true, false, ◌||◌, List, [], ◌∷◌, ◌++◌, length, get_elem?,
  ltb, leb, Bool-cases, inl, inr,
}
use vvaves.Common.Floats.{Floats}
use vvaves.Common.Results.{Result, ok, err}
use vvaves.Encode.Format.{to_samples}
use vvaves.Speech.Stream.{Piece, frame, segment_end}
use vvaves.Scheduler.{Class, Active, Server, Batching}
use vvaves.Scheduler.Loop.{
  deliver, restart, removed, heard, is_false_start, read_again, next_segment, segment_over,
  after_frame, after_delivery, spoken, judged, on_samples, reset_segment,
}
use vvaves.Scheduler.Loop.Slots.{holds, Keeps, dropped-Keeps, insert-Keeps, given-Keeps}

module _ (f : Floats) (b : Batching) (hears : ℕ → List Piece → Bool)
    (samples_of : b.Audio → Result (List f.F)) (gain : f.F) where
  open f use {F}
  open b use {B, Voice, Audio, Noise}

  restart-Keeps :
      (c : Class) (s : Server Voice F B) (a : Active Voice F) (n : ℕ)
      → Keeps c s (holds c a.job + n)
      → Keeps c (restart f b hears samples_of gain s a) n
  unfolding restart
  restart-Keeps c s a n h =
      given-Keeps f b hears samples_of gain c s a (get_elem? a.job.segments a.segment) n h

  deliver-holds :
      (c : Class) (chunks : List (List ℕ)) (a : Active Voice F)
      → holds c (deliver f b hears samples_of gain a chunks).0.job ≡ holds c a.job
  unfolding deliver
  deliver-holds c [] a = refl
  deliver-holds c (chunk ∷ chunks) a = elim (Bool-cases (hears a.job.id a.job.sent)) [
    | inl y ↦
        let a' : Active Voice F = record a {
          job = record a.job { sent = a.job.sent ++ (frame chunk ∷ []) };
          samples_sent = a.samples_sent + length chunk;
        } in
        rw (y, deliver) (deliver-holds c chunks a')
    | inr y ↦ rw (y, deliver) refl
  ]

  removed-Keeps :
      (c : Class) (s : Server Voice F B) (id : ℕ) (done : Bool) (n : ℕ)
      → Keeps c s n
      → Keeps c (removed f b hears samples_of gain s id done) n
  unfolding removed
  removed-Keeps c s id true n h = h
  removed-Keeps c s id false n h = h

  next_segment-Keeps :
      (c : Class) (s : Server Voice F B) (a : Active Voice F) (n : ℕ)
      → Keeps c s (holds c a.job + n)
      → Keeps c (next_segment f b hears samples_of gain s a) n
  unfolding next_segment reset_segment
  next_segment-Keeps c s a n h = elim (Bool-cases (ltb a.segment (length a.job.segments))) [
    | inl y ↦
        rw y (
          restart-Keeps c s (reset_segment f b hears samples_of gain (record a { attempt = 1 })) n
            h)
    | inr y ↦ rw y (dropped-Keeps c s a.job n h)
  ]

  segment_over-Keeps :
      (c : Class) (s : Server Voice F B) (a : Active Voice F) (n : ℕ)
      → Keeps c s (holds c a.job + n)
      → Keeps c (segment_over f b hears samples_of gain s a) n
  unfolding segment_over
  segment_over-Keeps c s a n h = elim (Bool-cases (hears a.job.id a.job.sent)) [
    | inl y ↦
        let a' : Active Voice F = record a {
          job = record a.job { sent = a.job.sent ++ (segment_end ∷ []) };
          segment = a.segment + 1;
        } in
        rw y (next_segment-Keeps c s a' n h)
    | inr y ↦ rw y (dropped-Keeps c s a.job n h)
  ]

  after_frame-Keeps :
      (c : Class) (s : Server Voice F B) (id : ℕ) (a : Active Voice F) (done : Bool) (n : ℕ)
      → Keeps c s (holds c a.job + n)
      → Keeps c (after_frame f b hears samples_of gain s id a done) n
  unfolding after_frame
  after_frame-Keeps c s id a true n h = segment_over-Keeps c s a n h
  after_frame-Keeps c s id a false n h = insert-Keeps c s id a n h

  after_delivery-Keeps :
      (c : Class) (s : Server Voice F B) (id : ℕ) (done : Bool) (r : Active Voice F × Bool) (n : ℕ)
      → Keeps c s (holds c r.0.job + n)
      → Keeps c (after_delivery f b hears samples_of gain s id done r) n
  unfolding after_delivery
  after_delivery-Keeps c s id done (a, true) n h =
      after_frame-Keeps c s id (record a { pending = [] }) done n h
  after_delivery-Keeps c s id done (a, false) n h =
      dropped-Keeps c (removed f b hears samples_of gain s id done) a.job n
        (removed-Keeps c s id done (holds c a.job + n) h)

  spoken-Keeps :
      (c : Class) (s : Server Voice F B) (id : ℕ) (a : Active Voice F) (samples : List F)
      (done : Bool) (n : ℕ)
      → Keeps c s (holds c a.job + n)
      → Keeps c (spoken f b hears samples_of gain s id a samples done) n
  unfolding spoken
  spoken-Keeps c s id a samples done n h =
      let pending = a.pending ++ (to_samples f samples gain ∷ []) in
      let a' : Active Voice F = record a { pending = pending } in
      let goes_out = f.at_least a.peak_db (f.neg_lit 30 0) || leb 15 a.frames_seen || done in
      elim (Bool-cases goes_out) [
        | inl y ↦ rw y (
            after_delivery-Keeps c s id done (deliver f b hears samples_of gain a' pending) n
              (subst (λ k. Keeps c s (k + n)) (sym (deliver-holds c pending a')) h))
        | inr y ↦ rw y (after_frame-Keeps c s id a' done n h)
      ]

  judged-Keeps :
      (c : Class) (s : Server Voice F B) (id : ℕ) (a : Active Voice F) (samples : List F)
      (done : Bool) (n : ℕ)
      → Keeps c s (holds c a.job + n)
      → Keeps c (judged f b hears samples_of gain s id a samples done) n
  unfolding judged read_again reset_segment
  judged-Keeps c s id a samples done n h =
      elim (Bool-cases (is_false_start f b hears samples_of gain a done)) [
        | inl y ↦ rw y (
            restart-Keeps c (removed f b hears samples_of gain s id done)
              (read_again f b hears samples_of gain a) n
              (removed-Keeps c s id done (holds c a.job + n) h))
        | inr y ↦ rw y (spoken-Keeps c s id a samples done n h)
      ]

  pub on_samples-Keeps :
      (c : Class) (s : Server Voice F B) (id : ℕ) (a : Active Voice F) (done : Bool)
      (samples : Result (List F)) (n : ℕ)
      → Keeps c s (holds c a.job + n)
      → Keeps c (on_samples f b hears samples_of gain s id a done samples) n
  unfolding on_samples heard
  on_samples-Keeps c s id a done err n h = dropped-Keeps c s a.job n h
  on_samples-Keeps c s id a done (ok samples) n h =
      judged-Keeps c s id (heard f b hears samples_of gain a samples) samples done n h
