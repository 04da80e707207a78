-- ===== src/Scheduler/Loop/Readings.antt =====
-- Every reading of the loop stays as `IsFine` says, through all that a round does.
use mathlib.Core.Bool.{true≢false}
use vvaves.Common.{
  ℕ, ◌+◌, ◌≡◌, refl, Bool, true, false, ◌||◌, Option, none, some, List, [], ◌∷◌, ◌++◌, length,
  get_elem?, All, leb, ltb, ◌==◌, if◌then◌else◌, Bool-cases, inl, inr,
}
use vvaves.Common.Floats.{Floats}
use vvaves.Common.Results.{Result, ok, err, Result-cases}
use vvaves.Encode.Format.{to_samples}
use vvaves.Speech.Stream.{Piece, segment_end, frame}
use vvaves.Text.Chars.{Text}
use vvaves.Scheduler.{Job, Active, Server, take_out, dropped, replaced, insert, Batching}
use vvaves.Scheduler.Loop.{
  false_start_frames, false_start_db, placed, given, restart, removed, heard, is_false_start,
  read_again, next_segment, segment_over, after_frame, after_delivery, deliver, spoken, judged,
  on_samples, on_found, on_frame, on_frames, drop_all, reset_segment,
}
use vvaves.Scheduler.Loop.Unheard.{
  Ordered, IsFine, read_again-IsFine, waits-IsFine, going_out-IsSettled, sent-IsSound, IsSound,
  sound, at_mark, at_mark-append, next-IsFine, emptied-IsFine, sent-IsSettled, IsSettled,
}

module _ {κ} {A : Type 0} (P : A → Type κ) where
  abbrev pub AllOf : List (ℕ × A) → Type κ
  AllOf xs = All (λ x. P x.1) xs

  abbrev pub Maybe : Option A → Type κ
  Maybe none = Unit {κ}
  Maybe (some a) = P a

  pub take_out-AllOf :
      (id : ℕ) (xs : List (ℕ × A)) → AllOf xs → Maybe (take_out id xs).0 × AllOf (take_out id xs).1
  take_out-AllOf id [] h = (tt, tt)
  take_out-AllOf id ((k, a) ∷ rest) (here, h) =
      let (found, others) = take_out-AllOf id rest h in
      elim (Bool-cases (k == id)) [ inl y ↦ rw y (here, h) | inr y ↦ rw y (found, (here, others)) ]

abbrev pub IsNew : {Voice : Type 0} → Job Voice → Type 0
IsNew job = (job.slot ≡ true) × (job.sent ≡ [])

module _ {κ} {Voice F B : Type 0} (P : Active Voice F → Type κ) where
  -- So of every active reading, and every job in the channel has its slot and no frame yet.
  abbrev pub AllActive : Server Voice F B → Type κ
  AllActive s = AllOf P s.active × All IsNew s.jobs

  replaced-AllActive :
      (s : Server Voice F B) (old : Option (Active Voice F))
      → AllActive s
      → AllActive (replaced s old)
  unfolding replaced dropped
  replaced-AllActive s none h = h
  replaced-AllActive s (some old) h = h

  pub dropped-AllActive :
      (s : Server Voice F B) (job : Job Voice) → AllActive s → AllActive (dropped s job)
  unfolding dropped
  dropped-AllActive s job h = h

  pub dropped-jobs :
      (s : Server Voice F B) (job : Job Voice) → All IsNew s.jobs → All IsNew (dropped s job).jobs
  unfolding dropped
  dropped-jobs s job h = h

  pub insert-AllActive :
      (s : Server Voice F B) (id : ℕ) (a : Active Voice F)
      → AllActive s
      → P a
      → AllActive (insert s id a)
  unfolding insert
  insert-AllActive s id a h here =
      let (old, rest) = take_out-AllOf P id s.active h.0 in
      replaced-AllActive (record s { active = (id, a) ∷ (take_out id s.active).1 })
        (take_out id s.active).0 ((here, rest), h.1)

module _ (f : Floats) (b : Batching) (hears : ℕ → List Piece → Bool)
    (samples_of : b.Audio → Result (List f.F)) (gain : f.F) where
  open f use {F}
  open b use {B, Voice, Audio, Noise}

  abbrev pub Fine : Active Voice F → Type 1
  Fine a = IsFine f b hears samples_of gain a

  abbrev pub AllFine : Server Voice F B → Type 1
  AllFine s = AllActive Fine s

  pub placed-AllFine :
      (s : Server Voice F B) (a : Active Voice F) (r : B × Result ℕ)
      → AllFine s
      → Fine a
      → AllFine (placed f b hears samples_of gain s a r)
  unfolding placed
  placed-AllFine s a (b', err) h here = dropped-AllActive Fine (record s { batcher = b' }) a.job h
  placed-AllFine s a (b', ok id) h here =
      insert-AllActive Fine (record s { batcher = b' }) id a h here

  given-AllFine :
      (s : Server Voice F B) (a : Active Voice F) (text : Option Text)
      → AllFine s
      → Fine a
      → AllFine (given f b hears samples_of gain s a text)
  unfolding given
  given-AllFine s a none h here = dropped-AllActive Fine s a.job h
  given-AllFine s a (some text) h here =
      placed-AllFine s a (b.add s.batcher text a.job.voice) h here

  restart-AllFine :
      (s : Server Voice F B) (a : Active Voice F)
      → AllFine s
      → Fine a
      → AllFine (restart f b hears samples_of gain s a)
  unfolding restart
  restart-AllFine s a h here = given-AllFine s a (get_elem? a.job.segments a.segment) h here

  removed-AllFine :
      (s : Server Voice F B) (id : ℕ) (done : Bool)
      → AllFine s
      → AllFine (removed f b hears samples_of gain s id done)
  unfolding removed
  removed-AllFine s id true h = h
  removed-AllFine s id false h = h

  if-AllFine :
      (c : Bool) (s1 s2 : Server Voice F B)
      → AllFine s1
      → AllFine s2
      → AllFine (if c then s1 else s2)
  if-AllFine true s1 s2 h1 h2 = h1
  if-AllFine false s1 s2 h1 h2 = h2

  next_segment-AllFine :
      (s : Server Voice F B) (a : Active Voice F) (sent : List Piece) (n : ℕ)
      → AllFine s
      → a.job.slot ≡ true
      → at_mark sent ≡ true
      → AllFine (
          next_segment f b hears samples_of gain s
            (record a { job = record a.job { sent = sent }; segment = n }))
  unfolding next_segment
  next_segment-AllFine s a sent n h here marked =
      let a' : Active Voice F = record a { job = record a.job { sent = sent }; segment = n } in
      if-AllFine (ltb n (length a.job.segments))
        (restart f b hears samples_of gain s
          (reset_segment f b hears samples_of gain (record a' { attempt = 1 })))
        (dropped s a'.job)
        (restart-AllFine s (reset_segment f b hears samples_of gain (record a' { attempt = 1 })) h
          (next-IsFine f b hears samples_of gain a sent n here marked))
        (dropped-AllActive Fine s a'.job h)

  segment_over-AllFine :
      (s : Server Voice F B) (a : Active Voice F)
      → AllFine s
      → a.job.slot ≡ true
      → AllFine (segment_over f b hears samples_of gain s a)
  unfolding segment_over
  segment_over-AllFine s a h here =
      let sent : List Piece = a.job.sent ++ (segment_end ∷ []) in
      if-AllFine (hears a.job.id a.job.sent)
        (next_segment f b hears samples_of gain s
          (record a { job = record a.job { sent = sent }; segment = a.segment + 1 }))
        (dropped s a.job)
        (next_segment-AllFine s a sent (a.segment + 1) h here (at_mark-append a.job.sent))
        (dropped-AllActive Fine s a.job h)

  -- Frames that go out: the reading goes on if what it was and is allows it.
  after_delivery-AllFine :
      (s : Server Voice F B) (id : ℕ) (done : Bool) (a : Active Voice F) (chunks : List (List ℕ))
      → AllFine s
      → IsSound f b hears samples_of gain a
      → (Ordered f → done ≡ false → IsSettled f b hears samples_of gain a)
      → AllFine (
          after_delivery f b hears samples_of gain s id done
            (deliver f b hears samples_of gain a chunks))
  unfolding after_delivery deliver after_frame
  after_delivery-AllFine s id true a [] h here settled =
      segment_over-AllFine s (record a { pending = [] }) h here.granted
  after_delivery-AllFine s id false a [] h here settled =
      insert-AllActive Fine s id (record a { pending = [] }) h
        (emptied-IsFine f b hears samples_of gain a here (λ o. settled o refl))
  after_delivery-AllFine s id done a (chunk ∷ chunks) h here settled =
      let sent : List Piece = a.job.sent ++ (frame chunk ∷ []) in
      let n : ℕ = a.samples_sent + length chunk in
      elim (Bool-cases (hears a.job.id a.job.sent)) [
        | inl y ↦
            rw (y, deliver)
              (after_delivery-AllFine s id done
                (record a { job = record a.job { sent = sent }; samples_sent = n }) chunks h
                (sent-IsSound f b hears samples_of gain a sent n here)
                (λ o e. sent-IsSettled f b hears samples_of gain a sent n (settled o e)))
        | inr y ↦
            rw (y, deliver)
              (dropped-AllActive Fine (removed f b hears samples_of gain s id done) a.job
                (removed-AllFine s id done h))
      ]

  -- The condition on which the frames go out.
  abbrev goes_out : Active Voice F → Bool → Bool
  goes_out a done =
      f.at_least a.peak_db (false_start_db f b hears samples_of gain)
      || leb false_start_frames a.frames_seen
      || done

  settled_by :
      (o : Ordered f) (a : Active Voice F) (done : Bool)
      → Fine a
      → is_false_start f b hears samples_of gain a done ≡ false
      → goes_out a done ≡ true
      → done ≡ false
      → IsSettled f b hears samples_of gain a
  settled_by o a true here kept out e = absurd (true≢false e)
  settled_by o a false here kept out e =
      going_out-IsSettled f b hears samples_of gain o a here kept out

  spoken-AllFine :
      (s : Server Voice F B) (id : ℕ) (a : Active Voice F) (samples : List F) (done : Bool)
      → AllFine s
      → Fine a
      → is_false_start f b hears samples_of gain (heard f b hears samples_of gain a samples) done
        ≡ false
      → AllFine (
          spoken f b hears samples_of gain s id
            (heard f b hears samples_of gain a samples)
            samples
            done)
  unfolding spoken after_frame heard is_false_start
  spoken-AllFine s id a samples done h here kept =
      let a1 : Active Voice F = heard f b hears samples_of gain a samples in
      let pending : List (List ℕ) = a.pending ++ (to_samples f samples gain ∷ []) in
      let a2 : Active Voice F = record a1 { pending = pending } in
      let fine2 : Fine a2 = waits-IsFine f b hears samples_of gain a samples here in
      elim (Bool-cases (goes_out a2 done)) [
        | inl y ↦ rw y (
            after_delivery-AllFine s id done a2 pending h (sound f b hears samples_of gain a2 fine2)
              (λ o e. settled_by o a2 done fine2 kept y e))
        | inr y ↦ rw y (
            if-AllFine done (segment_over f b hears samples_of gain s a2) (insert s id a2)
              (segment_over-AllFine s a2 h fine2.granted) (insert-AllActive Fine s id a2 h fine2))
      ]

  judged-AllFine :
      (s : Server Voice F B) (id : ℕ) (a : Active Voice F) (samples : List F) (done : Bool)
      → AllFine s
      → Fine a
      → AllFine (
          judged f b hears samples_of gain s id
            (heard f b hears samples_of gain a samples)
            samples
            done)
  unfolding judged
  judged-AllFine s id a samples done h here =
      let a1 : Active Voice F = heard f b hears samples_of gain a samples in
      elim (Bool-cases (is_false_start f b hears samples_of gain a1 done)) [
        | inl y ↦ rw y (
            restart-AllFine (removed f b hears samples_of gain s id done)
              (read_again f b hears samples_of gain a1) (removed-AllFine s id done h)
              (read_again-IsFine f b hears samples_of gain a samples done here y))
        | inr y ↦ rw y (spoken-AllFine s id a samples done h here y)
      ]

  on_found-AllFine :
      (s : Server Voice F B) (fr : ℕ × Audio × Bool) (found : Option (Active Voice F))
      → AllFine s
      → Maybe Fine found
      → AllFine (on_found f b hears samples_of gain s fr found)
  unfolding on_found on_samples
  on_found-AllFine s (id, audio, done) none h here = h
  on_found-AllFine s (id, audio, done) (some a) h here = elim (Result-cases (samples_of audio)) [
    | inl y ↦ rw y (dropped-AllActive Fine s a.job h)
    | inr (samples, y) ↦ rw y (judged-AllFine s id a samples done h here)
  ]

  on_frame-AllFine :
      (s : Server Voice F B) (fr : ℕ × Audio × Bool)
      → AllFine s
      → AllFine (on_frame f b hears samples_of gain s fr)
  unfolding on_frame
  on_frame-AllFine s (id, audio, done) h =
      let (found, rest) = take_out-AllOf Fine id s.active h.0 in
      on_found-AllFine (record s { active = (take_out id s.active).1 }) (id, audio, done)
        (take_out id s.active).0 (rest, h.1) found

  pub on_frames-AllFine :
      (frs : List (ℕ × Audio × Bool)) (s : Server Voice F B)
      → AllFine s
      → AllFine (on_frames f b hears samples_of gain frs s)
  unfolding on_frames
  on_frames-AllFine [] s h = h
  on_frames-AllFine (fr ∷ frs) s h =
      on_frames-AllFine frs (on_frame f b hears samples_of gain s fr) (on_frame-AllFine s fr h)

  pub drop_all-AllFine :
      (xs : List (ℕ × Active Voice F)) (s : Server Voice F B)
      → All IsNew s.jobs
      → AllFine (drop_all f b hears samples_of gain xs s)
  unfolding drop_all
  drop_all-AllFine [] s h = (tt, h)
  drop_all-AllFine ((id, a) ∷ rest) s h =
      drop_all-AllFine rest (dropped (record s { active = rest }) a.job)
        (dropped-jobs Fine (record s { active = rest }) a.job h)
