-- ===== src/Scheduler/Loop/Progress.antt =====
-- Every job is started by the next round, and no attempt that was heard is given up.
use vvaves.Common.{
  ℕ, ◌+◌, ◌≡◌, refl, ap₂, subst, All, ◌++◌, is_empty, if◌then◌else◌, Bool, true, false, some, List,
  [], ◌∷◌, length, All-append, ltb, arith, Bool-cases, inl, inr,
}
use vvaves.Common.Floats.{Floats}
use vvaves.Common.Results.{Result}
use vvaves.Speech.Stream.{Piece}
use vvaves.Scheduler.{
  live, background, Counter, Job, Active, Queues, Server, take_out, admit, submit, add_one, change,
  sub_one, Batching,
}
use vvaves.Scheduler.Loop.{is_false_start, heard, round, on_step}
use vvaves.Scheduler.Loop.Admission.{
  idle, no_queues, Event, submits, rounds, happens, after, Good, happens-Good,
}
use vvaves.Scheduler.Loop.Unheard.{Ordered, at_mark, false_start-IsUnheard, IsUnheard}
use vvaves.Scheduler.Loop.Readings.{IsNew, dropped-AllActive, Fine, AllFine, Maybe, take_out-AllOf}
use vvaves.Scheduler.Loop.Waiting.{of_class, readings}
use vvaves.Scheduler.Loop.Starts.{all_asked, round-drained}

module _ (f : Floats) (b : Batching) (hears : ℕ → List Piece → Bool)
    (samples_of : b.Audio → Result (List f.F)) (gain : f.F) where
  open f use {F}
  open b use {B, Voice, Audio, Noise}

  admit-AllFine :
      (receiving : Bool) (s : Server Voice F B) (job : Job Voice)
      → job.sent ≡ []
      → AllFine f b hears samples_of gain s
      → AllFine f b hears samples_of gain (admit receiving s job).0
  unfolding admit
  admit-AllFine true s job unsent h =
      (h.0, All-append IsNew s.jobs (record job { slot = true } ∷ []) h.1 ((refl, unsent), tt))
  admit-AllFine false s job unsent h =
      dropped-AllActive (Fine f b hears samples_of gain)
        (record s {
          taken = change job.class (λ n. n + 1) s.taken;
          queued = change job.class sub_one (change job.class add_one s.queued);
          admitted = add_one s.admitted;
        })
        (record job { slot = true }) h

  submit-AllFine :
      (receiving : Bool) (s : Server Voice F B) (job : Job Voice)
      → job.sent ≡ []
      → AllFine f b hears samples_of gain s
      → AllFine f b hears samples_of gain (submit receiving s job).0
  unfolding submit
  submit-AllFine receiving s job unsent h =
      elim (Bool-cases (ltb (s.taken job.class) (s.slots job.class))) [
        | inl room ↦ rw room (
            admit-AllFine receiving (record s { next_id = add_one s.next_id })
              (record job { id = s.next_id }) unsent h)
        | inr full ↦ rw full h
      ]

  -- What holds between two events.
  record Stands (state : Queues Voice × Server Voice F B) : Type 1 where
    live_drained : state.0.live_jobs ≡ []
    background_drained : state.0.background_jobs ≡ []
    fine : AllFine f b hears samples_of gain state.1
    live_slots : Good f b hears samples_of gain live state
    background_slots : Good f b hears samples_of gain background state

  -- The handler submits a job with a channel of its own, to which nothing was sent.
  abbrev pub ComesNew : Event Voice Noise → Type 0
  ComesNew (submits receiving job) = job.sent ≡ []
  ComesNew (rounds noise) = Unit {0}

  happens-Stands :
      (e : Event Voice Noise) (state : Queues Voice × Server Voice F B)
      → ComesNew e
      → Stands state
      → Stands (happens f b hears samples_of gain e state)
  unfolding happens
  happens-Stands (submits receiving job) (q, s) unsent st = record {
    live_drained = st.live_drained;
    background_drained = st.background_drained;
    fine = submit-AllFine receiving s job unsent st.fine;
    live_slots =
        happens-Good f b hears samples_of gain live (submits receiving job) (q, s) st.live_slots;
    background_slots =
        happens-Good f b hears samples_of gain background (submits receiving job) (q, s)
          st.background_slots;
  }
  happens-Stands (rounds noise) (q, s) new st =
      let (l, g, h, starts) =
        round-drained f b hears samples_of gain noise q s st.live_drained st.background_drained
          st.live_slots st.background_slots st.fine in
      record {
        live_drained = l;
        background_drained = g;
        fine = h;
        live_slots =
            happens-Good f b hears samples_of gain live (rounds noise) (q, s) st.live_slots;
        background_slots =
            happens-Good f b hears samples_of gain background (rounds noise) (q, s)
              st.background_slots;
      }

  after-Stands :
      (es : List (Event Voice Noise)) (state : Queues Voice × Server Voice F B)
      → All ComesNew es
      → Stands state
      → Stands (after f b hears samples_of gain es state)
  unfolding after
  after-Stands [] state new st = st
  after-Stands (e ∷ es) state (here, new) st =
      after-Stands es (happens f b hears samples_of gain e state) new
        (happens-Stands e state here st)

  stands :
      (slots : Counter) (b0 : B) (es : List (Event Voice Noise))
      → All ComesNew es
      → Stands (after f b hears samples_of gain es (no_queues, idle slots b0))
  unfolding idle no_queues
  stands slots b0 es new =
      after-Stands es (no_queues, idle slots b0) new
        (record {
          live_drained = refl;
          background_drained = refl;
          fine = (tt, tt);
          live_slots = (refl, omega arith);
          background_slots = (refl, omega arith);
        })

  -- After any submissions and rounds from an idle server a round starts every job that stands in the
  -- channel, live jobs first and background jobs behind them, each in the order in which they came:
  -- the batcher is asked for the first segment of each, and each that it takes is a new reading
  -- under the id that it gives. Then the round steps, if a reading is active, and no job is left in
  -- a queue. Nothing was sent to the jobs before they were submitted.
  pub jobs_started :
      (slots : Counter) (b0 : B) (es : List (Event Voice Noise)) (noise : Noise)
      → All ComesNew es
      → let (q, s) = after f b hears samples_of gain es (no_queues, idle slots b0) in
        (s1 : Server Voice F B) × (readings s1
          ≡ all_asked f b hears samples_of gain
              (of_class live s.jobs ++ of_class background s.jobs)
              (readings s))
        × (round f b hears samples_of gain noise q s ≡ (
          no_queues,
          if is_empty s1.active
              then s1
              else on_step f b hears samples_of gain s1 (b.step noise s1.batcher),
        ))
  unfolding no_queues
  jobs_started slots b0 es noise new =
      let st = stands slots b0 es new in
      let (q, s) = after f b hears samples_of gain es (no_queues, idle slots b0) in
      let (l, g, h, (s1, asks, next)) =
        round-drained f b hears samples_of gain noise q s st.live_drained st.background_drained
          st.live_slots st.background_slots st.fine in
      (
        s1,
        asks,
        ap₂ (λ (qs : Queues Voice) (t : Server Voice F B). (qs, t))
            (ap₂ (λ x y. record { live_jobs = x; background_jobs = y }) l g) next,
      )

  -- Where comparisons and `max` are those of numbers and nothing was sent to the jobs before they
  -- were submitted: a reading that is active after any submissions and rounds is given up as a
  -- false start by its next frame only if all frames of the attempt so far still wait and no frame
  -- was sent behind the mark of the last segment that ended, so that nothing of it was heard.
  pub given_up-unheard :
      (o : Ordered f) (slots : Counter) (b0 : B) (es : List (Event Voice Noise)) (id : ℕ)
      (a : Active Voice F) (samples : List F) (done : Bool)
      → All ComesNew es
      → (take_out id (after f b hears samples_of gain es (no_queues, idle slots b0)).1.active).0
        ≡ some a
      → is_false_start f b hears samples_of gain (heard f b hears samples_of gain a samples) done
        ≡ true
      → (length a.pending ≡ a.frames_seen) × (at_mark a.job.sent ≡ true)
  unfolding IsUnheard
  given_up-unheard o slots b0 es id a samples done new found silent =
      let st = stands slots b0 es new in
      let (here, rest) =
        take_out-AllOf (Fine f b hears samples_of gain) id
          (after f b hears samples_of gain es (no_queues, idle slots b0)).1.active st.fine.0 in
      false_start-IsUnheard f b hears samples_of gain o a samples done
        (subst (Maybe (Fine f b hears samples_of gain)) found here) silent
