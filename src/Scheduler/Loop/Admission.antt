-- ===== src/Scheduler/Loop/Admission.antt =====
-- Any interleaving of submissions and rounds.
use vvaves.Common.{
  ℕ, ◌+◌, ◌≤◌, ◌≡◌, refl, Bool, true, false, List, [], ◌∷◌, ltb, ltb→lt, arith, Bool-cases, inl,
  inr,
}
use vvaves.Common.Floats.{Floats}
use vvaves.Common.Results.{Result}
use vvaves.Speech.Stream.{Piece}
use vvaves.Scheduler.{
  Class, live, background, change, sub_one, add_one, Counter, Job, Queues, Server, admit, submit,
  Batching,
}
use vvaves.Scheduler.Loop.{round}
use vvaves.Scheduler.Loop.Slots.{holding, held, held_active, Keeps, dropped-Keeps}
use vvaves.Scheduler.Loop.Rounds.{held_queues, held-append, round-Keeps}

one_more : (k c : Class) (t : Counter) → change k (λ n. n + 1) t c ≡ holding true k c + t c
one_more live live t = omega arith
one_more live background t = omega arith
one_more background live t = omega arith
one_more background background t = omega arith

within_slots :
    (k c : Class) (t slots : Counter)
    → ltb (t k) (slots k) ≡ true
    → t c ≤ slots c
    → change k (λ n. n + 1) t c ≤ slots c
within_slots live live t slots room h = omega (arith, ltb→lt (t live) (slots live) room)
within_slots live background t slots room h = h
within_slots background live t slots room h = h
within_slots background background t slots room h =
    omega (arith, ltb→lt (t background) (slots background) room)

module _ {Voice F B : Type 0} where
  admit-Keeps :
      (c : Class) (receiving : Bool) (s : Server Voice F B) (job : Job Voice) (n : ℕ)
      → ltb (s.taken job.class) (s.slots job.class) ≡ true
      → Keeps c s n
      → Keeps c (admit receiving s job).0 n
  unfolding admit
  admit-Keeps c true s job n room (e, le) =
      let granted : Job Voice = record job { slot = true } in
      (
        omega (arith, one_more job.class c s.taken, e, held-append c s.jobs (granted ∷ [])),
        within_slots job.class c s.taken s.slots room le,
      )
  admit-Keeps c false s job n room (e, le) =
      dropped-Keeps c
        (record s {
          taken = change job.class (λ n. n + 1) s.taken;
          queued = change job.class sub_one (change job.class add_one s.queued);
          admitted = add_one s.admitted;
        })
        (record job { slot = true }) n
        (
          omega (arith, one_more job.class c s.taken, e),
          within_slots job.class c s.taken s.slots room le,
        )

  submit-Keeps :
      (c : Class) (receiving : Bool) (s : Server Voice F B) (job : Job Voice) (n : ℕ)
      → Keeps c s n
      → Keeps c (submit receiving s job).0 n
  unfolding submit
  submit-Keeps c receiving s job n h =
      elim (Bool-cases (ltb (s.taken job.class) (s.slots job.class))) [
        | inl room ↦ rw room (
            admit-Keeps c receiving (record s { next_id = add_one s.next_id })
              (record job { id = s.next_id }) n room h)
        | inr full ↦ rw full h
      ]

-- A server without a job.
unfoldable pub idle : {Voice F B : Type 0} → Counter → B → Server Voice F B
idle slots b0 = record {
  next_id = 1;
  taken = λ c. 0;
  slots = slots;
  queued = λ c. 0;
  active_now = λ c. 0;
  admitted = 0;
  rejected = 0;
  jobs = [];
  active = [];
  batcher = b0;
  gone = [];
}

unfoldable pub no_queues : {Voice : Type 0} → Queues Voice
no_queues = record { live_jobs = []; background_jobs = [] }

pub data Event (Voice Noise : Type 0) : Type 0 where
  submits : Bool → Job Voice → Event Voice Noise
  rounds : Noise → Event Voice Noise

module _ (f : Floats) (b : Batching) (hears : ℕ → List Piece → Bool)
    (samples_of : b.Audio → Result (List f.F)) (gain : f.F) where
  open f use {F}
  open b use {B, Voice, Audio, Noise}

  unfoldable pub happens :
      Event Voice Noise → Queues Voice × Server Voice F B → Queues Voice × Server Voice F B
  happens (submits receiving job) (q, s) = (q, (submit receiving s job).0)
  happens (rounds noise) (q, s) = round f b hears samples_of gain noise q s

  unfoldable pub after :
      List (Event Voice Noise) → Queues Voice × Server Voice F B → Queues Voice × Server Voice F B
  unfolding happens
  after [] state = state
  after (e ∷ es) state = after es (happens e state)

  abbrev pub Good : Class → Queues Voice × Server Voice F B → Type 0
  Good c (q, s) = Keeps c s (held_queues c q)

  pub happens-Good :
      (c : Class) (e : Event Voice Noise) (state : Queues Voice × Server Voice F B)
      → Good c state
      → Good c (happens e state)
  unfolding happens
  happens-Good c (submits receiving job) (q, s) h =
      submit-Keeps c receiving s job (held_queues c q) h
  happens-Good c (rounds noise) (q, s) h = round-Keeps f b hears samples_of gain c noise q s h

  after-Good :
      (c : Class) (es : List (Event Voice Noise)) (state : Queues Voice × Server Voice F B)
      → Good c state
      → Good c (after es state)
  unfolding after
  after-Good c [] state h = h
  after-Good c (e ∷ es) state h = after-Good c es (happens e state) (happens-Good c e state h)

  -- After any interleaving of submissions and rounds from an idle server, whatever the batcher and
  -- the listeners do: for each class, the slots that are taken are as many as those of the jobs
  -- that wait in the queues, stand in the channel or are being read, and no more than there are.
  pub slots_held :
      (slots : Counter) (b0 : B) (es : List (Event Voice Noise)) (c : Class)
      → let (q, s) = after es (no_queues, idle slots b0) in
        (s.taken c ≡ held_queues c q + (held c s.jobs + held_active c s.active))
        × (s.taken c ≤ s.slots c)
  unfolding idle no_queues
  slots_held slots b0 es c = after-Good c es (no_queues, idle slots b0) (refl, omega arith)
