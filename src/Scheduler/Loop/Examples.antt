-- ===== src/Scheduler/Loop/Examples.antt =====
-- A reading whose first frames are silent.
use vvaves.Common.{
  ◌++◌, if◌then◌else◌, is_empty, ℕ, ◌+◌, ◌≡◌, refl, Bool, true, false, Option, none, some, List, [],
  ◌∷◌, ◌++◌, length, arith,
}
use vvaves.Common.Floats.{Floats}
use vvaves.Common.Results.{Result, ok}
use vvaves.Encode.Samples.{hundredths}
use vvaves.Speech.Stream.{Piece}
use vvaves.Scheduler.{
  live, background, Counter, Server, Job, Active, Batching, take_out, submit, intake, insert,
}
use vvaves.Scheduler.Loop.{is_false_start, heard, new_active, round, on_step}
use vvaves.Scheduler.Loop.Admission.{Event, submits, rounds, after, happens, idle, no_queues}
use vvaves.Scheduler.Loop.Unheard.{Ordered}
use vvaves.Scheduler.Loop.Unheard.{at_mark}
use vvaves.Scheduler.Loop.Waiting.{of_class, readings}
use vvaves.Scheduler.Loop.Starts.{all_asked}
use vvaves.Scheduler.Loop.Progress.{jobs_started, given_up-unheard}

abbrev quiet : Floats
quiet = record hundredths { neg_lit = λ m e. 5000 }

quiet-Ordered : Ordered quiet
quiet-Ordered = record {
  IsNumber = λ x. Unit;
  neg_lit-IsNumber = λ m e. tt;
  neg_infinity-IsNumber = tt;
  fmax-IsNumber = λ x y h. tt;
  not-less = λ x t h h' e. ground arith;
  not-at_least = λ x t h h' e. ground arith;
  at_least-fmax = λ x y t h e. ground arith;
}

abbrev numbering : Batching
numbering = record {
  B = ℕ;
  Voice = ℕ;
  Audio = ℕ;
  Noise = ℕ;
  add = λ n text voice. (n + 1, ok n);
  remove = λ n id. n;
  step = λ noise n. (n, ok ((0, noise, false) ∷ []));
}

abbrev listens : ℕ → List Piece → Bool
listens id sent = true

abbrev one_sample : ℕ → Result (List ℕ)
one_sample audio = ok (audio ∷ [])

abbrev one_each : Counter
one_each c = 1

abbrev job : Job ℕ
job = record { id = 0; slot = false; segments = (72 ∷ []) ∷ []; voice = 3; class = live; sent = [] }

abbrev events : List (Event ℕ ℕ)
events = submits true job ∷ rounds 9 ∷ submits true (record job { class = background }) ∷ []

abbrev found : Option (Active ℕ ℕ)
found =
    (take_out 0
      (after quiet numbering listens one_sample 100 events (no_queues, idle one_each 0)).1.active).0

abbrev or_new : Option (Active ℕ ℕ) → Active ℕ ℕ
or_new none = new_active quiet numbering listens one_sample 100 job
or_new (some a) = a

abbrev is_some : Option (Active ℕ ℕ) → Bool
is_some none = false
is_some (some a) = true

some-or_new : (o : Option (Active ℕ ℕ)) → is_some o ≡ true → o ≡ some (or_new o)
some-or_new none h = cc
some-or_new (some a) h = refl

found-some : is_some found ≡ true
unfolding after happens idle no_queues submit round intake insert
found-some = refl

found-silent :
    is_false_start quiet numbering listens one_sample 100
      (heard quiet numbering listens one_sample 100 (or_new found) (9 ∷ []))
      true
    ≡ true
unfolding after happens idle no_queues submit round is_false_start heard intake insert
found-silent = refl

given_up-unheard_example :
    (length (or_new found).pending ≡ (or_new found).frames_seen)
    × (at_mark (or_new found).job.sent ≡ true)
given_up-unheard_example =
    given_up-unheard quiet numbering listens one_sample 100 quiet-Ordered one_each 0 events 0
      (or_new found) (9 ∷ []) true (refl, (tt, (refl, tt))) (some-or_new found found-some)
      found-silent

-- The background job stands in the channel.
jobs_started_example :
    let (q, s) = after quiet numbering listens one_sample 100 events (no_queues, idle one_each 0) in
    (s1 : Server ℕ ℕ ℕ) × (readings s1
      ≡ all_asked quiet numbering listens one_sample 100
          (of_class live s.jobs ++ of_class background s.jobs)
          (readings s))
    × (round quiet numbering listens one_sample 100 9 q s ≡ (
      no_queues,
      if is_empty s1.active
          then s1
          else on_step quiet numbering listens one_sample 100 s1 (numbering.step 9 s1.batcher),
    ))
jobs_started_example =
    jobs_started quiet numbering listens one_sample 100 one_each 0 events 9 (refl, (tt, (refl, tt)))
