-- ===== src/Scheduler/Examples.antt =====
-- A server with one slot for each class.
use vvaves.Common.{map, ◌%◌, ◌^◌, ℕ, ◌+◌, ◌≤◌, ◌≡◌, Bool, true, false, List, [], ◌∷◌}
use vvaves.Common.Results.{Result, ok}
use vvaves.Speech.Stream.{Piece}
use vvaves.Encode.Samples.{hundredths}
use vvaves.Scheduler.{Class, live, background, Counter, Job, Batching}
use vvaves.Scheduler.Metrics
use vvaves.Scheduler.Loop.Slots.{held, held_active}
use vvaves.Scheduler.Loop.Rounds.{held_queues}
use vvaves.Scheduler.Loop.Admission.{Event, submits, rounds, after, idle, no_queues, slots_held}

-- A batcher that numbers its streams and makes a frame for the first of them at each step.
abbrev numbering : Batching
numbering = record {
  B = ℕ;
  Voice = ℕ;
  Audio = ℕ;
  Noise = ℕ;
  add = λ n text voice. (n + 1, ok n);
  remove = λ n id. n;
  step = λ noise n. (n, ok ((0, noise, false) ∷ []));
}

abbrev hears : ℕ → List Piece → Bool
hears id sent = true

abbrev one_sample : ℕ → Result (List ℕ)
one_sample audio = ok (audio ∷ [])

abbrev one_each : Counter
one_each c = 1

abbrev reading : Class → Job ℕ
reading c = record {
  id = 0;
  slot = false;
  segments = (72 ∷ []) ∷ [];
  voice = 3;
  class = c;
  sent = [];
}

-- Two live readings, of which one is refused, a round, a background reading and a round.
abbrev events : List (Event ℕ ℕ)
events =
    submits true (reading live)
    ∷ submits true (reading live)
    ∷ rounds 9
    ∷ submits true (reading background)
    ∷ rounds 9
    ∷ []

slots_held_example :
    let (q, s) =
      after hundredths numbering hears one_sample 100 events (no_queues, idle one_each 0) in
    (s.taken live ≡ held_queues live q + (held live s.jobs + held_active live s.active))
    × (s.taken live ≤ s.slots live)
slots_held_example = slots_held hundredths numbering hears one_sample 100 one_each 0 events live

observe_all-new_example :
    ((Metrics.observe_all hundredths (15 ∷ 30 ∷ []) (Metrics.new hundredths (10 ∷ 20 ∷ []))).counts
      ≡ map (λ b. Metrics.at_most hundredths b (15 ∷ 30 ∷ []) % 2 ^ 64) (10 ∷ 20 ∷ []))
    × ((Metrics.observe_all hundredths (15 ∷ 30 ∷ []) (Metrics.new hundredths (10 ∷ 20 ∷ []))).total
        ≡ 2 % 2 ^ 64)
observe_all-new_example = Metrics.observe_all-new hundredths (10 ∷ 20 ∷ []) (15 ∷ 30 ∷ [])
