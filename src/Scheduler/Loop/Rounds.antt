-- ===== src/Scheduler/Loop/Rounds.antt =====
-- A round of the loop keeps the count of the slots.
use vvaves.Common.{
  ℕ, ◌+◌, ◌≡◌, Bool, Option, none, some, List, [], ◌∷◌, ◌++◌, arith, Bool-cases, inl, inr, is_empty,
}
use vvaves.Common.Floats.{Floats}
use vvaves.Common.Results.{Result, ok, err}
use vvaves.Speech.Stream.{Piece}
use vvaves.Scheduler.{
  Class, live, background, Job, Active, Queues, Server, take_out, dropped, queue_for, intake,
  Batching,
}
use vvaves.Scheduler.Loop.{
  start_all, start_background, start_jobs, count_active, on_found, on_frame, on_frames, drop_all,
  on_step, round,
}
use vvaves.Scheduler.Loop.Slots.{
  holds, held, Keeps, dropped-Keeps, start_all-Keeps, held_opt, take_out-held,
}
use vvaves.Scheduler.Loop.Held.{on_samples-Keeps}

module _ {Voice : Type 0} where
  pub held-append :
      (c : Class) (xs ys : List (Job Voice)) → held c (xs ++ ys) ≡ held c xs + held c ys
  held-append c [] ys = omega arith
  held-append c (x ∷ xs) ys = omega (arith, held-append c xs ys)

  abbrev pub held_queues : Class → Queues Voice → ℕ
  held_queues c q = held c q.live_jobs + held c q.background_jobs

  queue_for-held :
      (c k : Class) (job : Job Voice) (q : Queues Voice)
      → held_queues c (queue_for k job q) ≡ holds c job + held_queues c q
  unfolding queue_for
  queue_for-held c live job q = omega (arith, held-append c q.live_jobs (job ∷ []))
  queue_for-held c background job q = omega (arith, held-append c q.background_jobs (job ∷ []))

  pub intake-held :
      (c : Class) (jobs : List (Job Voice)) (q : Queues Voice)
      → held_queues c (intake jobs q) ≡ held c jobs + held_queues c q
  unfolding intake
  intake-held c [] q = omega arith
  intake-held c (job ∷ jobs) q =
      omega
        (arith, intake-held c jobs (queue_for job.class job q), queue_for-held c job.class job q)

module _ (f : Floats) (b : Batching) (hears : ℕ → List Piece → Bool)
    (samples_of : b.Audio → Result (List f.F)) (gain : f.F) where
  open f use {F}
  open b use {B, Voice, Audio, Noise}

  on_found-Keeps :
      (c : Class) (s : Server Voice F B) (fr : ℕ × Audio × Bool) (found : Option (Active Voice F))
      (n : ℕ)
      → Keeps c s (held_opt c found + n)
      → Keeps c (on_found f b hears samples_of gain s fr found) n
  unfolding on_found
  on_found-Keeps c s (id, audio, done) none n (e, le) = (omega (arith, e), le)
  on_found-Keeps c s (id, audio, done) (some a) n h =
      on_samples-Keeps f b hears samples_of gain c s id a done (samples_of audio) n h

  on_frame-Keeps :
      (c : Class) (s : Server Voice F B) (fr : ℕ × Audio × Bool) (n : ℕ)
      → Keeps c s n
      → Keeps c (on_frame f b hears samples_of gain s fr) n
  unfolding on_frame
  on_frame-Keeps c s (id, audio, done) n (e, le) =
      let (found, rest) = take_out id s.active in
      on_found-Keeps c (record s { active = rest }) (id, audio, done) found n
        (omega (arith, e, take_out-held c id s.active), le)

  on_frames-Keeps :
      (c : Class) (frs : List (ℕ × Audio × Bool)) (s : Server Voice F B) (n : ℕ)
      → Keeps c s n
      → Keeps c (on_frames f b hears samples_of gain frs s) n
  unfolding on_frames
  on_frames-Keeps c [] s n h = h
  on_frames-Keeps c (fr ∷ frs) s n h =
      on_frames-Keeps c frs (on_frame f b hears samples_of gain s fr) n (on_frame-Keeps c s fr n h)

  drop_all-Keeps :
      (c : Class) (xs : List (ℕ × Active Voice F)) (s : Server Voice F B) (n : ℕ)
      → Keeps c (record s { active = xs }) n
      → Keeps c (drop_all f b hears samples_of gain xs s) n
  unfolding drop_all dropped
  drop_all-Keeps c [] s n h = h
  drop_all-Keeps c ((id, a) ∷ rest) s n (e, le) =
      drop_all-Keeps c rest (dropped (record s { active = rest }) a.job) n
        (dropped-Keeps c (record s { active = rest }) a.job n (omega (arith, e), le))

  on_step-Keeps :
      (c : Class) (s : Server Voice F B) (r : B × Result (List (ℕ × Audio × Bool))) (n : ℕ)
      → Keeps c s n
      → Keeps c (on_step f b hears samples_of gain s r) n
  unfolding on_step
  on_step-Keeps c s (b', err) n h = drop_all-Keeps c s.active (record s { batcher = b' }) n h
  on_step-Keeps c s (b', ok frames) n h = on_frames-Keeps c frames (record s { batcher = b' }) n h

  start_background-Keeps :
      (c : Class) (waiting jobs : List (Job Voice)) (active : ℕ) (s : Server Voice F B) (n : ℕ)
      → Keeps c s (held c jobs + n)
      → let r = start_background f b hears samples_of gain waiting jobs active s in
        Keeps c r.2 (held c r.0 + n)
  unfolding start_background
  start_background-Keeps c [] jobs active s n h =
      start_all-Keeps f b hears samples_of gain c background jobs active s n h
  start_background-Keeps c (w ∷ waiting) jobs active s n h = h

  start_jobs-Keeps :
      (c : Class) (q : Queues Voice) (s : Server Voice F B)
      → Keeps c s (held_queues c q)
      → let r = start_jobs f b hears samples_of gain q s in Keeps c r.1 (held_queues c r.0)
  unfolding start_jobs
  start_jobs-Keeps c q s h =
      let g = count_active f b hears samples_of gain background s.active in
      let l = count_active f b hears samples_of gain live s.active in
      let r1 = start_all f b hears samples_of gain live q.live_jobs l s in
      let (e1, le1) =
        start_all-Keeps f b hears samples_of gain c live q.live_jobs l s (held c q.background_jobs)
          h in
      let (e2, le2) =
        start_background-Keeps c r1.0 q.background_jobs g r1.2 (held c r1.0)
          (omega (arith, e1), le1) in
      (omega (arith, e2), le2)

  pub round-Keeps :
      (c : Class) (noise : Noise) (q : Queues Voice) (s : Server Voice F B)
      → Keeps c s (held_queues c q)
      → let r = round f b hears samples_of gain noise q s in Keeps c r.1 (held_queues c r.0)
  unfolding round
  round-Keeps c noise q s (e, le) =
      let s0 : Server Voice F B = record s { jobs = [] } in
      let r = start_jobs f b hears samples_of gain (intake s.jobs q) s0 in
      let h =
        start_jobs-Keeps c (intake s.jobs q) s0 (omega (arith, e, intake-held c s.jobs q), le) in
      elim (Bool-cases (is_empty r.1.active)) [
        | inl y ↦ rw y h
        | inr y ↦ rw y (on_step-Keeps c r.1 (b.step noise r.1.batcher) (held_queues c r.0) h)
      ]
