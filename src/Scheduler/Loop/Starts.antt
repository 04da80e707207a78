-- ===== src/Scheduler/Loop/Starts.antt =====
-- What waits is started in the next round.
use vvaves.Common.{
  ℕ, suc, ◌+◌, ◌≤◌, ◌≡◌, refl, ap, ap₂, sym, ◌∙◌, Bool, true, false, List, [], ◌∷◌, ◌++◌,
  if◌then◌else◌, length, ltb, lt→ltb, is_empty, arith, Bool-cases, inl, inr,
}
use vvaves.Common.Floats.{Floats}
use vvaves.Common.Results.{Result, ok, err}
use vvaves.Speech.Stream.{Piece}
use vvaves.Text.Chars.{Text}
use vvaves.Scheduler.{
  Class, live, background, same, change, sub_one, Job, Active, Queues, Server, take_out, intake,
  Batching,
}
use vvaves.Scheduler.Loop.{
  placed, begun, start, start_all, start_background, start_jobs, count_active, new_active, tally,
  on_step, round,
}
use vvaves.Scheduler.Loop.Slots.{held, held_active, Keeps}
use vvaves.Scheduler.Loop.Rounds.{held_queues, intake-held}
use vvaves.Scheduler.Loop.Unheard.{new_active-IsFine}
use vvaves.Scheduler.Loop.Readings.{
  AllOf, IsNew, dropped-AllActive, Fine, AllFine, placed-AllFine, on_frames-AllFine,
  drop_all-AllFine,
}
use vvaves.Scheduler.Loop.Waiting.{
  AllWaiting, waiting-held, intake-Waiting, of_class, intake-classes, dropped-slots, readings,
  dropped-readings, insert-readings, insert-slots,
}

module _ (f : Floats) (b : Batching) (hears : ℕ → List Piece → Bool)
    (samples_of : b.Audio → Result (List f.F)) (gain : f.F) where
  open f use {F}
  open b use {B, Voice, Audio, Noise}

  counted :
      (c : Class) (xs : List (ℕ × Active Voice F))
      → AllOf (Fine f b hears samples_of gain) xs
      → count_active f b hears samples_of gain c xs ≡ held_active c xs
  unfolding count_active
  counted c [] h = refl
  counted c ((id, a) ∷ rest) (here, h) = elim (Bool-cases (same a.job.class c)) [
    | inl y ↦ rw (here.granted, y) (omega (arith, counted c rest h))
    | inr y ↦ rw (here.granted, y) (omega (arith, counted c rest h))
  ]

  placed-slots :
      (s : Server Voice F B) (a : Active Voice F) (r : B × Result ℕ)
      → (placed f b hears samples_of gain s a r).slots ≡ s.slots
  unfolding placed
  placed-slots s a (b', err) = dropped-slots (record s { batcher = b' }) a.job
  placed-slots s a (b', ok id) = insert-slots (record s { batcher = b' }) id a

  begun-slots :
      (s : Server Voice F B) (job : Job Voice) (texts : List Text)
      → (begun f b hears samples_of gain s job texts).0.slots ≡ s.slots
  unfolding begun
  begun-slots s job [] = dropped-slots s job
  begun-slots s job (text ∷ texts) =
      placed-slots s (new_active f b hears samples_of gain job) (b.add s.batcher text job.voice)

  begun-AllFine :
      (s : Server Voice F B) (job : Job Voice) (texts : List Text)
      → AllFine f b hears samples_of gain s
      → IsNew job
      → AllFine f b hears samples_of gain (begun f b hears samples_of gain s job texts).0
  unfolding begun
  begun-AllFine s job [] h granted = dropped-AllActive (Fine f b hears samples_of gain) s job h
  begun-AllFine s job (text ∷ texts) h granted =
      placed-AllFine f b hears samples_of gain s (new_active f b hears samples_of gain job)
        (b.add s.batcher text job.voice) h
        (new_active-IsFine f b hears samples_of gain job granted.0 granted.1)

  -- What a job asks of the batcher, and the reading that comes of it: its first segment, and a new
  -- reading under the id that the batcher gives, if it gives one.
  abbrev pub Readings : Type 0
  Readings = B × List (ℕ × Active Voice F)

  abbrev entered : Job Voice → List (ℕ × Active Voice F) → B × Result ℕ → Readings
  entered job active (b', ok id) =
      (b', (id, new_active f b hears samples_of gain job) ∷ (take_out id active).1)
  entered job active (b', err) = (b', active)

  abbrev asked : Job Voice → List Text → Readings → Readings
  asked job [] (b0, active) = (b0, active)
  asked job (text ∷ texts) (b0, active) = entered job active (b.add b0 text job.voice)

  abbrev pub all_asked : List (Job Voice) → Readings → Readings
  all_asked [] r = r
  all_asked (job ∷ jobs) r = all_asked jobs (asked job job.segments r)

  all_asked-append :
      (jobs more : List (Job Voice)) (r : Readings)
      → all_asked (jobs ++ more) r ≡ all_asked more (all_asked jobs r)
  all_asked-append [] more r = refl
  all_asked-append (job ∷ jobs) more r = all_asked-append jobs more (asked job job.segments r)

  placed-readings :
      (s : Server Voice F B) (job : Job Voice) (r : B × Result ℕ)
      → readings (placed f b hears samples_of gain s (new_active f b hears samples_of gain job) r)
        ≡ entered job s.active r
  unfolding placed new_active
  placed-readings s job (b', err) = dropped-readings (record s { batcher = b' }) job
  placed-readings s job (b', ok id) =
      insert-readings (record s { batcher = b' }) id (new_active f b hears samples_of gain job)

  begun-readings :
      (s : Server Voice F B) (job : Job Voice) (texts : List Text)
      → readings (begun f b hears samples_of gain s job texts).0 ≡ asked job texts (readings s)
  unfolding begun
  begun-readings s job [] = dropped-readings s job
  begun-readings s job (text ∷ texts) = placed-readings s job (b.add s.batcher text job.voice)

  tally-le : (started : Bool) (n : ℕ) → tally f b hears samples_of gain started n ≤ suc n
  tally-le true n = omega arith
  tally-le false n = omega arith

  -- With a slot free for each job, all are started.
  start_all-drained :
      (c : Class) (jobs : List (Job Voice)) (n : ℕ) (s : Server Voice F B)
      → n + length jobs ≤ s.slots c
      → AllFine f b hears samples_of gain s
      → AllWaiting c jobs
      → let r = start_all f b hears samples_of gain c jobs n s in
        (r.0 ≡ [])
        × (r.2.slots ≡ s.slots)
        × AllFine f b hears samples_of gain r.2
        × (readings r.2 ≡ all_asked jobs (readings s))
  unfolding start_all start
  start_all-drained c [] n s room h waiting = (refl, refl, h, refl)
  start_all-drained c (job ∷ jobs) n s room h ((new, class), waiting) =
      let s1 : Server Voice F B = record s { queued = change c sub_one s.queued } in
      let r = begun f b hears samples_of gain s1 job job.segments in
      let free : ltb n (s.slots c) ≡ true = lt→ltb n (s.slots c) (omega arith) in
      let same_slots : r.0.slots ≡ s.slots = begun-slots s1 job job.segments in
      let room' : tally f b hears samples_of gain r.1 n + length jobs ≤ r.0.slots c =
        omega (arith, tally-le r.1 n, ap (λ t. t c) same_slots) in
      let (e, e', h', asks) =
        start_all-drained c jobs (tally f b hears samples_of gain r.1 n) r.0 room'
          (begun-AllFine s1 job job.segments h new) waiting in
      rw (free, start_all)
        (e, e' ∙ same_slots, h', asks ∙ ap (all_asked jobs) (begun-readings s1 job job.segments))

  start_background-drained :
      (waiting jobs : List (Job Voice)) (n : ℕ) (s : Server Voice F B)
      → waiting ≡ []
      → n + length jobs ≤ s.slots background
      → AllFine f b hears samples_of gain s
      → AllWaiting background jobs
      → let r = start_background f b hears samples_of gain waiting jobs n s in
        (r.0 ≡ [])
        × AllFine f b hears samples_of gain r.2
        × (readings r.2 ≡ all_asked jobs (readings s))
  unfolding start_background
  start_background-drained [] jobs n s e room h waiting =
      let (e1, e2, h', asks) = start_all-drained background jobs n s room h waiting in
      (e1, h', asks)
  start_background-drained (job ∷ more) jobs n s e room h waiting = absurd cc

  start_jobs-drained :
      (q : Queues Voice) (s : Server Voice F B)
      → count_active f b hears samples_of gain live s.active + length q.live_jobs ≤ s.slots live
      → count_active f b hears samples_of gain background s.active + length q.background_jobs
        ≤ s.slots background
      → AllFine f b hears samples_of gain s
      → AllWaiting live q.live_jobs
      → AllWaiting background q.background_jobs
      → let r = start_jobs f b hears samples_of gain q s in
        (r.0.live_jobs ≡ [])
        × (r.0.background_jobs ≡ [])
        × AllFine f b hears samples_of gain r.1
        × (readings r.1 ≡ all_asked (q.live_jobs ++ q.background_jobs) (readings s))
  unfolding start_jobs
  start_jobs-drained q s room_live room_background h lives backgrounds =
      let g : ℕ = count_active f b hears samples_of gain background s.active in
      let n : ℕ = count_active f b hears samples_of gain live s.active in
      let r1 = start_all f b hears samples_of gain live q.live_jobs n s in
      let (e1, slots1, h1, asks1) = start_all-drained live q.live_jobs n s room_live h lives in
      let (e2, h2, asks2) =
        start_background-drained r1.0 q.background_jobs g r1.2 e1
          (omega (arith, room_background, ap (λ t. t background) slots1)) h1 backgrounds in
      (
        e1,
        e2,
        h2,
        asks2
            ∙ ap (all_asked q.background_jobs) asks1
            ∙ sym (all_asked-append q.live_jobs q.background_jobs (readings s)),
      )

  on_step-AllFine :
      (s : Server Voice F B) (r : B × Result (List (ℕ × Audio × Bool)))
      → AllFine f b hears samples_of gain s
      → AllFine f b hears samples_of gain (on_step f b hears samples_of gain s r)
  unfolding on_step
  on_step-AllFine s (b', err) h =
      drop_all-AllFine f b hears samples_of gain s.active (record s { batcher = b' }) h.1
  on_step-AllFine s (b', ok frames) h =
      on_frames-AllFine f b hears samples_of gain frames (record s { batcher = b' }) h

  -- The slots that are free for what waits and what came in.
  room_for :
      (c : Class) (q : Queues Voice) (s : Server Voice F B) (waiting : List (Job Voice))
      → Keeps c s (held_queues c q)
      → held_queues c q ≡ 0
      → AllFine f b hears samples_of gain s
      → held c waiting ≡ length waiting
      → held c waiting ≤ held c s.jobs
      → count_active f b hears samples_of gain c s.active + length waiting ≤ s.slots c
  room_for c q s waiting (e, le) none_left h all_held part =
      omega (arith, e, le, none_left, counted c s.active h.0, all_held, part)

  -- The server that a round starts the jobs of the channel on, live ones first, and steps.
  abbrev pub StartsAll : Noise → Server Voice F B → Server Voice F B → Type 0
  StartsAll noise s t =
      (s1 : Server Voice F B) × (readings s1
        ≡ all_asked (of_class live s.jobs ++ of_class background s.jobs) (readings s))
      × (t ≡ (
          if is_empty s1.active
          then s1
          else on_step f b hears samples_of gain s1 (b.step noise s1.batcher)))

  -- With no job in a queue, a round leaves none there.
  pub round-drained :
      (noise : Noise) (q : Queues Voice) (s : Server Voice F B)
      → q.live_jobs ≡ []
      → q.background_jobs ≡ []
      → Keeps live s (held_queues live q)
      → Keeps background s (held_queues background q)
      → AllFine f b hears samples_of gain s
      → let r = round f b hears samples_of gain noise q s in
        (r.0.live_jobs ≡ [])
        × (r.0.background_jobs ≡ [])
        × AllFine f b hears samples_of gain r.1
        × StartsAll noise s r.1
  unfolding round
  round-drained noise q s el eb keeps_l keeps_b h =
      let q0 : Queues Voice = intake s.jobs q in
      let s0 : Server Voice F B = record s { jobs = [] } in
      let (lives, backgrounds) = intake-Waiting s.jobs q h.1 (rw el tt) (rw eb tt) in
      let l : held_queues live q ≡ 0 = rw (el, eb) refl in
      let g : held_queues background q ≡ 0 = rw (el, eb) refl in
      let room_l =
        room_for live q s q0.live_jobs keeps_l l h (waiting-held live q0.live_jobs lives)
          (omega (arith, intake-held live s.jobs q, l)) in
      let room_b =
        room_for background q s q0.background_jobs keeps_b g h
          (waiting-held background q0.background_jobs backgrounds)
          (omega (arith, intake-held background s.jobs q, g)) in
      let r = start_jobs f b hears samples_of gain q0 s0 in
      let (taken_l, taken_b) = intake-classes s.jobs q in
      let all_l : q0.live_jobs ≡ of_class live s.jobs =
        taken_l ∙ ap (λ x. x ++ of_class live s.jobs) el in
      let all_b : q0.background_jobs ≡ of_class background s.jobs =
        taken_b ∙ ap (λ x. x ++ of_class background s.jobs) eb in
      let (e1, e2, h', asks) = start_jobs-drained q0 s0 room_l room_b (h.0, tt) lives backgrounds in
      let starts : StartsAll noise s (round f b hears samples_of gain noise q s).1 =
        (r.1, asks ∙ ap₂ (λ x y. all_asked (x ++ y) (readings s)) all_l all_b, refl) in
      elim (Bool-cases (is_empty r.1.active)) [
        | inl y ↦ (e1, e2, rw y h', starts)
        | inr y ↦ (e1, e2, rw y (on_step-AllFine r.1 (b.step noise r.1.batcher) h'), starts)
      ]
