-- ===== src/Scheduler/Loop/Waiting.antt =====
-- Where the jobs that come in wait, and what handling one leaves as it is.
use vvaves.Common.{
  ℕ, ◌≡◌, refl, ap, sym, ◌∙◌, true, Option, none, some, List, [], ◌∷◌, ◌++◌, append-nil,
  append_assoc, if◌then◌else◌, length, All, All-append, arith, Bool-cases, inl, inr,
}
use vvaves.Scheduler.{
  Class, live, background, same, Job, Active, Queues, Server, take_out, dropped, replaced, insert,
  queue_for, intake,
}
use vvaves.Scheduler.Loop.Slots.{holds, held}
use vvaves.Scheduler.Loop.Readings.{IsNew}

same_self : (c : Class) → same c c ≡ true
same_self live = refl
same_self background = refl

module _ {Voice : Type 0} where
  -- Jobs of one class, each with its slot and no frame yet.
  abbrev pub AllWaiting : Class → List (Job Voice) → Type 0
  AllWaiting c jobs = All (λ job. IsNew job × (job.class ≡ c)) jobs

  pub waiting-held :
      (c : Class) (jobs : List (Job Voice)) → AllWaiting c jobs → held c jobs ≡ length jobs
  waiting-held c [] h = refl
  waiting-held c (job ∷ jobs) (((slot, unsent), class), h) =
      let one : holds c job ≡ 1 = rw (slot, class, same_self c) refl in
      omega (arith, one, waiting-held c jobs h)

  pub queue_for-Waiting :
      (c : Class) (job : Job Voice) (q : Queues Voice)
      → IsNew job
      → job.class ≡ c
      → AllWaiting live q.live_jobs
      → AllWaiting background q.background_jobs
      → AllWaiting live (queue_for c job q).live_jobs
        × AllWaiting background (queue_for c job q).background_jobs
  unfolding queue_for
  queue_for-Waiting live job q new class l h =
      (All-append (λ j. IsNew j × (j.class ≡ live)) q.live_jobs (job ∷ []) l ((new, class), tt), h)
  queue_for-Waiting background job q new class l h = (
    l,
    All-append (λ j. IsNew j × (j.class ≡ background)) q.background_jobs (job ∷ []) h
        ((new, class), tt),
  )

  pub intake-Waiting :
      (jobs : List (Job Voice)) (q : Queues Voice)
      → All IsNew jobs
      → AllWaiting live q.live_jobs
      → AllWaiting background q.background_jobs
      → AllWaiting live (intake jobs q).live_jobs
        × AllWaiting background (intake jobs q).background_jobs
  unfolding intake
  intake-Waiting [] q g l h = (l, h)
  intake-Waiting (job ∷ jobs) q (here, g) l h =
      let (l', h') = queue_for-Waiting job.class job q here refl l h in
      intake-Waiting jobs (queue_for job.class job q) g l' h'

  -- The jobs of a class, in order.
  abbrev pub of_class : Class → List (Job Voice) → List (Job Voice)
  of_class c [] = []
  of_class c (job ∷ jobs) = if same job.class c then job ∷ of_class c jobs else of_class c jobs

  pub queue_for-classes :
      (c : Class) (job : Job Voice) (q : Queues Voice)
      → job.class ≡ c
      → ((queue_for c job q).live_jobs ≡ q.live_jobs ++ of_class live (job ∷ []))
        × ((queue_for c job q).background_jobs
            ≡ q.background_jobs ++ of_class background (job ∷ []))
  unfolding queue_for
  queue_for-classes live job q e = rw e (refl, sym (append-nil q.background_jobs))
  queue_for-classes background job q e = rw e (sym (append-nil q.live_jobs), refl)

  pub of_class-cons :
      (c : Class) (job : Job Voice) (jobs : List (Job Voice))
      → of_class c (job ∷ []) ++ of_class c jobs ≡ of_class c (job ∷ jobs)
  of_class-cons c job jobs = elim (Bool-cases (same job.class c)) [
    | inl y ↦ rw y refl
    | inr y ↦ rw y refl
  ]

  pub intake-classes :
      (jobs : List (Job Voice)) (q : Queues Voice)
      → ((intake jobs q).live_jobs ≡ q.live_jobs ++ of_class live jobs)
        × ((intake jobs q).background_jobs ≡ q.background_jobs ++ of_class background jobs)
  unfolding intake
  intake-classes [] q = (sym (append-nil q.live_jobs), sym (append-nil q.background_jobs))
  intake-classes (job ∷ jobs) q =
      let (l, g) = queue_for-classes job.class job q refl in
      let (l', g') = intake-classes jobs (queue_for job.class job q) in
      (
        l'
            ∙ ap (λ x. x ++ of_class live jobs) l
            ∙ append_assoc q.live_jobs (of_class live (job ∷ [])) (of_class live jobs)
            ∙ ap (λ x. q.live_jobs ++ x) (of_class-cons live job jobs),
        g'
            ∙ ap (λ x. x ++ of_class background jobs) g
            ∙ append_assoc q.background_jobs (of_class background (job ∷ []))
                (of_class background jobs)
            ∙ ap (λ x. q.background_jobs ++ x) (of_class-cons background job jobs),
      )

module _ {Voice F B : Type 0} where
  pub dropped-slots : (s : Server Voice F B) (job : Job Voice) → (dropped s job).slots ≡ s.slots
  unfolding dropped
  dropped-slots s job = refl

  pub replaced-slots :
      (s : Server Voice F B) (old : Option (Active Voice F)) → (replaced s old).slots ≡ s.slots
  unfolding replaced
  replaced-slots s none = refl
  replaced-slots s (some old) = dropped-slots s old.job

  abbrev pub readings : Server Voice F B → B × List (ℕ × Active Voice F)
  readings s = (s.batcher, s.active)

  pub dropped-readings :
      (s : Server Voice F B) (job : Job Voice) → readings (dropped s job) ≡ readings s
  unfolding dropped
  dropped-readings s job = refl

  pub replaced-readings :
      (s : Server Voice F B) (old : Option (Active Voice F))
      → readings (replaced s old) ≡ readings s
  unfolding replaced
  replaced-readings s none = refl
  replaced-readings s (some old) = dropped-readings s old.job

  pub insert-readings :
      (s : Server Voice F B) (id : ℕ) (a : Active Voice F)
      → readings (insert s id a)
        ≡ readings (record s { active = (id, a) ∷ (take_out id s.active).1 })
  unfolding insert
  insert-readings s id a =
      let (old, rest) = take_out id s.active in
      replaced-readings (record s { active = (id, a) ∷ rest }) old

  pub insert-slots :
      (s : Server Voice F B) (id : ℕ) (a : Active Voice F) → (insert s id a).slots ≡ s.slots
  unfolding insert
  insert-slots s id a =
      let (old, rest) = take_out id s.active in
      replaced-slots (record s { active = (id, a) ∷ rest }) old
