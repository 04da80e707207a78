-- ===== src/Scheduler/Loop/Slots.antt =====
-- The slots of a class that are taken are those that jobs hold, wherever the jobs are.
use vvaves.Common.{
  ℕ, zero, suc, ◌+◌, ◌≤◌, ◌≡◌, refl, ap, ◌∙◌, Bool, true, false, ◌&&◌, Option, none, some, List, [],
  ◌∷◌, ltb, ◌==◌, if◌then◌else◌, arith, Bool-cases, inl, inr,
}
use vvaves.Common.Floats.{Floats}
use vvaves.Common.Results.{Result, ok, err}
use vvaves.Speech.Stream.{Piece}
use vvaves.Text.Chars.{Text}
use vvaves.Scheduler.{
  Class, same, change, sub_one, Counter, Job, Active, Server, take_out, dropped, replaced, insert,
  Batching,
}
use vvaves.Scheduler.Loop.{placed, begun, start, start_all, tally, given, new_active}

-- 1 if a job with or without a slot, of a class `k`, holds one of the class `c`.
abbrev pub holding : Bool → Class → Class → ℕ
holding slot k c = if slot && same k c then 1 else 0

sub_one-suc : (m n : ℕ) → m ≡ suc n → (sub_one m ≡ n) × (sub_one m ≤ m)
sub_one-suc zero n e = absurd (omega arith)
sub_one-suc (suc m) n e = (omega arith, omega arith)

given_back :
    (slot : Bool) (k c : Class) (t : Counter) (n : ℕ)
    → t c ≡ holding slot k c + n
    → ((if slot then change k sub_one t else t) c ≡ n)
      × ((if slot then change k sub_one t else t) c ≤ t c)
given_back false k c t n e = (omega arith, omega arith)
given_back true k c t n e = elim (Bool-cases (same k c)) [
  | inl y ↦
      let e' : t c ≡ 1 + n = e ∙ ap (λ x. (if x then 1 else 0) + n) y in
      rw y (sub_one-suc (t c) n (e' ∙ omega arith))
  | inr y ↦
      let e' : t c ≡ 0 + n = e ∙ ap (λ x. (if x then 1 else 0) + n) y in
      rw y (omega (arith, e'), omega arith)
]

module _ {Voice : Type 0} where
  abbrev pub holds : Class → Job Voice → ℕ
  holds c job = holding job.slot job.class c

  abbrev pub held : Class → List (Job Voice) → ℕ
  held c [] = 0
  held c (job ∷ jobs) = holds c job + held c jobs

module _ {Voice F : Type 0} where
  abbrev pub held_active : Class → List (ℕ × Active Voice F) → ℕ
  held_active c [] = 0
  held_active c ((id, a) ∷ rest) = holds c a.job + held_active c rest

  abbrev pub held_opt : Class → Option (Active Voice F) → ℕ
  held_opt c none = 0
  held_opt c (some a) = holds c a.job

  pub take_out-held :
      (c : Class) (id : ℕ) (xs : List (ℕ × Active Voice F))
      → held_active c xs ≡ held_opt c (take_out id xs).0 + held_active c (take_out id xs).1
  take_out-held c id [] = omega arith
  take_out-held c id ((k, a) ∷ rest) = elim (Bool-cases (k == id)) [
    | inl y ↦ rw y refl
    | inr y ↦ rw y (omega (arith, take_out-held c id rest))
  ]

module _ {Voice F B : Type 0} where
  -- As many slots are taken as the channel and the active readings hold, and `n` more; and no more
  -- than there are.
  abbrev pub Keeps : Class → Server Voice F B → ℕ → Type 0
  Keeps c s n = (s.taken c ≡ n + (held c s.jobs + held_active c s.active)) × (s.taken c ≤ s.slots c)

  pub dropped-Keeps :
      (c : Class) (s : Server Voice F B) (job : Job Voice) (n : ℕ)
      → Keeps c s (holds c job + n)
      → Keeps c (dropped s job) n
  unfolding dropped
  dropped-Keeps c s job n (e, le) =
      let m = n + (held c s.jobs + held_active c s.active) in
      let (e', le') = given_back job.slot job.class c s.taken m (e ∙ omega arith) in
      (e', omega (arith, le', le))

  replaced-Keeps :
      (c : Class) (s : Server Voice F B) (old : Option (Active Voice F)) (n : ℕ)
      → Keeps c s (held_opt c old + n)
      → Keeps c (replaced s old) n
  unfolding replaced
  replaced-Keeps c s none n (e, le) = (omega (arith, e), le)
  replaced-Keeps c s (some old) n h = dropped-Keeps c s old.job n h

  pub insert-Keeps :
      (c : Class) (s : Server Voice F B) (id : ℕ) (a : Active Voice F) (n : ℕ)
      → Keeps c s (holds c a.job + n)
      → Keeps c (insert s id a) n
  unfolding insert
  insert-Keeps c s id a n (e, le) =
      let (old, rest) = take_out id s.active in
      replaced-Keeps c (record s { active = (id, a) ∷ rest }) old n
        (omega (arith, e, take_out-held c id s.active), le)

module _ (f : Floats) (b : Batching) (hears : ℕ → List Piece → Bool)
    (samples_of : b.Audio → Result (List f.F)) (gain : f.F) where
  open f use {F}
  open b use {B, Voice, Audio, Noise}

  placed-Keeps :
      (c : Class) (s : Server Voice F B) (a : Active Voice F) (r : B × Result ℕ) (n : ℕ)
      → Keeps c s (holds c a.job + n)
      → Keeps c (placed f b hears samples_of gain s a r) n
  unfolding placed
  placed-Keeps c s a (b', err) n h = dropped-Keeps c (record s { batcher = b' }) a.job n h
  placed-Keeps c s a (b', ok id) n h = insert-Keeps c (record s { batcher = b' }) id a n h

  pub given-Keeps :
      (c : Class) (s : Server Voice F B) (a : Active Voice F) (text : Option Text) (n : ℕ)
      → Keeps c s (holds c a.job + n)
      → Keeps c (given f b hears samples_of gain s a text) n
  unfolding given
  given-Keeps c s a none n h = dropped-Keeps c s a.job n h
  given-Keeps c s a (some text) n h = placed-Keeps c s a (b.add s.batcher text a.job.voice) n h

  begun-Keeps :
      (c : Class) (s : Server Voice F B) (job : Job Voice) (texts : List Text) (n : ℕ)
      → Keeps c s (holds c job + n)
      → Keeps c (begun f b hears samples_of gain s job texts).0 n
  unfolding begun new_active
  begun-Keeps c s job [] n h = dropped-Keeps c s job n h
  begun-Keeps c s job (text ∷ texts) n h =
      placed-Keeps c s (new_active f b hears samples_of gain job) (b.add s.batcher text job.voice) n
        h

  pub start_all-Keeps :
      (c k : Class) (jobs : List (Job Voice)) (active : ℕ) (s : Server Voice F B) (n : ℕ)
      → Keeps c s (held c jobs + n)
      → let r = start_all f b hears samples_of gain k jobs active s in Keeps c r.2 (held c r.0 + n)
  unfolding start_all start
  start_all-Keeps c k [] active s n h = h
  start_all-Keeps c k (job ∷ jobs) active s n (e, le) = elim (Bool-cases (ltb active (s.slots k))) [
    | inr full ↦ rw (full, start_all) (e, le)
    | inl room ↦
        let s1 = record s { queued = change k sub_one s.queued } in
        let r = begun f b hears samples_of gain s1 job job.segments in
        let h1 = begun-Keeps c s1 job job.segments (held c jobs + n) (omega (arith, e), le) in
        rw (room, start_all)
          (start_all-Keeps c k jobs (tally f b hears samples_of gain r.1 active) r.0 n h1)
  ]
