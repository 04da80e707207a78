-- ===== src/Scheduler.antt =====
-- apps/tts/crates/server/src/engine.rs: the scheduler. Times, which only the logs and histograms
-- read, are left out.
pub mod Loop
pub mod Metrics
mod Examples
use vvaves.Common.{
  ℕ, zero, suc, ◌+◌, ◌-◌, ◌^◌, ◌%◌, max, Bool, true, false, not, ◌&&◌, ◌||◌, Option, none, some,
  List, [], ◌∷◌, ◌++◌, map, length, get_elem?, ltb, leb, ◌==◌, if◌then◌else◌, is_empty,
}
use vvaves.Common.Results.{Result, ok, err}
use vvaves.Text.Chars.{Text}
use vvaves.Speech.Stream.{Piece}

pub data Class : Type 0 where
  live background : Class

abbrev pub same : Class → Class → Bool
same live live = true
same live background = false
same background live = false
same background background = true

-- A counter for each class: the field for `live` and the one for `background`.
abbrev pub Counter : Type 0
Counter = Class → ℕ

abbrev pub change : Class → (ℕ → ℕ) → Counter → Counter
change c f n k = if same c k then f (n k) else n k

-- `fetch_add(1)` and `fetch_sub(1)`, which wrap around.
abbrev pub add_one : ℕ → ℕ
add_one n = (n + 1) % 2 ^ 64

abbrev pub sub_one : ℕ → ℕ
sub_one zero = 2 ^ 64 - 1
sub_one (suc n) = n

pub record Job (Voice : Type 0) : Type 0 where
  pub id : ℕ
  -- whether admission has granted a slot
  pub slot : Bool
  pub segments : List Text
  pub voice : Voice
  pub class : Class
  -- what was sent to `frames`
  pub sent : List Piece

pub record Active (Voice F : Type 0) : Type 0 where
  pub job : Job Voice
  pub segment : ℕ
  pub attempt : ℕ
  pub frames_seen : ℕ
  pub samples_sent : ℕ
  pub false_starts : ℕ
  pub peak_db : F
  pub pending : List (List ℕ)

-- The queues, two locals of `run`.
pub record Queues (Voice : Type 0) : Type 0 where
  pub live_jobs : List (Job Voice)
  pub background_jobs : List (Job Voice)

-- What the handles and the thread of `run` share and keep.
pub record Server (Voice F B : Type 0) : Type 0 where
  pub next_id : ℕ
  pub taken : Counter
  pub slots : Counter
  -- of the metrics
  pub queued : Counter
  pub active_now : Counter
  pub admitted : ℕ
  pub rejected : ℕ
  -- the channel from the handles to the thread
  pub jobs : List (Job Voice)
  pub active : List (ℕ × Active Voice F)
  pub batcher : B
  -- the jobs that were dropped, which closes their channels
  pub gone : List (Job Voice)

-- `HashMap::remove`
abbrev pub take_out {ℓ} : {A : Type ℓ} → ℕ → List (ℕ × A) → Option A × List (ℕ × A)
take_out id [] = (none, [])
take_out id ((k, a) ∷ rest) =
    let (found, others) = take_out id rest in
    if k == id then (some a, rest) else (found, (k, a) ∷ others)

module _ {Voice F B : Type 0} where
  -- A job dropped gives its slot back.
  pub dropped : Server Voice F B → Job Voice → Server Voice F B
  dropped s job = record s {
    taken = if job.slot then change job.class sub_one s.taken else s.taken;
    gone = job ∷ s.gone;
  }

  pub replaced : Server Voice F B → Option (Active Voice F) → Server Voice F B
  unfolding dropped
  replaced s none = s
  replaced s (some old) = dropped s old.job

  -- `active.insert`, which drops what the map had under the id.
  pub insert : Server Voice F B → ℕ → Active Voice F → Server Voice F B
  unfolding replaced
  insert s id a =
      let (old, rest) = take_out id s.active in replaced (record s { active = (id, a) ∷ rest }) old

  -- What `submit` does once a slot is taken, and whether the job was sent. `receiving` says whether
  -- the thread still receives; if it does not, the job comes back and its caller drops it.
  pub admit : Bool → Server Voice F B → Job Voice → Server Voice F B × Bool
  unfolding dropped
  admit true s job = (
    record s {
      taken = change job.class (λ n. n + 1) s.taken;
      queued = change job.class add_one s.queued;
      admitted = add_one s.admitted;
      jobs = s.jobs ++ (record job { slot = true } ∷ []);
    },
    true,
  )
  admit false s job = (
    dropped
        (record s {
          taken = change job.class (λ n. n + 1) s.taken;
          queued = change job.class sub_one (change job.class add_one s.queued);
          admitted = add_one s.admitted;
        })
        (record job { slot = true }),
    false,
  )

  -- `EngineHandle::submit`, and whether the job was taken.
  pub submit : Bool → Server Voice F B → Job Voice → Server Voice F B × Bool
  unfolding admit
  submit receiving s job =
      let s1 = record s { next_id = add_one s.next_id } in
      if ltb (s.taken job.class) (s.slots job.class)
      then admit receiving s1 (record job { id = s.next_id })
      else (record s1 { rejected = add_one s.rejected }, false)

module _ {Voice : Type 0} where
  -- A job that came in, to the queue of its class.
  pub queue_for : Class → Job Voice → Queues Voice → Queues Voice
  queue_for live job q = record q { live_jobs = q.live_jobs ++ (job ∷ []) }
  queue_for background job q = record q { background_jobs = q.background_jobs ++ (job ∷ []) }

  -- All that the channel holds.
  pub intake : List (Job Voice) → Queues Voice → Queues Voice
  unfolding queue_for
  intake [] q = q
  intake (job ∷ jobs) q = intake jobs (queue_for job.class job q)

-- What the scheduler asks of a batcher.
pub record Batching : Type 1 where
  pub B : Type 0
  pub Voice : Type 0
  pub Audio : Type 0
  pub Noise : Type 0
  pub add : B → Text → Voice → B × Result ℕ
  pub remove : B → ℕ → B
  -- the frames: a stream's id, its audio, and whether it is its last
  pub step : Noise → B → B × Result (List (ℕ × Audio × Bool))
