-- ===== src/Scheduler/Loop.antt =====
-- `start`, the handling of a frame and one round of the loop of `run` in engine.rs.

pub mod Slots
pub mod Held
pub mod Rounds
pub mod Admission
pub mod Unheard
pub mod Readings
pub mod Waiting
pub mod Starts
pub mod Progress
mod Examples
use vvaves.Common.{
  ℕ, zero, suc, ◌+◌, max, Bool, true, false, not, ◌&&◌, ◌||◌, Option, none, some, List, [], ◌∷◌,
  ◌++◌, map, length, get_elem?, ltb, leb, if◌then◌else◌, is_empty,
}
use vvaves.Common.Floats.{Floats}
use vvaves.Common.Results.{Result, ok, err}
use vvaves.Encode.Format.{to_samples}
use vvaves.Speech.Stream.{Piece, frame, segment_end}
use vvaves.Text.Chars.{Text}
use vvaves.Scheduler.{
  Class, live, background, same, change, sub_one, Job, Active, Queues, Server, take_out, dropped,
  insert, intake, Batching,
}

abbrev pub false_start_frames : ℕ
false_start_frames = 15

abbrev pub max_attempts : ℕ
max_attempts = 4

-- `hears` says whether a send of the job of an id still finds a listener, given what was sent
-- before. `samples_of` reads the samples of a frame's audio.
module _ (f : Floats) (b : Batching) (hears : ℕ → List Piece → Bool)
    (samples_of : b.Audio → Result (List f.F)) (gain : f.F) where
  open f use {
    F, add, mul, div, fmax, sqrt, log10, less, at_least, of_usize, sum_zero, lit, neg_lit,
    neg_infinity,
  }
  open b use {B, Voice, Audio, Noise}

  -- FALSE_START_DB
  abbrev pub false_start_db : F
  false_start_db = neg_lit 30 0

  squares : List F → F → F
  squares [] acc = acc
  squares (s ∷ ss) acc = squares ss (add acc (mul s s))

  unfoldable pub rms_db : List F → F
  unfolding squares
  rms_db samples =
      let rms = sqrt (div (squares samples sum_zero) (of_usize (max (length samples) 1))) in
      mul (lit 20 0) (log10 (add rms (lit 1 9)))

  -- `Active::new`
  pub new_active : Job Voice → Active Voice F
  new_active job = record {
    job = job;
    segment = 0;
    attempt = 1;
    frames_seen = 0;
    samples_sent = 0;
    false_starts = 0;
    peak_db = neg_infinity;
    pending = [];
  }

  -- `reset_segment`
  pub reset_segment : Active Voice F → Active Voice F
  reset_segment a = record a { frames_seen = 0; peak_db = neg_infinity; pending = [] }

  -- A segment given to the batcher for a reading: the reading goes into the map, or it is dropped.
  pub placed : Server Voice F B → Active Voice F → B × Result ℕ → Server Voice F B
  placed s a (b', err) = dropped (record s { batcher = b' }) a.job
  placed s a (b', ok id) = insert (record s { batcher = b' }) id a

  abbrev was_placed : B × Result ℕ → Bool
  was_placed (b', ok id) = true
  was_placed (b', err) = false

  pub begun : Server Voice F B → Job Voice → List Text → Server Voice F B × Bool
  unfolding placed new_active
  begun s job [] = (dropped s job, false)
  begun s job (text ∷ _) =
      let r = b.add s.batcher text job.voice in (placed s (new_active job) r, was_placed r)

  pub start : Server Voice F B → Job Voice → Server Voice F B × Bool
  unfolding begun
  start s job = begun s job job.segments

  abbrev tally : Bool → ℕ → ℕ
  tally true n = suc n
  tally false n = n

  -- The loop that starts the jobs of a class, with the number that are active. It gives back that
  -- number and the jobs that still wait.
  pub start_all :
      Class → List (Job Voice) → ℕ → Server Voice F B → List (Job Voice) × ℕ × Server Voice F B
  unfolding start
  start_all c [] n s = ([], n, s)
  start_all c (job ∷ jobs) n s = elim (ltb n (s.slots c)) [
    | true ↦
        let (s', started) = start (record s { queued = change c sub_one s.queued }) job in
        start_all c jobs (tally started n) s'
    | false ↦ (job ∷ jobs, n, s)
  ]

  -- How many of the active readings are of a class.
  pub count_active : Class → List (ℕ × Active Voice F) → ℕ
  count_active c [] = 0
  count_active c ((id, a) ∷ rest) =
      if same a.job.class c then suc (count_active c rest) else count_active c rest

  abbrev both : ℕ → ℕ → Class → ℕ
  both l g live = l
  both l g background = g

  -- The loop for the background jobs, which is entered if no live job waits.
  pub start_background :
      List (Job Voice)
      → List (Job Voice)
      → ℕ
      → Server Voice F B
      → List (Job Voice) × ℕ × Server Voice F B
  unfolding start_all
  start_background [] jobs n s = start_all background jobs n s
  start_background (job ∷ waiting) jobs n s = (jobs, n, s)

  -- Live jobs first, then background jobs.
  pub start_jobs : Queues Voice → Server Voice F B → Queues Voice × Server Voice F B
  unfolding start_background count_active
  start_jobs q s =
      let g = count_active background s.active in
      let (waiting, l, s1) = start_all live q.live_jobs (count_active live s.active) s in
      let (left, g', s2) = start_background waiting q.background_jobs g s1 in
      (record { live_jobs = waiting; background_jobs = left }, record s2 { active_now = both l g' })

  -- The chunks sent one after the other, until one finds no listener; whether all were taken.
  pub deliver : Active Voice F → List (List ℕ) → Active Voice F × Bool
  deliver a [] = (a, true)
  deliver a (chunk ∷ chunks) = elim (hears a.job.id a.job.sent) [
    | true ↦
        deliver
          (record a {
            job = record a.job { sent = a.job.sent ++ (frame chunk ∷ []) };
            samples_sent = a.samples_sent + length chunk;
          })
          chunks
    | false ↦ (a, false)
  ]

  -- The current segment given to the batcher. Rust panics at an index past the end.
  pub given : Server Voice F B → Active Voice F → Option Text → Server Voice F B
  unfolding placed
  given s a none = dropped s a.job
  given s a (some text) = placed s a (b.add s.batcher text a.job.voice)

  pub restart : Server Voice F B → Active Voice F → Server Voice F B
  unfolding given
  restart s a = given s a (get_elem? a.job.segments a.segment)

  -- `batcher.remove`, unless the frame was the stream's last.
  pub removed : Server Voice F B → ℕ → Bool → Server Voice F B
  removed s id true = s
  removed s id false = record s { batcher = b.remove s.batcher id }

  pub heard : Active Voice F → List F → Active Voice F
  unfolding rms_db
  heard a samples = record a {
    frames_seen = a.frames_seen + 1;
    peak_db = fmax a.peak_db (rms_db samples);
  }

  -- A silent start or a silent end, with an attempt left.
  pub is_false_start : Active Voice F → Bool → Bool
  is_false_start a done =
      let silent = less a.peak_db false_start_db in
      ((leb false_start_frames a.frames_seen && silent) || (done && silent))
      && ltb a.attempt max_attempts

  pub read_again : Active Voice F → Active Voice F
  unfolding reset_segment
  read_again a =
      reset_segment (record a { false_starts = a.false_starts + 1; attempt = a.attempt + 1 })

  -- The next segment, if there is one, or the end of the reading.
  pub next_segment : Server Voice F B → Active Voice F → Server Voice F B
  unfolding restart reset_segment
  next_segment s a =
      if ltb a.segment (length a.job.segments)
      then restart s (reset_segment (record a { attempt = 1 }))
      else dropped s a.job

  -- After the last frame of a segment: its mark, and what comes next.
  pub segment_over : Server Voice F B → Active Voice F → Server Voice F B
  unfolding next_segment
  segment_over s a =
      if hears a.job.id a.job.sent
      then next_segment s (record a {
        job = record a.job { sent = a.job.sent ++ (segment_end ∷ []) };
        segment = a.segment + 1;
      })
      else dropped s a.job

  pub after_frame : Server Voice F B → ℕ → Active Voice F → Bool → Server Voice F B
  unfolding segment_over
  after_frame s id a done = if done then segment_over s a else insert s id a

  pub after_delivery : Server Voice F B → ℕ → Bool → Active Voice F × Bool → Server Voice F B
  unfolding after_frame removed
  after_delivery s id done (a, true) = after_frame s id (record a { pending = [] }) done
  after_delivery s id done (a, false) = dropped (removed s id done) a.job

  -- A frame that is no false start waits, or goes out with those that wait.
  pub spoken : Server Voice F B → ℕ → Active Voice F → List F → Bool → Server Voice F B
  unfolding after_delivery deliver
  spoken s id a samples done =
      let pending = a.pending ++ (to_samples f samples gain ∷ []) in
      let a' = record a { pending = pending } in
      if at_least a.peak_db false_start_db || leb false_start_frames a.frames_seen || done
      then after_delivery s id done (deliver a' pending)
      else after_frame s id a' done

  pub judged : Server Voice F B → ℕ → Active Voice F → List F → Bool → Server Voice F B
  unfolding is_false_start read_again restart spoken removed
  judged s id a samples done =
      if is_false_start a done
      then restart (removed s id done) (read_again a)
      else spoken s id a samples done

  pub on_samples : Server Voice F B → ℕ → Active Voice F → Bool → Result (List F) → Server Voice F B
  unfolding judged heard
  on_samples s id a done err = dropped s a.job
  on_samples s id a done (ok samples) = judged s id (heard a samples) samples done

  pub on_found : Server Voice F B → ℕ × Audio × Bool → Option (Active Voice F) → Server Voice F B
  unfolding on_samples
  on_found s (id, audio, done) none = s
  on_found s (id, audio, done) (some a) = on_samples s id a done (samples_of audio)

  -- The body of the loop over the frames.
  pub on_frame : Server Voice F B → ℕ × Audio × Bool → Server Voice F B
  unfolding on_found
  on_frame s (id, audio, done) =
      let (found, rest) = take_out id s.active in
      on_found (record s { active = rest }) (id, audio, done) found

  pub on_frames : List (ℕ × Audio × Bool) → Server Voice F B → Server Voice F B
  unfolding on_frame
  on_frames [] s = s
  on_frames (fr ∷ frs) s = on_frames frs (on_frame s fr)

  -- `active.clear()`
  pub drop_all : List (ℕ × Active Voice F) → Server Voice F B → Server Voice F B
  drop_all [] s = record s { active = [] }
  drop_all ((id, a) ∷ rest) s = drop_all rest (dropped (record s { active = rest }) a.job)

  pub on_step : Server Voice F B → B × Result (List (ℕ × Audio × Bool)) → Server Voice F B
  unfolding drop_all on_frames count_active
  on_step s (b', err) = drop_all s.active (record s { batcher = b' })
  on_step s (b', ok frames) =
      let s' = on_frames frames (record s { batcher = b' }) in
      record s' {
        active_now = both (count_active live s'.active) (count_active background s'.active);
      }

  -- A round of the loop of `run`. With no reading active and nothing in the channel the thread waits
  -- instead; it returns once every handle is gone.
  pub round : Noise → Queues Voice → Server Voice F B → Queues Voice × Server Voice F B
  unfolding start_jobs on_step
  round noise q s =
      let (q1, s1) = start_jobs (intake s.jobs q) (record s { jobs = [] }) in
      (q1, if is_empty s1.active then s1 else on_step s1 (b.step noise s1.batcher))
