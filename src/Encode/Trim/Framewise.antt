-- ===== src/Encode/Trim/Framewise.antt =====
-- `LeadTrimmer` fed in frames of any size gives what the whole reading gives at once.
use mathlib.Core.Option
use native.Mathlib.Nat.{div-mul-le_self, zero-div}
use vvaves.Common.{
  ℕ, ◌+◌, ◌-◌, ◌*◌, ◌/◌, ◌≤◌, ◌<◌, ◌≡◌, refl, sym, ap, ap₂, ◌∙◌, subst, inl, inr, Bool, false, true,
  Option, none, some, List, [], ◌∷◌, ◌++◌, append_assoc, append-nil, length, drop, concat,
  drop-append, Option-cases, arith,
}
use vvaves.Common.Pieces.{
  chunks_exact, position, pieces, length-pieces, position-append, position-append_hit, position-lt,
  chunks_exact-append,
}
use vvaves.Common.Floats.{Floats}
use vvaves.Encode.Trim.{LeadTrimmer, is_loud, loud_start, scan, push, finish, new}
use vvaves.Encode.Trim.{trim_leading_silence}

-- What a trimmer does to a whole reading: nothing if no hop is loud, else all before the first
-- loud hop but `keep` samples is cut.
abbrev pub trimmed : ℕ → ℕ → (List ℕ → Bool) → List ℕ → List ℕ
trimmed hop keep loud xs = elim (position loud (chunks_exact hop xs)) [
  | none ↦ xs
  | some i ↦ drop (i * hop - keep) xs
]

trimmed-none :
    (hop keep : ℕ) (loud : List ℕ → Bool) (xs : List ℕ)
    → position loud (chunks_exact hop xs) ≡ none
    → trimmed hop keep loud xs ≡ xs
trimmed-none hop keep loud xs e = rw (e, trimmed) refl

trimmed-some :
    (hop keep : ℕ) (loud : List ℕ → Bool) (xs : List ℕ) {i : ℕ}
    → position loud (chunks_exact hop xs) ≡ some i
    → trimmed hop keep loud xs ≡ drop (i * hop - keep) xs
trimmed-some hop keep loud xs e = rw (e, trimmed) refl

-- A loud hop lies within the samples.
hop_within :
    (hop : ℕ) (loud : List ℕ → Bool) (xs : List ℕ) (i : ℕ)
    → position loud (chunks_exact hop xs) ≡ some i
    → i * hop ≤ length xs
unfolding chunks_exact
hop_within hop loud xs i e =
    let below : i < length xs / hop =
      subst (λ n. i < n) (length-pieces (length xs / hop) hop xs) (position-lt loud _ i e) in
    let whole : length xs / hop * hop ≤ length xs = div-mul-le_self (length xs) hop in grind arith

position-nil : (h : ℕ) (loud : List ℕ → Bool) → position loud (chunks_exact h []) ≡ none
unfolding position chunks_exact pieces
position-nil h loud = rw (zero-div h) refl

map_shift :
    (j h : ℕ) (o : Option ℕ)
    → Option.map (λ i. j * h + i * h) o ≡ Option.map (λ i. i * h) (Option.map (λ i. j + i) o)
map_shift j h none = refl
map_shift j h (some i) = ap some (grind arith)

-- Where no whole hop of `xs` is loud, the search may start after them.
resume :
    (h : ℕ) (loud : List ℕ → Bool) (xs ys : List ℕ)
    → 0 < h
    → position loud (chunks_exact h xs) ≡ none
    → let j = length xs / h in
      Option.map (λ i. j * h + i * h) (position loud (chunks_exact h (drop (j * h) (xs ++ ys))))
      ≡ Option.map (λ i. i * h) (position loud (chunks_exact h (xs ++ ys)))
unfolding chunks_exact
resume h loud xs ys pos quiet =
    let j = length xs / h in
    let later = chunks_exact h (drop (j * h) (xs ++ ys)) in
    let whole : position loud (chunks_exact h (xs ++ ys))
        ≡ Option.map (λ i. j + i) (position loud later) =
      ap (position loud) (chunks_exact-append h xs ys pos)
      ∙ position-append loud (chunks_exact h xs) later quiet
      ∙ ap (λ n. Option.map (λ i. n + i) (position loud later)) (length-pieces j h xs) in
    map_shift j h (position loud later) ∙ sym (ap (Option.map (λ i. i * h)) whole)

module _ (f : Floats) where
  open f use {F}

  -- All the frames pushed, one after the other.
  abbrev pub feed : LeadTrimmer F → List (List ℕ) → List ℕ × LeadTrimmer F
  feed t [] = ([], t)
  feed t (pcm ∷ rest) =
      let (out, t') = push f t pcm in let (outs, t'') = feed t' rest in (out ++ outs, t'')

  -- A trimmer that holds `xs` back: no hop of them is loud, and all whole hops were scanned.
  record Waiting (t : LeadTrimmer F) (xs : List ℕ) : Type 0 where
    hop_pos : 0 < t.hop
    quiet : position (is_loud f t.threshold) (chunks_exact t.hop xs) ≡ none
    holds : t.held ≡ xs
    at : t.scanned ≡ length xs / t.hop * t.hop
    not_passing : t.passing ≡ false

  -- The unscanned part is found loud exactly where the whole is.
  found :
      (t : LeadTrimmer F) (xs pcm : List ℕ)
      → Waiting t xs
      → loud_start f (record t { held = t.held ++ pcm })
        ≡ Option.map
            (λ i. i * t.hop)
            (position (is_loud f t.threshold) (chunks_exact t.hop (xs ++ pcm)))
  unfolding loud_start
  found t xs pcm w =
      let h = t.hop in
      let loud = is_loud f t.threshold in
      ap₂ (λ s l. Option.map (λ i. s + i * h) (position loud (chunks_exact h (drop s (l ++ pcm)))))
        w.at w.holds
      ∙ resume h loud xs pcm w.hop_pos w.quiet

  push_quiet :
      (t : LeadTrimmer F) (xs pcm : List ℕ)
      → Waiting t xs
      → position (is_loud f t.threshold) (chunks_exact t.hop (xs ++ pcm)) ≡ none
      → push f t pcm
        ≡ ([], record t { held = t.held ++ pcm; scanned = length (t.held ++ pcm) / t.hop * t.hop })
  unfolding push scan
  push_quiet t xs pcm w e =
      let nowhere : loud_start f (record t { held = t.held ++ pcm }) ≡ none =
        found t xs pcm w ∙ ap (Option.map (λ i. i * t.hop)) e in
      rw (w.not_passing) (rw (nowhere, scan) refl)

  push_loud :
      (t : LeadTrimmer F) (xs pcm : List ℕ) (i : ℕ)
      → Waiting t xs
      → position (is_loud f t.threshold) (chunks_exact t.hop (xs ++ pcm)) ≡ some i
      → push f t pcm
        ≡ (drop (i * t.hop - t.keep) (t.held ++ pcm), record t { held = []; passing = true })
  unfolding push scan
  push_loud t xs pcm i w e =
      let here : loud_start f (record t { held = t.held ++ pcm }) ≡ some (i * t.hop) =
        found t xs pcm w ∙ ap (Option.map (λ i. i * t.hop)) e in
      rw (w.not_passing) (rw (here, scan) refl)

  -- A trimmer that has passed the silence changes nothing.
  feed_passing :
      (t : LeadTrimmer F) (frames : List (List ℕ))
      → t.passing ≡ true
      → (feed t frames).0 ++ finish f (feed t frames).1 ≡ concat frames ++ t.held
  unfolding finish
  feed_passing t [] e = refl
  feed_passing t (pcm ∷ rest) e =
      let through : push f t pcm ≡ (pcm, t) = unfold push in rw e refl in
      rw through (
        append_assoc pcm _ _
        ∙ ap (λ l. pcm ++ l) (feed_passing t rest e)
        ∙ sym (append_assoc pcm _ _))

  abbrev held_back : LeadTrimmer F → List ℕ → LeadTrimmer F
  held_back t pcm = record t {
    held = t.held ++ pcm;
    scanned = length (t.held ++ pcm) / t.hop * t.hop;
  }

  held_back-Waiting :
      (t : LeadTrimmer F) (xs pcm : List ℕ)
      → Waiting t xs
      → position (is_loud f t.threshold) (chunks_exact t.hop (xs ++ pcm)) ≡ none
      → Waiting (held_back t pcm) (xs ++ pcm)
  held_back-Waiting t xs pcm w e = record {
    hop_pos = w.hop_pos;
    quiet = e;
    holds = ap (λ l. l ++ pcm) w.holds;
    at = ap (λ l. length (l ++ pcm) / t.hop * t.hop) w.holds;
    not_passing = w.not_passing;
  }

  -- The hop that was found loud is where the whole reading has its first.
  loud_whole :
      (t : LeadTrimmer F) (xs pcm later : List ℕ) (i : ℕ)
      → Waiting t xs
      → position (is_loud f t.threshold) (chunks_exact t.hop (xs ++ pcm)) ≡ some i
      → drop (i * t.hop - t.keep) (t.held ++ pcm) ++ later
        ≡ trimmed t.hop t.keep (is_loud f t.threshold) (xs ++ (pcm ++ later))
  loud_whole t xs pcm later i w e =
      let cut = i * t.hop - t.keep in
      let loud = is_loud f t.threshold in
      let within : cut ≤ length (xs ++ pcm) =
        omega (arith, hop_within t.hop loud (xs ++ pcm) i e) in
      let still : position loud (chunks_exact t.hop (xs ++ (pcm ++ later))) ≡ some i =
        ap (λ l. position loud (chunks_exact t.hop l)) (sym (append_assoc xs pcm later))
        ∙ ap (position loud) (chunks_exact-append t.hop (xs ++ pcm) later w.hop_pos)
        ∙ position-append_hit loud _ _ i e in
      ap (λ l. drop cut (l ++ pcm) ++ later) w.holds
      ∙ sym (drop-append cut (xs ++ pcm) later within)
      ∙ ap (drop cut) (append_assoc xs pcm later)
      ∙ sym (trimmed-some t.hop t.keep loud _ still)

  feed-Waiting :
      (frames : List (List ℕ)) (t : LeadTrimmer F) (xs : List ℕ)
      → Waiting t xs
      → (feed t frames).0 ++ finish f (feed t frames).1
        ≡ trimmed t.hop t.keep (is_loud f t.threshold) (xs ++ concat frames)
  unfolding finish
  feed-Waiting [] t xs w =
      w.holds
      ∙ sym (append-nil xs)
      ∙ sym (
          trimmed-none t.hop t.keep _ (xs ++ []) (
            ap (λ l. position (is_loud f t.threshold) (chunks_exact t.hop l)) (append-nil xs)
            ∙ w.quiet))
  feed-Waiting (pcm ∷ rest) t xs w =
      elim (Option-cases (position (is_loud f t.threshold) (chunks_exact t.hop (xs ++ pcm)))) [
        | inl e ↦ rw (push_quiet t xs pcm w e) (
            feed-Waiting rest (held_back t pcm) (xs ++ pcm) (held_back-Waiting t xs pcm w e)
            ∙ ap (trimmed t.hop t.keep (is_loud f t.threshold)) (append_assoc xs pcm (concat rest)))
        | inr (i, e) ↦ rw (push_loud t xs pcm i w e) (
            append_assoc (drop (i * t.hop - t.keep) (t.held ++ pcm))
              (feed (record t { held = []; passing = true }) rest).0
              (finish f (feed (record t { held = []; passing = true }) rest).1)
            ∙ ap (λ l. drop (i * t.hop - t.keep) (t.held ++ pcm) ++ l)
                (feed_passing (record t { held = []; passing = true }) rest refl
                  ∙ append-nil (concat rest))
            ∙ loud_whole t xs pcm (concat rest) i w e)
      ]

  -- From 100 samples a second a hop has a sample, and a new trimmer holds nothing back.
  new-Waiting : (sample_rate : ℕ) → 100 ≤ sample_rate → Waiting (new f sample_rate) []
  unfolding new
  new-Waiting sample_rate h = record {
    hop_pos = omega arith;
    quiet = position-nil _ _;
    holds = refl;
    at = grind (arith, zero-div (sample_rate / 100));
    not_passing = refl;
  }

  -- A trimmer fed frame by frame and then finished gives what the reference gives for the whole.
  pub feed-trimmed :
      (sample_rate : ℕ) (frames : List (List ℕ))
      → 100 ≤ sample_rate
      → let t = new f sample_rate in
        (feed t frames).0 ++ finish f (feed t frames).1
        ≡ trimmed t.hop t.keep (is_loud f t.threshold) (concat frames)
  feed-trimmed sample_rate frames h =
      feed-Waiting frames (new f sample_rate) [] (new-Waiting sample_rate h)

  -- From a sample rate of 100 on, a trimmer that is fed the frames of a reading, however the
  -- reading is cut into frames, gives out together with `finish` what `trim_leading_silence`
  -- makes of the whole reading.
  pub framewise-trim :
      (sample_rate : ℕ) (frames : List (List ℕ))
      → 100 ≤ sample_rate
      → let t = new f sample_rate in
        (feed t frames).0 ++ finish f (feed t frames).1
        ≡ trim_leading_silence f (concat frames) sample_rate
  unfolding trim_leading_silence
  framewise-trim sample_rate frames h =
      let t = new f sample_rate in
      let xs = concat frames in
      feed-trimmed sample_rate frames h
      ∙ ap (trimmed t.hop t.keep (is_loud f t.threshold)) (sym (append-nil xs))
      ∙ sym (feed-trimmed sample_rate (xs ∷ []) h)
      ∙ ap (λ l. l ++ finish f (push f t xs).1) (append-nil (push f t xs).0)

  scanned-drop :
      (t : LeadTrimmer F) (o : Option ℕ)
      → let r : List ℕ × LeadTrimmer F = elim o [
        | none ↦ ([], record t { scanned = length t.held / t.hop * t.hop })
        | some start ↦ (drop (start - t.keep) t.held, record t { held = []; passing = true })
      ] in
        (k : ℕ) × (r.0 ++ finish f r.1 ≡ drop k t.held)
  unfolding finish
  scanned-drop t none = (0, refl)
  scanned-drop t (some start) = (start - t.keep, append-nil (drop (start - t.keep) t.held))

  -- Trimming takes off the front.
  pub trim-drop :
      (pcm : List ℕ) (sample_rate : ℕ)
      → (k : ℕ) × (trim_leading_silence f pcm sample_rate ≡ drop k pcm)
  unfolding trim_leading_silence push new scan
  trim-drop pcm sample_rate =
      let t : LeadTrimmer F = record (new f sample_rate) { held = pcm } in
      scanned-drop t (loud_start f t)
