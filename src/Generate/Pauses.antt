-- ===== src/Generate/Pauses.antt =====
-- The segments of a text with pauses.
use vvaves.Common.{
  ℕ, ◌-◌, ◌≡◌, refl, ap, ◌∙◌, Bool, true, false, List, [], ◌∷◌, ◌++◌, subst, map, All, All-append,
  is_empty, ltb, if◌then◌else◌, Bool-cases, inl, inr,
}
use vvaves.Common.Results.{Result, ok, ◌>>=◌, >>=-eq-ok}
use vvaves.Text.Chars.{Text, Unicode, trim, byte_len}
use vvaves.Text.Pause.{PauseMarker}
use vvaves.Text.Pause.Found.{Durations, ParsedText, parse_text_with_pauses}
use vvaves.Generate.{
  Segment, spoken, pause, spoken_of, spoken_between, cut_at, segments_from, segments_of, behind,
}

pub pauses_of : List Segment → List ℕ
pauses_of [] = []
pauses_of (spoken text ∷ segments) = pauses_of segments
pauses_of (pause ms ∷ segments) = ms ∷ pauses_of segments

-- A text that is not white space alone.
pub IsHeard : Segment → Type 0
IsHeard (spoken text) = is_empty (trim text) ≡ false
IsHeard (pause ms) = Unit

-- What is said between two pauses.
pub IsSpeech : List Segment → Type 0
unfolding pauses_of IsHeard
IsSpeech segments = (pauses_of segments ≡ []) × All IsHeard segments

pauses_of-append : (a b : List Segment) → pauses_of a ≡ [] → pauses_of (a ++ b) ≡ pauses_of b
unfolding pauses_of
pauses_of-append [] b e = refl
pauses_of-append (spoken text ∷ a) b e = pauses_of-append a b e
pauses_of-append (pause ms ∷ a) b e = cc

spoken_of-IsSpeech : (text : Text) → IsSpeech (spoken_of text)
unfolding spoken_of IsSpeech
spoken_of-IsSpeech text = elim (Bool-cases (is_empty (trim text))) [
  | inl y ↦ rw y (refl, tt)
  | inr y ↦ rw y (refl, (y, tt))
]

nothing-IsSpeech : IsSpeech []
unfolding IsSpeech pauses_of
nothing-IsSpeech = (refl, tt)

if_ok :
    (b : Bool) (r : Result (List Segment)) (segments : List Segment)
    → ((xs : List Segment) → r ≡ ok xs → IsSpeech xs)
    → (if b then r else ok []) ≡ ok segments
    → IsSpeech segments
if_ok true r segments h e = h segments e
if_ok false r segments h e = let q : [] ≡ segments = cc in subst IsSpeech q nothing-IsSpeech

spoken_between-IsSpeech :
    (clean_text : Text) (from to : ℕ) (segments : List Segment)
    → spoken_between clean_text from to ≡ ok segments
    → IsSpeech segments
unfolding spoken_between
spoken_between-IsSpeech clean_text from to segments =
    if_ok (ltb from to)
      (do
        (front, rest) ← cut_at clean_text from
        (text, back) ← cut_at rest (to - from)
        ok (spoken_of text))
      segments
      (λ xs e.
        let (one, e1, rest1) =
          >>=-eq-ok (cut_at clean_text from)
            (λ r. cut_at r.1 (to - from) >>= (λ q. ok (spoken_of q.0))) e in
        let (two, e2, rest2) =
          >>=-eq-ok (cut_at one.1 (to - from)) (λ q. ok (spoken_of q.0)) rest1 in
        let q : spoken_of two.0 ≡ xs = cc in subst IsSpeech q (spoken_of-IsSpeech two.0))

-- The pauses of the segments are those of the list, and every text is heard.
IsCut : List PauseMarker → List Segment → Type 0
IsCut ps segments = (pauses_of segments ≡ map (λ p. p.duration_ms) ps) × All IsHeard segments

joined :
    (p : PauseMarker) (ps : List PauseMarker) (before rest : List Segment)
    → IsSpeech before
    → IsCut ps rest
    → IsCut (p ∷ ps) (before ++ (pause p.duration_ms ∷ rest))
unfolding IsSpeech IsCut pauses_of IsHeard
joined p ps before rest speech cut = (
  pauses_of-append before (pause p.duration_ms ∷ rest) speech.0 ∙ ap (λ l. p.duration_ms ∷ l) cut.0,
  All-append IsHeard before (pause p.duration_ms ∷ rest) speech.1 (tt, cut.1),
)

segments_from-IsCut :
    (ps : List PauseMarker) (clean_text : Text) (last_pos : ℕ) (segments : List Segment)
    → segments_from clean_text ps last_pos ≡ ok segments
    → IsCut ps segments
unfolding segments_from IsCut IsSpeech
segments_from-IsCut [] clean_text last_pos segments e =
    if_ok (ltb last_pos (byte_len clean_text))
      (do (front, rest) ← cut_at clean_text last_pos; ok (spoken_of rest)) segments
      (λ xs e.
        let (one, e1, rest) = >>=-eq-ok (cut_at clean_text last_pos) (λ r. ok (spoken_of r.1)) e in
        let q : spoken_of one.1 ≡ xs = cc in subst IsSpeech q (spoken_of-IsSpeech one.1))
      e
segments_from-IsCut (p ∷ ps) clean_text last_pos segments e =
    let (before, e1, r1) =
      >>=-eq-ok (spoken_between clean_text last_pos p.position)
        (λ a. segments_from clean_text ps (behind p) >>= (λ b. ok (a ++ (pause p.duration_ms ∷ b))))
        e in
    let (rest, e2, r2) =
      >>=-eq-ok (segments_from clean_text ps (behind p))
        (λ b. ok (before ++ (pause p.duration_ms ∷ b))) r1 in
    let speech = spoken_between-IsSpeech clean_text last_pos p.position before e1 in
    let ih = segments_from-IsCut ps clean_text (behind p) rest e2 in
    let q : before ++ (pause p.duration_ms ∷ rest) ≡ segments = cc in
    subst (IsCut (p ∷ ps)) q (joined p ps before rest speech ih)

-- A text with pauses that is cut without a panic has the pauses of `parse_text_with_pauses`, in
-- their order, and no text of white space alone.
pub segments_of-pauses :
    (d : Durations) (u : Unicode) (text : Text) (segments : List Segment)
    → segments_of (parse_text_with_pauses d u text) ≡ ok segments
    → (pauses_of segments ≡ map (λ p. p.duration_ms) (parse_text_with_pauses d u text).pauses)
      × All IsHeard segments
unfolding segments_of IsCut
segments_of-pauses d u text segments =
    let parsed : ParsedText = parse_text_with_pauses d u text in
    segments_from-IsCut parsed.pauses parsed.clean_text 0 segments
