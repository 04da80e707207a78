-- ===== src/Speech/Stream/Sent.antt =====
-- What a listener who stays to the end is sent: each sentence encoded on its own, and framed if
-- frames were asked for.
use vvaves.Common.{
  ℕ, ◌≡◌, refl, sym, ap, ◌∙◌, Bool, true, false, not, some, List, [], ◌∷◌, ◌++◌, append-nil,
  append_assoc, map, is_empty, if◌then◌else◌,
}
use vvaves.Common.Results.{Result, ok, ◌>>=◌, >>=-eq-ok, ok_pair}
use vvaves.Common.Floats.{Floats}
use vvaves.Encode.Lame.{Lame}
use vvaves.Encode.Format.{Format}
use vvaves.Encode.Chunked
use vvaves.Encode.Chunked.{Chunked}
use vvaves.Encode.Chunked.Whole
use vvaves.Speech.Stream.{
  Piece, frame, segment_end, State, continues, framed, send, on_piece, at_close, run, stream,
}

-- A listener who takes whatever is sent.
abbrev pub always : List (List ℕ) → Bool
always sent = true

abbrev pub nonempty : List (List ℕ) → List (List ℕ)
nonempty [] = []
nonempty (xs ∷ xss) = if is_empty xs then nonempty xss else xs ∷ nonempty xss

module _ (f : Floats) (l : Lame) (c0 : Chunked f.F l.Handle) where
  open f use {F}
  open l use {Handle}

  -- The sentences of the pieces, each encoded on its own by a fresh encoder `c0`; `cur` are the
  -- frames of the sentence that is being read. A last sentence without a frame is none.
  unfoldable pub readings : List Piece → List (List ℕ) → Result (List (List ℕ))
  readings [] [] = ok []
  readings [] (pcm ∷ cur) = do out ← Whole.stream f l c0 (pcm ∷ cur); ok (out ∷ [])
  readings (frame pcm ∷ ps) cur = readings ps (cur ++ (pcm ∷ []))
  readings (segment_end ∷ ps) cur = do
    out ← Whole.stream f l c0 cur
    outs ← readings ps []
    ok (out ∷ outs)

  feed-two :
      (c c1 c2 : Chunked F Handle) (pcm o x : List ℕ) (frames : List (List ℕ))
      → Chunked.push f l c pcm ≡ ok (o, c1)
      → Whole.feed f l c1 frames ≡ ok (x, c2)
      → Whole.feed f l c (pcm ∷ frames) ≡ ok (o ++ x, c2)
  feed-two c c1 c2 pcm o x frames p q = rw p (rw q refl)

  regroup : (o x b y s : List ℕ) → o ++ s ≡ y → s ≡ x ++ b → y ≡ (o ++ x) ++ b
  regroup o x b y s e d = sym e ∙ ap (λ t. o ++ t) d ∙ sym (append_assoc o x b)

  -- A frame more: what was fed before it, and the frame's own bytes.
  pub feed-snoc :
      (frames : List (List ℕ)) (c c2 : Chunked F Handle) (pcm y : List ℕ)
      → Whole.feed f l c (frames ++ (pcm ∷ [])) ≡ ok (y, c2)
      → (x : List ℕ) × (c1 : Chunked F Handle) × (b : List ℕ) × (Whole.feed f l c frames
          ≡ ok (x, c1))
        × (Chunked.push f l c1 pcm ≡ ok (b, c2))
        × (y ≡ x ++ b)
  feed-snoc [] c c2 pcm y p =
      let (r, made, same) = >>=-eq-ok (Chunked.push f l c pcm) _ p in
      let (ey, ec) = ok_pair (r.0 ++ []) y r.1 c2 same in
      ([], c, r.0, refl, made ∙ ap (λ k. ok (r.0, k)) ec, sym ey ∙ append-nil r.0)
  feed-snoc (pcm' ∷ frames) c c2 pcm y p =
      let (r, made, later) = >>=-eq-ok (Chunked.push f l c pcm') _ p in
      let (s, fed, same) = >>=-eq-ok (Whole.feed f l r.1 (frames ++ (pcm ∷ []))) _ later in
      let (ey, ec) = ok_pair (r.0 ++ s.0) y s.1 c2 same in
      let (x, c1, b, before, last, e) = feed-snoc frames r.1 s.1 pcm s.0 fed in
      (
        r.0 ++ x,
        c1,
        b,
        feed-two c r.1 c1 pcm' r.0 x frames made before,
        last ∙ ap (λ k. ok (b, k)) ec,
        regroup r.0 x b y s.0 ey e,
      )

  stream-feed :
      (cur : List (List ℕ)) (o : List ℕ)
      → Whole.stream f l c0 cur ≡ ok o
      → (r : List ℕ × Chunked F Handle) × (Whole.feed f l c0 cur ≡ ok r)
  stream-feed cur o p = let (r, fed, later) = >>=-eq-ok (Whole.feed f l c0 cur) _ p in (r, fed)

  -- Where the sentences are all read, what came before was encoded without an error.
  pub readings-feed :
      (ps : List Piece) (cur : List (List ℕ)) (outs : List (List ℕ))
      → readings ps cur ≡ ok outs
      → (r : List ℕ × Chunked F Handle) × (Whole.feed f l c0 cur ≡ ok r)
  unfolding readings
  readings-feed [] [] outs p = (([], c0), refl)
  readings-feed [] (pcm ∷ cur) outs p =
      let (o, made, same) = >>=-eq-ok (Whole.stream f l c0 (pcm ∷ cur)) _ p in
      stream-feed (pcm ∷ cur) o made
  readings-feed (frame pcm ∷ ps) cur outs p =
      let (r, fed) = readings-feed ps (cur ++ (pcm ∷ [])) outs p in
      let (x, c1, b, before, last, e) = feed-snoc cur c0 r.1 pcm r.0 fed in ((x, c1), before)
  readings-feed (segment_end ∷ ps) cur outs p =
      let (o, made, same) = >>=-eq-ok (Whole.stream f l c0 cur) _ p in stream-feed cur o made

  -- Of a sentence whose frames are fed, `finish` makes the rest of its bytes.
  pub stream-finish :
      (cur : List (List ℕ)) (x o : List ℕ) (c : Chunked F Handle)
      → Whole.feed f l c0 cur ≡ ok (x, c)
      → Whole.stream f l c0 cur ≡ ok o
      → (tail : List ℕ) × (Chunked.finish f l c ≡ ok tail) × (x ++ tail ≡ o)
  stream-finish cur x o c fed p =
      let q : (Chunked.finish f l c >>= λ tail. ok (x ++ tail)) ≡ ok o =
        ap (λ m. m >>= λ r. Chunked.finish f l r.1 >>= λ tail. ok (r.0 ++ tail)) (sym fed) ∙ p in
      let (tail, made, same) = >>=-eq-ok (Chunked.finish f l c) _ q in (tail, made, cc)

  module _ (format : Format) (sample_rate : ℕ)
      (fresh : Chunked.new f l format sample_rate ≡ ok (some c0)) where
    -- The task in the middle of a sentence: its frames are fed, and their bytes are held.
    record Held (s : State F Handle) (cur : List (List ℕ)) (x : List ℕ) : Type 0 where
      fed : Whole.feed f l c0 cur ≡ ok (x, s.enc)
      flag : s.fed ≡ not (is_empty cur)
      holds : s.segment ≡ x

    framed_frame :
        (s : State F Handle) (pcm b : List ℕ) (c1 : Chunked F Handle)
        → Chunked.push f l s.enc pcm ≡ ok (b, c1)
        → on_piece f l always format sample_rate true s (frame pcm)
          ≡ continues (record s { enc = c1; fed = true; segment = s.segment ++ b })
    unfolding on_piece
    framed_frame s pcm b c1 made = rw made refl

    abbrev pub between : List ℕ → List (List ℕ) → State F Handle
    between segment sent = record { enc = c0; fed = false; segment = segment; sent = sent }

    -- A sentence's bytes are sent if there are any.
    sent_whole :
        (sent : List (List ℕ)) (o : List ℕ)
        → (if is_empty o
            then continues (between o sent)
            else continues (between [] (sent ++ (framed o ∷ []))))
          ≡ continues (between [] (sent ++ map framed (nonempty (o ∷ []))))
    sent_whole sent [] = ap (λ k. continues (between [] k)) (sym (append-nil sent))
    sent_whole sent (b ∷ bs) = refl

    framed_end :
        (s : State F Handle) (tail : List ℕ)
        → Chunked.finish f l s.enc ≡ ok tail
        → on_piece f l always format sample_rate true s segment_end
          ≡ continues (between [] (s.sent ++ map framed (nonempty ((s.segment ++ tail) ∷ []))))
    unfolding on_piece send
    framed_end s tail made = rw fresh (rw made (sent_whole s.sent (s.segment ++ tail)))

    closed_whole :
        (sent : List (List ℕ)) (o : List ℕ)
        → (if is_empty o then sent else sent ++ (framed o ∷ []))
          ≡ sent ++ map framed (nonempty (o ∷ []))
    closed_whole sent [] = sym (append-nil sent)
    closed_whole sent (b ∷ bs) = refl

    framed_close :
        (s : State F Handle) (tail : List ℕ)
        → s.fed ≡ true
        → Chunked.finish f l s.enc ≡ ok tail
        → at_close f l always format sample_rate true s
          ≡ s.sent ++ map framed (nonempty ((s.segment ++ tail) ∷ []))
    unfolding at_close
    framed_close s tail on made = rw on (rw made (closed_whole s.sent (s.segment ++ tail)))

    nonempty-cons :
        (o : List ℕ) (outs : List (List ℕ))
        → map framed (nonempty (o ∷ [])) ++ map framed (nonempty outs)
          ≡ map framed (nonempty (o ∷ outs))
    nonempty-cons [] outs = refl
    nonempty-cons (b ∷ bs) outs = refl

    pub not-empty-snoc :
        (cur : List (List ℕ)) (pcm : List ℕ) → true ≡ not (is_empty (cur ++ (pcm ∷ [])))
    not-empty-snoc [] pcm = refl
    not-empty-snoc (c ∷ cur) pcm = refl

    pub closed_unfed :
        (s : State F Handle) (framed_pieces : Bool)
        → s.fed ≡ false
        → at_close f l always format sample_rate framed_pieces s ≡ s.sent
    unfolding at_close
    closed_unfed s framed_pieces off = rw off refl

    pub run-continues :
        (framed_pieces : Bool) (s s' : State F Handle) (p : Piece) (ps : List Piece)
        → on_piece f l always format sample_rate framed_pieces s p ≡ continues s'
        → run f l always format sample_rate framed_pieces s (p ∷ ps)
          ≡ run f l always format sample_rate framed_pieces s' ps
    unfolding run
    run-continues framed_pieces s s' p ps e = rw (e, run) refl

    -- A frame goes to the encoder that holds the sentence.
    pushed :
        (s : State F Handle) (cur : List (List ℕ)) (pcm x y b : List ℕ) (c1 c2 : Chunked F Handle)
        → Held s cur x
        → Whole.feed f l c0 cur ≡ ok (y, c1)
        → Chunked.push f l c1 pcm ≡ ok (b, c2)
        → Chunked.push f l s.enc pcm ≡ ok (b, c2)
    pushed s cur pcm x y b c1 c2 h fed made =
        let same = ok_pair x y s.enc c1 (sym h.fed ∙ fed) in
        ap (λ k. Chunked.push f l k pcm) same.1 ∙ made

    framed-run :
        (ps : List Piece) (s : State F Handle) (cur : List (List ℕ)) (x : List ℕ)
        (outs : List (List ℕ))
        → Held s cur x
        → readings ps cur ≡ ok outs
        → run f l always format sample_rate true s ps ≡ s.sent ++ map framed (nonempty outs)
    unfolding run readings
    framed-run [] s [] x outs h p =
        let e : [] ≡ outs = cc in
        closed_unfed s true h.flag
        ∙ sym (append-nil s.sent)
        ∙ ap (λ k. s.sent ++ map framed (nonempty k)) e
    framed-run [] s (pcm ∷ cur) x outs h p =
        let (o, made, same) = >>=-eq-ok (Whole.stream f l c0 (pcm ∷ cur)) _ p in
        let (tail, fin, joined) = stream-finish (pcm ∷ cur) x o s.enc h.fed made in
        let e : o ∷ [] ≡ outs = cc in
        framed_close s tail h.flag fin
        ∙ ap (λ k. s.sent ++ map framed (nonempty (k ∷ []))) (ap (λ t. t ++ tail) h.holds ∙ joined)
        ∙ ap (λ k. s.sent ++ map framed (nonempty k)) e
    framed-run (frame pcm ∷ ps) s cur x outs h p =
        let (r, fed) = readings-feed ps (cur ++ (pcm ∷ [])) outs p in
        let (y, c1, b, before, last, e) = feed-snoc cur c0 r.1 pcm r.0 fed in
        let same = ok_pair x y s.enc c1 (sym h.fed ∙ before) in
        let s' : State F Handle = record s { enc = r.1; fed = true; segment = s.segment ++ b } in
        run-continues true s s' (frame pcm) ps
          (framed_frame s pcm b r.1 (pushed s cur pcm x y b c1 r.1 h before last))
        ∙ framed-run ps s' (cur ++ (pcm ∷ [])) r.0 outs
            (record {
              fed = fed;
              flag = not-empty-snoc cur pcm;
              holds = ap (λ t. t ++ b) (h.holds ∙ same.0) ∙ sym e;
            })
            p
    framed-run (segment_end ∷ ps) s cur x outs h p =
        let (o, made, later) = >>=-eq-ok (Whole.stream f l c0 cur) _ p in
        let (os, rest, same) = >>=-eq-ok (readings ps []) _ later in
        let (tail, fin, joined) = stream-finish cur x o s.enc h.fed made in
        let e : o ∷ os ≡ outs = cc in
        let whole : s.segment ++ tail ≡ o = ap (λ t. t ++ tail) h.holds ∙ joined in
        let now = s.sent ++ map framed (nonempty ((s.segment ++ tail) ∷ [])) in
        run-continues true s (between [] now) segment_end ps (framed_end s tail fin)
        ∙ framed-run ps (between [] now) [] [] os (record { fed = refl; flag = refl; holds = refl })
            rest
        ∙ append_assoc s.sent (map framed (nonempty ((s.segment ++ tail) ∷ [])))
            (map framed (nonempty os))
        ∙ ap (λ k. s.sent ++ (map framed (nonempty (k ∷ [])) ++ map framed (nonempty os))) whole
        ∙ ap (λ k. s.sent ++ k) (nonempty-cons o os)
        ∙ ap (λ k. s.sent ++ map framed (nonempty k)) e

    -- Where LAME accepts the settings and no sentence fails to encode, a listener who asked for
    -- frames and stays to the end is sent one frame for each sentence that has bytes, in order:
    -- the sentence's frames encoded on their own by a fresh encoder, behind their length.
    pub framed-stream :
        (first : List ℕ) (rest : List Piece) (outs : List (List ℕ))
        → readings (frame first ∷ rest) [] ≡ ok outs
        → stream f l always format sample_rate true c0 first rest ≡ map framed (nonempty outs)
    unfolding stream
    framed-stream first rest outs p =
        framed-run (frame first ∷ rest) (between [] []) [] [] outs
          (record { fed = refl; flag = refl; holds = refl }) p
