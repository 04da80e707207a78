-- ===== src/Speech/Stream/Plain.antt =====
-- What a listener who did not ask for frames is sent: the sentences' bytes as they are made.
use vvaves.Common.{
  ℕ, ◌≡◌, refl, sym, ap, ◌∙◌, true, false, not, some, List, [], ◌∷◌, ◌++◌, append-nil, append_assoc,
  concat, is_empty, if◌then◌else◌,
}
use vvaves.Common.Results.{ok, >>=-eq-ok, ok_pair}
use vvaves.Common.Floats.{Floats}
use vvaves.Encode.Lame.{Lame}
use vvaves.Encode.Format.{Format}
use vvaves.Encode.Chunked
use vvaves.Encode.Chunked.{Chunked}
use vvaves.Encode.Chunked.Whole
use vvaves.Speech.Stream.{
  Piece, frame, segment_end, State, continues, send, on_piece, at_close, run, stream,
}
use vvaves.Speech.Stream.Sent.{
  always, readings, feed-snoc, readings-feed, stream-finish, closed_unfed, run-continues,
  not-empty-snoc, between,
}

-- What is sent after some bytes that may be none.
abbrev extend : List (List ℕ) → List ℕ → List (List ℕ)
extend sent bytes = if is_empty bytes then sent else sent ++ (bytes ∷ [])

concat-snoc : (sent : List (List ℕ)) (b : List ℕ) → concat (sent ++ (b ∷ [])) ≡ concat sent ++ b
concat-snoc [] b = append-nil b
concat-snoc (s ∷ sent) b =
    ap (λ k. s ++ k) (concat-snoc sent b) ∙ sym (append_assoc s (concat sent) b)

concat-extend : (sent : List (List ℕ)) (b : List ℕ) → concat (extend sent b) ≡ concat sent ++ b
concat-extend sent [] = sym (append-nil (concat sent))
concat-extend sent (x ∷ b) = concat-snoc sent (x ∷ b)

module _ (f : Floats) (l : Lame) (c0 : Chunked f.F l.Handle) (format : Format) (sample_rate : ℕ)
    (fresh : Chunked.new f l format sample_rate ≡ ok (some c0)) where
  open f use {F}
  open l use {Handle}

  -- The task in the middle of a sentence, whose bytes so far `x` are sent behind `past`.
  record Sending (s : State F Handle) (cur : List (List ℕ)) (x past : List ℕ) : Type 0 where
    fed : Whole.feed f l c0 cur ≡ ok (x, s.enc)
    flag : s.fed ≡ not (is_empty cur)
    nothing_held : s.segment ≡ []
    out : concat s.sent ≡ past ++ x

  plain_frame :
      (s : State F Handle) (pcm b : List ℕ) (c1 : Chunked F Handle)
      → Chunked.push f l s.enc pcm ≡ ok (b, c1)
      → on_piece f l always format sample_rate false s (frame pcm)
        ≡ continues (record s { enc = c1; fed = true; sent = extend s.sent b })
  unfolding on_piece send
  plain_frame s pcm [] c1 made = rw made refl
  plain_frame s pcm (x ∷ b) c1 made = rw made refl

  plain_end :
      (s : State F Handle) (tail : List ℕ)
      → Chunked.finish f l s.enc ≡ ok tail
      → on_piece f l always format sample_rate false s segment_end
        ≡ continues (record s { enc = c0; fed = false; sent = extend s.sent tail })
  unfolding on_piece send
  plain_end s [] made = rw fresh (rw made refl)
  plain_end s (x ∷ tail) made = rw fresh (rw made refl)

  plain_close :
      (s : State F Handle) (tail : List ℕ)
      → s.fed ≡ true
      → s.segment ≡ []
      → Chunked.finish f l s.enc ≡ ok tail
      → at_close f l always format sample_rate false s ≡ extend s.sent tail
  unfolding at_close
  plain_close s [] on held made = rw on (rw made (rw held refl))
  plain_close s (x ∷ tail) on held made = rw on (rw made (rw held refl))

  plain-run :
      (ps : List Piece) (s : State F Handle) (cur : List (List ℕ)) (x past : List ℕ)
      (outs : List (List ℕ))
      → Sending s cur x past
      → readings f l c0 ps cur ≡ ok outs
      → concat (run f l always format sample_rate false s ps) ≡ past ++ concat outs
  unfolding run readings
  plain-run [] s [] x past outs h p =
      let e : [] ≡ outs = cc in
      let none_yet : [] ≡ x = (ok_pair [] x c0 s.enc h.fed).0 in
      ap concat (closed_unfed f l c0 format sample_rate fresh s false h.flag)
      ∙ h.out
      ∙ ap (λ k. past ++ k) (sym none_yet)
      ∙ ap (λ k. past ++ concat k) e
  plain-run [] s (pcm ∷ cur) x past outs h p =
      let (o, made, same) = >>=-eq-ok (Whole.stream f l c0 (pcm ∷ cur)) _ p in
      let (tail, fin, joined) = stream-finish f l c0 (pcm ∷ cur) x o s.enc h.fed made in
      let e : o ∷ [] ≡ outs = cc in
      ap concat (plain_close s tail h.flag h.nothing_held fin)
      ∙ concat-extend s.sent tail
      ∙ ap (λ k. k ++ tail) h.out
      ∙ append_assoc past x tail
      ∙ ap (λ k. past ++ k) (joined ∙ sym (append-nil o))
      ∙ ap (λ k. past ++ concat k) e
  plain-run (frame pcm ∷ ps) s cur x past outs h p =
      let (r, fed) = readings-feed f l c0 ps (cur ++ (pcm ∷ [])) outs p in
      let (y, c1, b, before, last, e) = feed-snoc f l c0 cur c0 r.1 pcm r.0 fed in
      let same = ok_pair x y s.enc c1 (sym h.fed ∙ before) in
      let s' : State F Handle = record s { enc = r.1; fed = true; sent = extend s.sent b } in
      ap concat (
        run-continues f l c0 format sample_rate fresh false s s' (frame pcm) ps
          (plain_frame s pcm b r.1 (ap (λ k. Chunked.push f l k pcm) same.1 ∙ last)))
      ∙ plain-run ps s' (cur ++ (pcm ∷ [])) r.0 past outs
          (record {
            fed = fed;
            flag = not-empty-snoc f l c0 format sample_rate fresh cur pcm;
            nothing_held = h.nothing_held;
            out =
                concat-extend s.sent b
                ∙ ap (λ k. k ++ b) h.out
                ∙ append_assoc past x b
                ∙ ap (λ k. past ++ k) (ap (λ k. k ++ b) same.0 ∙ sym e);
          })
          p
  plain-run (segment_end ∷ ps) s cur x past outs h p =
      let (o, made, later) = >>=-eq-ok (Whole.stream f l c0 cur) _ p in
      let (os, rest, same) = >>=-eq-ok (readings f l c0 ps []) _ later in
      let (tail, fin, joined) = stream-finish f l c0 cur x o s.enc h.fed made in
      let e : o ∷ os ≡ outs = cc in
      let s' : State F Handle = record s { enc = c0; fed = false; sent = extend s.sent tail } in
      ap concat (
        run-continues f l c0 format sample_rate fresh false s s' segment_end ps
          (plain_end s tail fin))
      ∙ plain-run ps s' [] [] (past ++ o) os
          (record {
            fed = refl;
            flag = refl;
            nothing_held = h.nothing_held;
            out =
                concat-extend s.sent tail
                ∙ ap (λ k. k ++ tail) h.out
                ∙ append_assoc past x tail
                ∙ ap (λ k. past ++ k) joined
                ∙ sym (append-nil (past ++ o));
          })
          rest
      ∙ append_assoc past o (concat os)
      ∙ ap (λ k. past ++ concat k) e

  -- Where LAME accepts the settings and no sentence fails to encode, a listener who did not ask
  -- for frames and stays to the end is sent, all in all, the bytes of the sentences in order,
  -- each encoded on its own by a fresh encoder.
  pub plain-stream :
      (first : List ℕ) (rest : List Piece) (outs : List (List ℕ))
      → readings f l c0 (frame first ∷ rest) [] ≡ ok outs
      → concat (stream f l always format sample_rate false c0 first rest) ≡ concat outs
  unfolding stream
  plain-stream first rest outs p =
      plain-run (frame first ∷ rest) (between f l c0 format sample_rate fresh [] []) [] [] [] outs
        (record { fed = refl; flag = refl; nothing_held = refl; out = refl }) p
