-- ===== src/Encode/Chunked/Whole.antt =====
-- A reading encoded frame by frame is the trimmed reading encoded at once.
use mathlib.Core.List.{map-append}
use vvaves.Common.{
  ℕ, ◌≤◌, ◌≡◌, refl, sym, ap, ap₂, ◌∙◌, Option, none, some, List, [], ◌∷◌, ◌++◌, append_assoc,
  concat, map, arith,
}
use vvaves.Common.Results.{Result, ok, err, ◌>>=◌, >>=-eq-ok, ok_pair}
use vvaves.Common.Floats.{Floats}
use vvaves.Common.Bytes.{le_bytes}
use vvaves.Encode.Lame.{Lame, mp3_new, mp3_encode, mp3_finish, encode_mono}
use vvaves.Encode.Lame.Slices.{IsIncremental, mp3_encode-nil, mp3_encode-append}
use vvaves.Encode.Format.{Format, mp3, wav, pcm, sample_bytes, encode, mp3_file}
use vvaves.Encode.Trim
use vvaves.Encode.Trim.{trim_leading_silence}
use vvaves.Encode.Trim.Framewise.{framewise-trim}
use vvaves.Encode.Trim.Framewise
use vvaves.Encode.Chunked.{Chunked, new, encoded, bytes, push, finish, flushed}

concat-append {ℓ} :
    {A : Type ℓ} (xss yss : List (List A)) → concat (xss ++ yss) ≡ concat xss ++ concat yss
concat-append [] yss = refl
concat-append (xs ∷ xss) yss =
    ap (λ l. xs ++ l) (concat-append xss yss) ∙ sym (append_assoc xs (concat xss) (concat yss))

sample_bytes-append : (a b : List ℕ) → sample_bytes (a ++ b) ≡ sample_bytes a ++ sample_bytes b
unfolding sample_bytes
sample_bytes-append a b =
    ap concat (map-append (le_bytes 2) a b)
    ∙ concat-append (map (le_bytes 2) a) (map (le_bytes 2) b)

-- The frames pushed and the encoder finished, as the caller does.
module _ (f : Floats) (l : Lame) where
  open f use {F}
  open l use {Handle}

  abbrev pub feed : Chunked F Handle → List (List ℕ) → Result (List ℕ × Chunked F Handle)
  feed c [] = ok ([], c)
  feed c (frame ∷ rest) = do
    (out, c') ← push f l c frame
    (outs, c'') ← feed c' rest
    ok (out ++ outs, c'')

  abbrev pub stream : Chunked F Handle → List (List ℕ) → Result (List ℕ)
  stream c frames = do (out, c') ← feed c frames; tail ← finish f l c'; ok (out ++ tail)

module _ (f : Floats) (l : Lame) (inc : IsIncremental l) where
  open f use {F}
  open l use {Handle}

  encoded-nil : (format : Format) (e : Option Handle) → encoded f l format e [] ≡ ok ([], e)
  unfolding encoded sample_bytes
  encoded-nil mp3 none = refl
  encoded-nil mp3 (some h) = rw (mp3_encode-nil l inc h) refl
  encoded-nil wav e = refl
  encoded-nil pcm e = refl

  abbrev plain : List ℕ → Option Handle → Result (List ℕ × Option Handle)
  plain a e = ok (sample_bytes a, e)

  plain-append :
      (e e1 e2 : Option Handle) (a b x y : List ℕ)
      → plain a e ≡ ok (x, e1)
      → plain b e1 ≡ ok (y, e2)
      → plain (a ++ b) e ≡ ok (x ++ y, e2)
  plain-append e e1 e2 a b x y p q = rw (sample_bytes-append a b) (ground arith)

  abbrev wrapped : Result (List ℕ × Handle) → Result (List ℕ × Option Handle)
  wrapped m = m >>= λ r. ok (r.0, some r.1)

  stepped :
      (m : Result (List ℕ × Handle)) (x : List ℕ) (e : Option Handle)
      → wrapped m ≡ ok (x, e)
      → (h : Handle) × (e ≡ some h) × (m ≡ ok (x, h))
  stepped (ok (o, h)) x e p = (h, cc, cc)
  stepped err x e p = cc

  stepped_again :
      (m : Result (List ℕ × Handle)) (x : List ℕ) (h : Handle)
      → wrapped m ≡ ok (x, some h)
      → m ≡ ok (x, h)
  stepped_again m x h p = let (h', e, made) = stepped m x (some h) p in cc

  encoded-append :
      (format : Format) (e e1 e2 : Option Handle) (a b x y : List ℕ)
      → encoded f l format e a ≡ ok (x, e1)
      → encoded f l format e1 b ≡ ok (y, e2)
      → encoded f l format e (a ++ b) ≡ ok (x ++ y, e2)
  unfolding encoded
  encoded-append mp3 none none e2 a b x y p q = plain-append none none e2 a b x y p q
  encoded-append mp3 none (some h1) e2 a b x y p q = cc
  encoded-append mp3 (some h) none e2 a b x y p q =
      let (h', e, made) = stepped (mp3_encode l h a) x none p in cc
  encoded-append mp3 (some h) (some h1) e2 a b x y p q =
      let (h2, e, made) = stepped (mp3_encode l h1 b) y e2 q in
      let first = stepped_again (mp3_encode l h a) x h1 p in
      rw (mp3_encode-append l inc h h1 h2 a b x y first made) (cc)
  encoded-append wav e e1 e2 a b x y p q = plain-append e e1 e2 a b x y p q
  encoded-append pcm e e1 e2 a b x y p q = plain-append e e1 e2 a b x y p q

  -- An empty slice is not handed to the encoder, which makes no difference.
  bytes-encoded :
      (c c' : Chunked F Handle) (a x : List ℕ)
      → bytes f l c a ≡ ok (x, c')
      → (encoded f l c.format c.encoder a ≡ ok (x, c'.encoder))
        × (c' ≡ record c { encoder = c'.encoder })
  unfolding bytes
  bytes-encoded c c' [] x p =
      let (ex, ec) = ok_pair [] x c c' p in
      (
        encoded-nil c.format c.encoder ∙ ap₂ (λ o (k : Chunked F Handle). ok (o, k.encoder)) ex ec,
        sym ec ∙ ap (λ (k : Chunked F Handle). record c { encoder = k.encoder }) ec,
      )
  bytes-encoded c c' (y ∷ ys) x p =
      let (r, made, same) = >>=-eq-ok (encoded f l c.format c.encoder (y ∷ ys)) _ p in
      let (ex, ec) = ok_pair r.0 x (record c { encoder = r.1 }) c' same in
      (
        made ∙ ap₂ (λ o (k : Chunked F Handle). ok (o, k.encoder)) ex ec,
        sym ec ∙ ap (λ (k : Chunked F Handle). record c { encoder = k.encoder }) ec,
      )

  pushed-encoded :
      (c c' : Chunked F Handle) (frame x : List ℕ)
      → push f l c frame ≡ ok (x, c')
      → let passed = Trim.push f c.trimmer frame in
        (encoded f l c.format c.encoder passed.0 ≡ ok (x, c'.encoder))
        × (c' ≡ record c { trimmer = passed.1; encoder = c'.encoder })
  unfolding push
  pushed-encoded c c' frame x p =
      let passed = Trim.push f c.trimmer frame in
      bytes-encoded (record c { trimmer = passed.1 }) c' passed.0 x p

  -- Feeding encodes what the trimmer lets through.
  feed-encoded :
      (frames : List (List ℕ)) (c c' : Chunked F Handle) (x : List ℕ)
      → feed f l c frames ≡ ok (x, c')
      → let passed = Framewise.feed f c.trimmer frames in
        (encoded f l c.format c.encoder passed.0 ≡ ok (x, c'.encoder))
        × (c'.format ≡ c.format)
        × (c'.trimmer ≡ passed.1)
  feed-encoded [] c c' x p =
      let (ex, ec) = ok_pair [] x c c' p in
      (
        encoded-nil c.format c.encoder ∙ ap₂ (λ o (k : Chunked F Handle). ok (o, k.encoder)) ex ec,
        sym (ap (λ (k : Chunked F Handle). k.format) ec),
        sym (ap (λ (k : Chunked F Handle). k.trimmer) ec),
      )
  feed-encoded (frame ∷ rest) c c' x p =
      let (r, made, later) = >>=-eq-ok (push f l c frame) _ p in
      let (s, made2, same) = >>=-eq-ok (feed f l r.1 rest) _ later in
      let (ex, ec) = ok_pair (r.0 ++ s.0) x s.1 c' same in
      let (first, rc) = pushed-encoded c r.1 frame r.0 made in
      let (next, fmt, tr) = feed-encoded rest r.1 s.1 s.0 made2 in
      let efmt : r.1.format ≡ c.format = ap (λ (k : Chunked F Handle). k.format) rc in
      let etr : r.1.trimmer ≡ (Trim.push f c.trimmer frame).1 =
        ap (λ (k : Chunked F Handle). k.trimmer) rc in
      let second : encoded f l c.format r.1.encoder
            (Framewise.feed f (Trim.push f c.trimmer frame).1 rest).0
          ≡ ok (s.0, s.1.encoder) =
        ap₂ (λ a t. encoded f l a r.1.encoder (Framewise.feed f t rest).0) (sym efmt) (sym etr)
        ∙ next in
      (
        encoded-append c.format c.encoder r.1.encoder s.1.encoder _ _ r.0 s.0 first second
            ∙ ap₂ (λ o (k : Chunked F Handle). ok (o, k.encoder)) ex ec,
        sym (ap (λ (k : Chunked F Handle). k.format) ec) ∙ fmt ∙ efmt,
        sym (ap (λ (k : Chunked F Handle). k.trimmer) ec)
            ∙ tr
            ∙ ap (λ t. (Framewise.feed f t rest).1) etr,
      )

  flushed-append :
      (e : Option Handle) (front out tail : List ℕ)
      → flushed f l e out ≡ ok tail
      → flushed f l e (front ++ out) ≡ ok (front ++ tail)
  unfolding flushed
  flushed-append none front out tail p = ap (λ r. r >>= λ o. ok (front ++ o)) p
  flushed-append (some h) front out tail p =
      let (last, made, same) = >>=-eq-ok (mp3_finish l h) _ p in
      rw made (ap ok (append_assoc front out last) ∙ ap (λ r. r >>= λ o. ok (front ++ o)) same)

  -- Of a fed encoder that is finished, the bytes are those of the samples that the trimmer let
  -- through and kept, then what the encoder flushes.
  stream-encoded :
      (c : Chunked F Handle) (frames : List (List ℕ)) (out : List ℕ)
      → stream f l c frames ≡ ok out
      → let passed = Framewise.feed f c.trimmer frames in
        (encoded f l c.format c.encoder (passed.0 ++ Trim.finish f passed.1) >>= λ r.
        flushed f l r.1 r.0)
        ≡ ok out
  unfolding finish
  stream-encoded c frames out p =
      let (r, fed, later) = >>=-eq-ok (feed f l c frames) _ p in
      let (tail, fin, same) = >>=-eq-ok (finish f l r.1) _ later in
      let (s, held, fl) = >>=-eq-ok (bytes f l r.1 (Trim.finish f r.1.trimmer)) _ fin in
      let (first, fmt, tr) = feed-encoded frames c r.1 r.0 fed in
      let (last, _) = bytes-encoded r.1 s.1 (Trim.finish f r.1.trimmer) s.0 held in
      let second : encoded f l c.format r.1.encoder
            (Trim.finish f (Framewise.feed f c.trimmer frames).1)
          ≡ ok (s.0, s.1.encoder) =
        ap₂ (λ a t. encoded f l a r.1.encoder (Trim.finish f t)) (sym fmt) (sym tr) ∙ last in
      let whole =
        encoded-append c.format c.encoder r.1.encoder s.1.encoder _ _ r.0 s.0 first second in
      rw whole (flushed-append s.1.encoder r.0 s.0 tail fl ∙ same)

  -- The mp3 path of `Chunked` and of `encode` are one.
  unwrapped :
      (m : Result (List ℕ × Handle))
      → (wrapped m >>= λ r. flushed f l r.1 r.0)
        ≡ (m >>= λ r. mp3_finish l r.1 >>= λ tail. ok (r.0 ++ tail))
  unfolding flushed
  unwrapped (ok r) = refl
  unwrapped err = refl

  -- Where LAME is incremental and the sample rate is 100 at least: if a reading, cut into frames
  -- in any way, is pushed frame by frame to a fresh `Chunked` of mp3 or pcm and the encoder is
  -- finished, all without an error, then the bytes made on the way are those that `encode` makes
  -- at once of the whole reading with its leading silence trimmed.
  pub chunked-encode :
      (format : Format) (sample_rate : ℕ) (c : Chunked F Handle) (frames : List (List ℕ))
      (out : List ℕ)
      → 100 ≤ sample_rate
      → new f l format sample_rate ≡ ok (some c)
      → stream f l c frames ≡ ok out
      → encode l format (trim_leading_silence f (concat frames) sample_rate) sample_rate ≡ ok out
  unfolding new encoded encode encode_mono mp3_file flushed
  chunked-encode mp3 sample_rate c frames out rate made p =
      let (enc, fresh, same) = >>=-eq-ok (mp3_new l sample_rate 64 5) _ made in
      let c0 : Chunked F Handle = record {
        format = mp3;
        trimmer = Trim.new f sample_rate;
        encoder = some enc;
      } in
      let begun : c0 ≡ c = cc in
      let run = stream-encoded c0 frames out (ap (λ k. stream f l k frames) begun ∙ p) in
      rw (fresh, ← framewise-trim f sample_rate frames rate) (sym (unwrapped _) ∙ run)
  chunked-encode wav sample_rate c frames out rate made p = cc
  chunked-encode pcm sample_rate c frames out rate made p =
      let c0 : Chunked F Handle = record {
        format = pcm;
        trimmer = Trim.new f sample_rate;
        encoder = none;
      } in
      let begun : c0 ≡ c = cc in
      let run = stream-encoded c0 frames out (ap (λ k. stream f l k frames) begun ∙ p) in
      ap (λ a. ok (sample_bytes a)) (sym (framewise-trim f sample_rate frames rate)) ∙ run
