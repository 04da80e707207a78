-- ===== src/Speech/Stream.antt =====
-- `framed` and the task of `stream` in main.rs. The pieces are what the channel from the scheduler
-- yields, the first frame in front, until it is closed.
pub mod Sent
pub mod Plain
use vvaves.Common.{
  ℕ, ◌^◌, ◌%◌, Bool, true, false, not, ◌||◌, Option, none, some, List, [], ◌∷◌, ◌++◌, length,
  is_empty, if◌then◌else◌,
}
use vvaves.Common.Bytes.{be_bytes}
use vvaves.Common.Results.{Result, ok, err}
use vvaves.Common.Floats.{Floats}
use vvaves.Encode.Lame.{Lame}
use vvaves.Encode.Format.{Format, u32}
use vvaves.Encode.Chunked
use vvaves.Encode.Chunked.{Chunked}

-- `Piece` of engine.rs.
pub data Piece : Type 0 where
  frame : List ℕ → Piece
  segment_end : Piece

-- A big-endian `u32` byte count, then the bytes.
unfoldable pub framed : List ℕ → List ℕ
framed piece = be_bytes 4 (u32 (length piece)) ++ piece

-- What the task holds between two pieces, and what it has sent.
pub record State (F Handle : Type 0) : Type 0 where
  pub enc : Chunked F Handle
  pub fed : Bool
  pub segment : List ℕ
  pub sent : List (List ℕ)

-- The task goes on with the next piece, or it has returned, with what it has sent.
pub data Next (S : Type 0) : Type 0 where
  continues : S → Next S
  returns : List (List ℕ) → Next S

-- `takes` says whether a send still finds a listener, given what was sent before it.
module _ (f : Floats) (l : Lame) (takes : List (List ℕ) → Bool) where
  open f use {F}
  open l use {Handle}

  pub send : State F Handle → List ℕ → Next (State F Handle)
  send s out =
      if takes s.sent then continues (record s { sent = s.sent ++ (out ∷ []) }) else returns s.sent

  -- The bytes of one piece go out at once, or framed at the end of the sentence.
  pub emit : Bool → State F Handle → List ℕ → Bool → Next (State F Handle)
  unfolding send
  emit true s bytes end =
      let segment = s.segment ++ bytes in
      if not end || is_empty segment
      then continues (record s { segment = segment })
      else send (record s { segment = [] }) (framed segment)
  emit false s bytes end = if is_empty bytes then continues s else send s bytes

  module _ (format : Format) (sample_rate : ℕ) (framed_pieces : Bool) where
    emitted : State F Handle → Result (List ℕ × Chunked F Handle) → Bool → Next (State F Handle)
    emitted s (ok (bytes, enc')) end = emit framed_pieces (record s { enc = enc' }) bytes end
    emitted s err end = returns s.sent

    -- The encoder is finished, and `fresh` takes its place.
    ended : State F Handle → Chunked F Handle → Result (List ℕ) → Next (State F Handle)
    ended s fresh (ok bytes) = emit framed_pieces (record s { enc = fresh }) bytes true
    ended s fresh err = returns s.sent

    restarted : State F Handle → Result (Option (Chunked F Handle)) → Next (State F Handle)
    unfolding ended
    restarted s (ok (some fresh)) =
        ended (record s { fed = false }) fresh (Chunked.finish f l s.enc)
    restarted s (ok none) = returns s.sent
    restarted s err = returns s.sent

    pub on_piece : State F Handle → Piece → Next (State F Handle)
    unfolding emitted restarted emit
    on_piece s (frame pcm) = emitted (record s { fed = true }) (Chunked.push f l s.enc pcm) false
    on_piece s segment_end = restarted s (Chunked.new f l format sample_rate)

    last_sent : Next (State F Handle) → List (List ℕ)
    last_sent (continues s) = s.sent
    last_sent (returns sent) = sent

    flushed : State F Handle → Result (List ℕ) → List (List ℕ)
    unfolding last_sent send
    flushed s err = s.sent
    flushed s (ok tail) =
        let segment = s.segment ++ tail in
        if is_empty segment
        then s.sent
        else last_sent (send s (if framed_pieces then framed segment else segment))

    -- After the channel is closed: what the last sentence still holds.
    pub at_close : State F Handle → List (List ℕ)
    unfolding flushed
    at_close s = if s.fed then flushed s (Chunked.finish f l s.enc) else s.sent

    -- What is sent of the pieces that are left.
    pub run : State F Handle → List Piece → List (List ℕ)
    unfolding at_close on_piece
    run s [] = at_close s
    run s (p ∷ ps) = elim (on_piece s p) [ continues s' ↦ run s' ps | returns sent ↦ sent ]

    -- `stream`, whose caller has made the first encoder.
    pub stream : Chunked F Handle → List ℕ → List Piece → List (List ℕ)
    unfolding run
    stream chunked first rest =
        run (record { enc = chunked; fed = false; segment = []; sent = [] }) (frame first ∷ rest)
