-- ===== src/Server/Framer/Chunks.antt =====
-- core/server/framer.py: a stream that is cut into chunks.
use ctxins.Base.{
  ℕ, zero, suc, ◌<◌, ◌≡◌, refl, sym, ap, ◌∙◌, List, [], ◌∷◌, ◌++◌, append-nil, append_assoc, arith,
  length, flatten, Result, Result-cases, ok, raise, Exception, frame_decode_error, inl, inr,
}
use ctxins.Egress.RingBuffer.{Bytes}
use ctxins.Server.Framer.{FrameDecoder, Round, need_more, round, rounds, prepend, feed}
use ctxins.Server.Framer.Fuel.{
  stops, fails, cuts, round-case, round-shrinks, rounds-need_more, rounds-oversized, rounds-cut,
  rounds_fuel, rounds-stops, prepend-ok, round-append, round-append_oversized,
}

-- Earlier frames before later ones, as a reader of `feed` collects them.
abbrev pub join : List Bytes → Result (List Bytes) → Result (List Bytes)
join frames (ok later) = ok (frames ++ later)
join frames (raise x) = raise x

join-nil : (r : Result (List Bytes)) → join [] r ≡ r
join-nil (ok later) = refl
join-nil (raise x) = refl

join-cons :
    (frame : Bytes) (frames : List Bytes) (r : Result (List Bytes))
    → prepend frame (join frames r) ≡ join (frame ∷ frames) r
join-cons frame frames (ok later) = refl
join-cons frame frames (raise x) = refl

pub join-ok :
    (frames : List Bytes) (r : Result (List Bytes)) {all : List Bytes}
    → join frames r ≡ ok all
    → (later : List Bytes) × (r ≡ ok later) × (all ≡ frames ++ later)
join-ok frames (ok later) h = (later, refl, cc)
join-ok frames (raise x) h = cc

prepend-raise :
    (frame : Bytes) (r : Result (List Bytes)) {x : Exception}
    → prepend frame r ≡ raise x
    → r ≡ raise x
prepend-raise frame (ok later) h = cc
prepend-raise frame (raise y) h = h

-- The rounds with the fuel that `feed` gives them.
full : ℕ → Bytes → Result (List Bytes) × Bytes
full m buf = rounds (suc (length buf)) m buf

full-cut :
    (m : ℕ) (buf frame rest : Bytes)
    → round m buf ≡ Round.cut frame rest
    → full m buf ≡ (prepend frame (full m rest).0, (full m rest).1)
unfolding full
full-cut m buf frame rest e =
    let fewer = round-shrinks m buf e in
    rounds-cut (length buf) m buf frame rest e
    ∙ rw (rounds_fuel (length buf) (suc (length rest)) m rest (omega arith) (omega arith))

rounds-append :
    (f m : ℕ) (buf more : Bytes) {frames : List Bytes}
    → length buf < f
    → (rounds f m buf).0 ≡ ok frames
    → full m (buf ++ more) ≡ (
      join frames (full m ((rounds f m buf).1 ++ more)).0,
      (full m ((rounds f m buf).1 ++ more)).1,
    )
rounds-append zero m buf more h e = elim h [ ]
rounds-append (suc f) m buf more {frames} h e = elim (round-case m buf) [
  | stops s ↦
      let none_cut : frames ≡ [] = cc (rounds-need_more f m buf s, e) in
      rw (rounds-need_more f m buf s, none_cut, join-nil)
  | fails n s ↦ cc (rounds-oversized f m buf n s, e)
  | cuts frame rest s ↦
      let fewer = round-shrinks m buf s in
      let (later, found, same) =
        prepend-ok frame (rounds f m rest).0 (rw (rounds-cut f m buf frame rest s) at e) in
      rw (
        full-cut m (buf ++ more) frame (rest ++ more) (round-append m buf more s),
        rounds-append f m rest more (omega arith) found,
        rounds-cut f m buf frame rest s,
        same,
        join-cons,
      )
]

rounds-append_raise :
    (f m : ℕ) (buf more : Bytes) {x : Exception}
    → length buf < f
    → (rounds f m buf).0 ≡ raise x
    → (full m (buf ++ more)).0 ≡ raise x
rounds-append_raise zero m buf more h e = elim h [ ]
rounds-append_raise (suc f) m buf more {x} h e = elim (round-case m buf) [
  | stops s ↦ cc (rounds-need_more f m buf s, e)
  | fails n s ↦
      let same : ◌≡◌ {A = Result (List Bytes)} (raise frame_decode_error) (raise x) =
        cc (rounds-oversized f m buf n s, e) in
      unfold full in
      rw
        (rounds-oversized (length (buf ++ more)) m (buf ++ more) n
          (round-append_oversized m buf more s))
        same
  | cuts frame rest s ↦
      let fewer = round-shrinks m buf s in
      let later =
        prepend-raise frame (rounds f m rest).0 (rw (rounds-cut f m buf frame rest s) at e) in
      rw (
        full-cut m (buf ++ more) frame (rest ++ more) (round-append m buf more s),
        rounds-append_raise f m rest more (omega arith) later,
      )
]

-- A decoder that waits for the rest of a frame, as a fresh one does, and any one after a `feed`.
abbrev pub IsWaiting : FrameDecoder → Type 0
IsWaiting d = round d.max_frame_size d.buffer ≡ need_more

-- Two chunks, the first of which does not make `feed` raise, fed one after the other, are decoded
-- as their concatenation is: the frames of both calls together are those of the one call, or both
-- ways raise, and the decoder ends in the same state.
pub feed-append :
    (d : FrameDecoder) (a b : Bytes) {frames : List Bytes}
    → (feed d a).0 ≡ ok frames
    → feed d (a ++ b) ≡ (join frames (feed (feed d a).1 b).0, (feed (feed d a).1 b).1)
unfolding feed full
feed-append d a b h = rw (← append_assoc) (
    ap (λ (r : Result (List Bytes) × Bytes). (r.0, record d { buffer = r.1 }))
      (rounds-append (suc (length (d.buffer ++ a))) d.max_frame_size (d.buffer ++ a) b (omega arith)
        h))

-- If the first chunk makes `feed` raise, so does the concatenation.
pub feed-append_raise :
    (d : FrameDecoder) (a b : Bytes) {x : Exception}
    → (feed d a).0 ≡ raise x
    → (feed d (a ++ b)).0 ≡ raise x
unfolding feed full
feed-append_raise d a b h = rw (← append_assoc) (
    rounds-append_raise (suc (length (d.buffer ++ a))) d.max_frame_size (d.buffer ++ a) b
      (omega arith) h)

-- After a `feed` that does not raise the decoder waits for more bytes: it holds no complete frame, and
-- no header over the limit.
pub feed-IsWaiting :
    (d : FrameDecoder) (chunk : Bytes) {frames : List Bytes}
    → (feed d chunk).0 ≡ ok frames
    → IsWaiting (feed d chunk).1
unfolding feed
feed-IsWaiting d chunk h =
    rounds-stops (suc (length (d.buffer ++ chunk))) d.max_frame_size (d.buffer ++ chunk)
      (omega arith) h

-- A reader's loop over the chunks of a stream, which collects the frames and ends at the first error.
unfoldable pub feed_all : FrameDecoder → List Bytes → Result (List Bytes) × FrameDecoder
feed_all d [] = (ok [], d)
feed_all d (chunk ∷ chunks) =
    let later = feed_all (feed d chunk).1 chunks in
    elim (feed d chunk).0 [
      | ok frames ↦ (join frames later.0, later.1)
      | raise x ↦ (raise x, (feed d chunk).1)
    ]

feed-waiting : (d : FrameDecoder) → IsWaiting d → feed d [] ≡ (ok [], d)
unfolding feed
feed-waiting d w = rw (append-nil, rounds-need_more (length d.buffer) d.max_frame_size d.buffer w)

pub feed_all-cons_ok :
    (d : FrameDecoder) (chunk : Bytes) (chunks frames : List Bytes)
    → (feed d chunk).0 ≡ ok frames
    → feed_all d (chunk ∷ chunks)
      ≡ (join frames (feed_all (feed d chunk).1 chunks).0, (feed_all (feed d chunk).1 chunks).1)
unfolding feed_all
feed_all-cons_ok d chunk chunks frames h = rw (h, feed_all)

-- However a stream that decodes without an error is cut into chunks, feeding the chunks in turn gives
-- the frames, and the state of the decoder, that feeding the whole stream at once gives.
pub feed_all-flatten :
    (d : FrameDecoder) (chunks : List Bytes) {frames : List Bytes}
    → IsWaiting d
    → (feed d (flatten chunks)).0 ≡ ok frames
    → feed_all d chunks ≡ feed d (flatten chunks)
feed_all-flatten d [] w h = unfold feed_all in sym (feed-waiting d w)
feed_all-flatten d (chunk ∷ chunks) w h = elim (Result-cases (feed d chunk).0) [
  | inl (x, r) ↦ cc (feed-append_raise d chunk (flatten chunks) r, h)
  | inr (v, r) ↦
      let whole = feed-append d chunk (flatten chunks) r in
      let (later, found, _) =
        join-ok v (feed (feed d chunk).1 (flatten chunks)).0 (rw whole at h) in
      rw (
        feed_all-cons_ok d chunk chunks v r,
        feed_all-flatten (feed d chunk).1 chunks (feed-IsWaiting d chunk r) found,
        whole,
      )
]
