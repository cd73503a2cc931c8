-- ===== src/Tracker/Timing.antt =====
-- interceptor/correlation/tracker.py: the timing of a stream.
use ctxins.Base.{
  ℕ, ◌≡◌, refl, ◌∙◌, ap, not, List, [], ◌∷◌, Option, none, some, String, arith, if◌then◌else◌,
  string_eq, is_nil, beq_refl,
}
use ctxins.Base.Dict.{get, get-insert}
use ctxins.Egress.RingBuffer.{Bytes}
use ctxins.Wire.{TimingMetrics}
use ctxins.Tracker.{
  Accumulator, Turn, ActiveTurnTracker, get_turn, update, update_found, set_item, record_chunk,
  with_chunk, mark_timing, is_blank, or_else,
}

-- A chunk, the monotonic time of its arrival, and the wall clock's.
pub record Arrival : Type 0 where
  pub chunk : Bytes
  pub mono : ℕ
  pub wall : ℕ

-- When the first chunk came that is not blank, and when the last empty one.
abbrev pub first_sight : List Arrival → Option ℕ
first_sight [] = none
first_sight (a ∷ xs) = if not (is_blank a.chunk) then some a.mono else first_sight xs

abbrev pub last_close : List Arrival → Option ℕ
last_close [] = none
last_close (a ∷ xs) = or_else (last_close xs) (if is_nil a.chunk then some a.mono else none)

unfoldable pub mark_all : List Arrival → TimingMetrics → TimingMetrics
mark_all [] timing = timing
mark_all (a ∷ xs) timing = mark_all xs (mark_timing a.chunk a.mono timing)

mark_all-first :
    (xs : List Arrival) (timing : TimingMetrics)
    → (mark_all xs timing).first_byte_received_at
      ≡ or_else timing.first_byte_received_at (first_sight xs)
unfolding mark_all mark_timing
mark_all-first [] timing = ground arith
mark_all-first (a ∷ xs) timing =
    mark_all-first xs (mark_timing a.chunk a.mono timing) ∙ (ground arith)

mark_all-close :
    (xs : List Arrival) (timing : TimingMetrics)
    → (mark_all xs timing).stream_closed_at ≡ or_else (last_close xs) timing.stream_closed_at
unfolding mark_all mark_timing
mark_all-close [] timing = refl
mark_all-close (a ∷ xs) timing =
    mark_all-close xs (mark_timing a.chunk a.mono timing) ∙ (ground arith)

module _ (Any : Type 0) (A : Accumulator) where
  unfoldable pub record_all :
      ActiveTurnTracker Any A → String → List Arrival → ActiveTurnTracker Any A
  record_all t cid [] = t
  record_all t cid (a ∷ xs) = record_all (record_chunk Any A t cid a.chunk a.mono a.wall).0 cid xs

  get-record_chunk :
      (t : ActiveTurnTracker Any A) (cid : String) (a : Arrival) (turn : Turn Any A)
      → get_turn Any A t cid ≡ some turn
      → get_turn Any A (record_chunk Any A t cid a.chunk a.mono a.wall).0 cid
        ≡ some (with_chunk Any A a.chunk a.mono turn)
  unfolding get_turn record_chunk update set_item
  get-record_chunk t cid a turn h =
      let f = with_chunk Any A a.chunk a.mono in
      ap (λ found. get cid (update_found Any A t cid a.wall f found).turns) h
      ∙ get-insert cid cid (f turn) t.turns
      ∙ (rw (beq_refl cid) refl)

  -- The turn is still in flight, with the timing that its chunks give.
  pub record Timed (xs : List Arrival) (timing : TimingMetrics) (found : Option (Turn Any A))
      : Type 0 where
    pub turn : Turn Any A
    pub in_flight : found ≡ some turn
    pub timing_then : TimingMetrics
    pub timed : turn.timing ≡ some timing_then
    pub first_byte :
        timing_then.first_byte_received_at ≡ or_else timing.first_byte_received_at (first_sight xs)
    pub closed : timing_then.stream_closed_at ≡ or_else (last_close xs) timing.stream_closed_at
    pub dispatched : timing_then.request_dispatched_at ≡ timing.request_dispatched_at

  dispatched-mark_all :
      (xs : List Arrival) (timing : TimingMetrics)
      → (mark_all xs timing).request_dispatched_at ≡ timing.request_dispatched_at
  unfolding mark_all mark_timing
  dispatched-mark_all [] timing = refl
  dispatched-mark_all (a ∷ xs) timing = dispatched-mark_all xs (mark_timing a.chunk a.mono timing)

  record Kept (timing : TimingMetrics) (found : Option (Turn Any A)) : Type 0 where
    turn : Turn Any A
    in_flight : found ≡ some turn
    timed : turn.timing ≡ some timing

  record_all-Kept :
      (t : ActiveTurnTracker Any A) (cid : String) (xs : List Arrival) (turn : Turn Any A)
      (timing : TimingMetrics)
      → get_turn Any A t cid ≡ some turn
      → turn.timing ≡ some timing
      → Kept (mark_all xs timing) (get_turn Any A (record_all t cid xs) cid)
  unfolding record_all mark_all with_chunk
  record_all-Kept t cid [] turn timing h k = record { turn = turn; in_flight = h; timed = k }
  record_all-Kept t cid (a ∷ xs) turn timing h k =
      record_all-Kept (record_chunk Any A t cid a.chunk a.mono a.wall).0 cid xs
        (with_chunk Any A a.chunk a.mono turn) (mark_timing a.chunk a.mono timing)
        (get-record_chunk t cid a turn h) (rw k refl)

  -- Over any chunks of a turn in flight whose timing is recorded, the turn stays in flight; the first byte's
  -- time is that of the first chunk that is not blank, unless it was set before, and later chunks do not
  -- change it; the stream's end is the time of the last empty chunk; the time of dispatch stays.
  pub record_all-Timed :
      (t : ActiveTurnTracker Any A) (cid : String) (xs : List Arrival) (turn : Turn Any A)
      (timing : TimingMetrics)
      → get_turn Any A t cid ≡ some turn
      → turn.timing ≡ some timing
      → Timed xs timing (get_turn Any A (record_all t cid xs) cid)
  record_all-Timed t cid xs turn timing h k =
      let kept = record_all-Kept t cid xs turn timing h k in
      record {
        turn = kept.turn;
        in_flight = kept.in_flight;
        timing_then = mark_all xs timing;
        timed = kept.timed;
        first_byte = mark_all-first xs timing;
        closed = mark_all-close xs timing;
        dispatched = dispatched-mark_all xs timing;
      }
