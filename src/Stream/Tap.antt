-- ===== src/Stream/Tap.antt =====
-- interceptor/stream/passthrough.py: `StreamTap` and `StreamPassthrough`. The queue's
-- `put_nowait` is a parameter: it gives the queue that it leaves, or raises, `QueueFull` or another exception.
-- The clock gives one reading to each call. The bytes that `bytes.strip` takes for blank are written out. A
-- handler that is set already, `orig_stream`, is a parameter: for each chunk it gives one chunk, several, or
-- something else, or raises.
pub mod Delivery
mod Tests
use ctxins.Base.{
  Result, ok, raise, ◌>>=◌, Exception, value_error, type_error, key_error, os_error, stop_iteration,
  frame_decode_error, overflow_error, json_decode_error, recursion_error, queue_full,
  attribute_error, ℕ, Bool, true, false, not, ◌&&◌, ◌||◌, ◌==◌, leb, List, [], ◌∷◌, ◌++◌, Option,
  none, some, String, is_nil, if◌then◌else◌,
}
use ctxins.Wire.{TimingMetrics}

-- `(correlation_id, chunk, now)`
pub record Entry : Type 0 where
  pub correlation_id : String
  pub chunk : List ℕ
  pub at : ℕ

pub record StreamTap : Type 0 where
  pub correlation_id : String
  pub timing : Option TimingMetrics
  pub queue : List Entry
  pub first_chunk : Bool
  pub closed : Bool

unfoldable pub new_tap : String → Option TimingMetrics → List Entry → StreamTap
new_tap correlation_id timing queue = record {
  correlation_id = correlation_id;
  timing = timing;
  queue = queue;
  first_chunk = true;
  closed = false;
}

-- `len(chunk.strip()) > 0`: a byte that is no white space
unfoldable pub has_content : List ℕ → Bool
has_content [] = false
has_content (b ∷ bs) = not ((leb 9 b && leb b 13) || b == 32) || has_content bs

unfoldable pub mark_first : ℕ → Option TimingMetrics → Option TimingMetrics
mark_first now none = none
mark_first now (some timing) = some (record timing { first_byte_received_at = some now })

unfoldable pub mark_closed : ℕ → Option TimingMetrics → Option TimingMetrics
mark_closed now none = none
mark_closed now (some timing) = some (record timing { stream_closed_at = some now })

-- What the handler that was set before makes of a chunk.
pub data Transformed : Type 0 where
  one_chunk : List ℕ → Transformed
  many_chunks : List (List ℕ) → Transformed
  neither : Transformed
  broken : Exception → Transformed

-- What a call hands on to the client.
pub data Delivered : Type 0 where
  bytes : List ℕ → Delivered
  parts : List (List ℕ) → Delivered

-- `except asyncio.QueueFull`, which stands for `queue.Full` as well
unfoldable pub is_queue_full : Exception → Bool
is_queue_full queue_full = true
is_queue_full value_error = false
is_queue_full type_error = false
is_queue_full key_error = false
is_queue_full os_error = false
is_queue_full stop_iteration = false
is_queue_full frame_decode_error = false
is_queue_full overflow_error = false
is_queue_full json_decode_error = false
is_queue_full recursion_error = false
is_queue_full attribute_error = false

module _ (put_nowait : List Entry → Entry → Result (List Entry)) where
  -- `self.queue.put_nowait(...)`, with the exception that it raises, if any
  unfoldable pub put : ℕ → List ℕ → StreamTap → Option Exception × StreamTap
  put now chunk tap =
      elim (put_nowait tap.queue
        (record { correlation_id = tap.correlation_id; chunk = chunk; at = now })) [
          | ok queue ↦ (none, record tap { queue = queue })
          | raise x ↦ (some x, tap)
        ]

  -- The two `except` clauses of `close` let no exception out.
  unfoldable pub close : ℕ → StreamTap → StreamTap
  close now tap =
      if tap.closed
      then tap
      else (put now [] (record tap { closed = true; timing = mark_closed now tap.timing })).1

  -- The timing of the first chunk that is not blank.
  unfoldable pub note_first : ℕ → List ℕ → StreamTap → StreamTap
  note_first now chunk tap =
      if tap.first_chunk && has_content chunk
      then record tap { timing = mark_first now tap.timing; first_chunk = false }
      else tap

  -- The `try` around the put: whether it raises `QueueFull`, another exception, or none, the chunk is
  -- returned.
  unfoldable pub after_put : List ℕ → Option Exception × StreamTap → Result (List ℕ) × StreamTap
  after_put chunk (none, tap) = (ok chunk, tap)
  after_put chunk (some x, tap) = if is_queue_full x then (ok chunk, tap) else (ok chunk, tap)

  unfoldable pub process_chunk : ℕ → List ℕ → StreamTap → Result (List ℕ) × StreamTap
  process_chunk now [] tap = (ok [], close now tap)
  process_chunk now (b ∷ bs) tap =
      after_put (b ∷ bs) (put now (b ∷ bs) (note_first now (b ∷ bs) tap))

  unfoldable pub process_all : ℕ → List (List ℕ) → StreamTap → Result (List (List ℕ)) × StreamTap
  process_all now [] tap = (ok [], tap)
  process_all now (c ∷ cs) tap =
      let (here, tap') = process_chunk now c tap in
      let (later, tap'') = process_all now cs tap' in
      elim here [ ok c' ↦ (later >>= λ cs'. ok (c' ∷ cs'), tap'') | raise x ↦ (raise x, tap') ]

  abbrev as_bytes : Result (List ℕ) × StreamTap → Result Delivered × StreamTap
  as_bytes (r, tap) = (r >>= λ c. ok (bytes c), tap)

  unfoldable pub deliver :
      ℕ → List ℕ → Option Transformed → StreamTap → Result Delivered × StreamTap
  deliver now raw none tap = as_bytes (process_chunk now raw tap)
  deliver now raw (some (one_chunk c)) tap = as_bytes (process_chunk now c tap)
  deliver now raw (some (many_chunks cs)) tap =
      let (cs', tap') = process_all now cs tap in (cs' >>= λ ds. ok (parts ds), tap')
  deliver now raw (some neither) tap = as_bytes (process_chunk now raw tap)
  deliver now raw (some (broken x)) tap = (raise x, tap)

  module _ (orig_stream : Option (List ℕ → Transformed)) where
    abbrev pub transformed : List ℕ → Option Transformed
    transformed raw = elim orig_stream [ none ↦ none | some f ↦ some (f raw) ]

    -- `__call__` on a chunk, which the proxy makes for every one and, with an empty one, at the end; where
    -- something raises, the chunk goes on as it came
    unfoldable pub call : ℕ → List ℕ → StreamTap → Delivered × StreamTap
    call now raw tap =
        let (r, tap') = deliver now raw (transformed raw) tap in
        (elim r [ ok d ↦ d | raise x ↦ bytes raw ], tap')

    -- `_tee_iterable`: the chunks with the times at which they came, and the close at the end or when
    -- something raises, which ends the stream
    unfoldable pub tee_iterable :
        List (ℕ × List ℕ) → ℕ → StreamTap → (List Delivered × Option Exception) × StreamTap
    tee_iterable [] ending tap = (([], none), close ending tap)
    tee_iterable ((now, raw) ∷ items) ending tap =
        let (r, tap') = deliver now raw (transformed raw) tap in
        let ((later, error), tap'') = tee_iterable items ending tap' in
        elim r [
          | ok here ↦ ((here ∷ later, error), tap'')
          | raise x ↦ (([], some x), close ending tap')
        ]

  -- `StreamPassthrough.tee`
  unfoldable pub tee :
      String
      → Option TimingMetrics
      → List Entry
      → List (ℕ × List ℕ)
      → ℕ
      → (List Delivered × Option Exception) × StreamTap
  tee correlation_id timing queue items ending =
      tee_iterable none items ending (new_tap correlation_id timing queue)

  -- The exception that is left of two, where the later one is dropped if it is `QueueFull`.
  abbrev left_of : Option Exception → Option Exception → Option Exception
  left_of error none = error
  left_of error (some x) = if is_queue_full x then error else some x

  -- What `finally` of `_tee_async_generator` does.
  unfoldable pub end_async :
      Option Exception → ℕ → StreamTap → (List (List ℕ) × Option Exception) × StreamTap
  end_async error ending tap =
      let (later, tap') = put ending [] (record tap { timing = mark_closed ending tap.timing }) in
      (([], left_of error later), tap')

  -- `_tee_async_generator`: its loop, with `first_chunk`; only `QueueFull` is caught
  unfoldable pub tee_async_from :
      List (ℕ × List ℕ) → ℕ → StreamTap → (List (List ℕ) × Option Exception) × StreamTap
  tee_async_from [] ending tap = end_async none ending tap
  tee_async_from ((now, raw) ∷ items) ending tap =
      let (error, tap') = put now raw (note_first now raw tap) in
      let ((later, error'), tap'') = tee_async_from items ending tap' in
      elim (left_of none error) [
        | none ↦ ((raw ∷ later, error'), tap'')
        | some x ↦ end_async (some x) ending tap'
      ]

  unfoldable pub tee_async :
      String
      → Option TimingMetrics
      → List Entry
      → List (ℕ × List ℕ)
      → ℕ
      → (List (List ℕ) × Option Exception) × StreamTap
  tee_async correlation_id timing queue items ending =
      tee_async_from items ending (new_tap correlation_id timing queue)
