-- ===== src/Stream/Tap/Delivery.antt =====
-- interceptor/stream/passthrough.py: what the client gets, and what the queue gets.
use ctxins.Base.{
  Result, Result-cases, ok, raise, Exception, some, ℕ, ◌+◌, is_nil, ◌≡◌, refl, ◌∙◌, true, ◌&&◌,
  List, [], ◌∷◌, ◌++◌, Option, none, String, if◌then◌else◌, if-keeps, Bool-cases, inl, inr, arith,
}
use ctxins.Wire.{TimingMetrics}
use ctxins.Stream.Tap.{
  Entry, StreamTap, new_tap, Delivered, bytes, parts, Transformed, one_chunk, many_chunks, neither,
  broken, is_queue_full, after_put, process_all, put, close, note_first, process_chunk, deliver,
  call, transformed, tee_iterable, tee, has_content,
}

-- What the client is to get for a chunk, by what the handler that was set before makes of it.
abbrev pub as_delivered : List ℕ → Option Transformed → Result Delivered
as_delivered raw none = ok (bytes raw)
as_delivered raw (some (one_chunk c)) = ok (bytes c)
as_delivered raw (some (many_chunks cs)) = ok (parts cs)
as_delivered raw (some neither) = ok (bytes raw)
as_delivered raw (some (broken x)) = raise x

abbrev pub put_first :
    Result Delivered → List Delivered × Option Exception → List Delivered × Option Exception
put_first (ok here) (later, error) = (here ∷ later, error)
put_first (raise x) later = ([], some x)

-- What it is to get of a stream, until the handler raises.
abbrev pub handed_on :
    Option (List ℕ → Transformed) → List (ℕ × List ℕ) → List Delivered × Option Exception
handed_on orig [] = ([], none)
handed_on orig ((now, raw) ∷ items) =
    put_first (as_delivered raw (elim orig [ none ↦ none | some f ↦ some (f raw) ]))
      (handed_on orig items)

module _ (put_nowait : List Entry → Entry → Result (List Entry)) where
  after_put-same :
      (chunk : List ℕ) (r : Option Exception × StreamTap)
      → (after_put put_nowait chunk r).0 ≡ ok chunk
  unfolding after_put
  after_put-same chunk (none, tap) = refl
  after_put-same chunk (some x, tap) =
      if-keeps (λ (r : Result (List ℕ) × StreamTap). r.0 ≡ ok chunk) (is_queue_full x) (λ _. refl)
        (λ _. refl)

  process_chunk-same :
      (now : ℕ) (raw : List ℕ) (tap : StreamTap) → (process_chunk put_nowait now raw tap).0 ≡ ok raw
  unfolding process_chunk
  process_chunk-same now [] tap = refl
  process_chunk-same now (b ∷ bs) tap = after_put-same (b ∷ bs) _

  process_all-same :
      (now : ℕ) (cs : List (List ℕ)) (tap : StreamTap)
      → (process_all put_nowait now cs tap).0 ≡ ok cs
  unfolding process_all
  process_all-same now [] tap = refl
  process_all-same now (c ∷ cs) tap =
      rw (process_chunk-same now c tap, process_all) (rw (process_all-same now cs _) refl)

  -- What a chunk is delivered as.
  deliver-same :
      (now : ℕ) (raw : List ℕ) (made : Option Transformed) (tap : StreamTap)
      → (deliver put_nowait now raw made tap).0 ≡ as_delivered raw made
  unfolding deliver
  deliver-same now raw none tap = rw (process_chunk-same now raw tap) refl
  deliver-same now raw (some (one_chunk c)) tap = rw (process_chunk-same now c tap) refl
  deliver-same now raw (some (many_chunks cs)) tap = rw (process_all-same now cs tap) refl
  deliver-same now raw (some neither) tap = rw (process_chunk-same now raw tap) refl
  deliver-same now raw (some (broken x)) tap = refl

  module _ (orig : Option (List ℕ → Transformed)) where
    -- One item of the stream, by what it is delivered as.
    tee_iterable-goes_on :
        (now : ℕ) (raw : List ℕ) (items : List (ℕ × List ℕ)) (ending : ℕ) (tap : StreamTap)
        (here : Delivered)
        → (deliver put_nowait now raw (transformed put_nowait orig raw) tap).0 ≡ ok here
        → tee_iterable put_nowait orig ((now, raw) ∷ items) ending tap ≡ (
            let tap' = (deliver put_nowait now raw (transformed put_nowait orig raw) tap).1 in
            let later = tee_iterable put_nowait orig items ending tap' in
            ((here ∷ later.0.0, later.0.1), later.1))
    unfolding tee_iterable
    tee_iterable-goes_on now raw items ending tap here h = rw (h, tee_iterable)

    tee_iterable-ends :
        (now : ℕ) (raw : List ℕ) (items : List (ℕ × List ℕ)) (ending : ℕ) (tap : StreamTap)
        {x : Exception}
        → (deliver put_nowait now raw (transformed put_nowait orig raw) tap).0 ≡ raise x
        → (tee_iterable put_nowait orig ((now, raw) ∷ items) ending tap).0 ≡ ([], some x)
    unfolding tee_iterable
    tee_iterable-ends now raw items ending tap h = rw (h, tee_iterable)

    -- The client gets every chunk of the stream in its order, as it came, or as what the handler that was set
    -- before makes of it, until that handler raises: a queue that is full, or that raises, takes nothing
    -- from the client.
    pub tee_iterable-handed_on :
        (items : List (ℕ × List ℕ)) (ending : ℕ) (tap : StreamTap)
        → (tee_iterable put_nowait orig items ending tap).0 ≡ handed_on orig items
    unfolding tee_iterable
    tee_iterable-handed_on [] ending tap = refl
    tee_iterable-handed_on ((now, raw) ∷ items) ending tap =
        let made = transformed put_nowait orig raw in
        let given = deliver-same now raw made tap in
        let tap' = (deliver put_nowait now raw made tap).1 in
        elim (Result-cases (as_delivered raw made)) [
          | inl (x, r) ↦ rw (tee_iterable-ends now raw items ending tap (given ∙ r), r) refl
          | inr (here, r) ↦
              rw
                (
                  tee_iterable-goes_on now raw items ending tap here (given ∙ r),
                  r,
                  tee_iterable-handed_on items ending tap',
                )
                refl
        ]

-- A queue that takes whatever it is given.
abbrev pub take_all : List Entry → Entry → Result (List Entry)
take_all queue e = ok (queue ++ e ∷ [])

abbrev eof : Entry → ℕ
eof e = if is_nil e.chunk then 1 else 0

-- The entries that tell the accumulators that the stream has ended.
abbrev pub eof_count : List Entry → ℕ
eof_count [] = 0
eof_count (e ∷ es) = eof e + eof_count es

-- The ends that a tap still owes.
abbrev pub owed : StreamTap → ℕ
owed tap = if tap.closed then 0 else 1

eof_count-append :
    (queue : List Entry) (e : Entry) → eof_count (queue ++ e ∷ []) ≡ eof_count queue + eof e
eof_count-append [] e = omega arith
eof_count-append (x ∷ queue) e = omega (arith, eof_count-append queue e)

-- The ends in the queue and the ones still owed.
abbrev due : StreamTap → ℕ
due tap = eof_count tap.queue + owed tap

close-due :
    (now : ℕ) (tap : StreamTap)
    → (due (close take_all now tap) ≡ due tap) × ((close take_all now tap).closed ≡ true)
unfolding close put
close-due now tap = elim (Bool-cases tap.closed) [
  | inl done ↦ rw done (refl, refl)
  | inr open_still ↦ rw open_still (
    ground (
      arith,
      eof_count-append tap.queue
          (record { correlation_id = tap.correlation_id; chunk = []; at = now }),
    ),
    refl,
  )
]

note_first-due :
    (now : ℕ) (raw : List ℕ) (tap : StreamTap) → due (note_first take_all now raw tap) ≡ due tap
unfolding note_first
note_first-due now raw tap =
    if-keeps (λ t. due t ≡ due tap) (tap.first_chunk && has_content raw) (λ _. refl) (λ _. refl)

process_chunk-due :
    (now : ℕ) (raw : List ℕ) (tap : StreamTap)
    → due (process_chunk take_all now raw tap).1 ≡ due tap
unfolding process_chunk put after_put
process_chunk-due now [] tap = (close-due now tap).0
process_chunk-due now (b ∷ bs) tap =
    let marked = note_first take_all now (b ∷ bs) tap in
    omega (
      arith,
      note_first-due now (b ∷ bs) tap,
      eof_count-append marked.queue
          (record { correlation_id = marked.correlation_id; chunk = b ∷ bs; at = now }),
    )

tee_iterable-due :
    (items : List (ℕ × List ℕ)) (ending : ℕ) (tap : StreamTap)
    → let tap' = (tee_iterable take_all none items ending tap).1 in
      (due tap' ≡ due tap) × (tap'.closed ≡ true)
unfolding tee_iterable call deliver
tee_iterable-due [] ending tap = close-due ending tap
tee_iterable-due ((now, raw) ∷ items) ending tap =
    let tap1 = (process_chunk take_all now raw tap).1 in
    let (balance, shut) = tee_iterable-due items ending tap1 in
    rw
      (tee_iterable-goes_on take_all none now raw items ending tap (bytes raw)
        (deliver-same take_all now raw none tap))
      (balance ∙ process_chunk-due now raw tap, shut)

-- A stream that is tapped from its start puts one end into a queue that takes everything, however many empty
-- chunks it has.
pub tee-eof_count :
    (correlation_id : String) (timing : Option TimingMetrics) (queue : List Entry)
    (items : List (ℕ × List ℕ)) (ending : ℕ)
    → eof_count (tee take_all correlation_id timing queue items ending).1.queue
      ≡ eof_count queue + 1
unfolding tee new_tap
tee-eof_count correlation_id timing queue items ending =
    let (balance, shut) = tee_iterable-due items ending (new_tap correlation_id timing queue) in
    ground arith
