-- ===== src/Egress/Client/Rounds.antt =====
-- interceptor/egress/uds_client.py: the worker's loop and the buffer.
use ctxins.Base.{
  ◌+◌, ◌≤◌, ◌<◌, ◌≡◌, refl, if-keeps, sym, ap, subst, ◌∙◌, true, false, not, ◌&&◌, List, [], ◌∷◌,
  ◌++◌, Option, none, some, arith, length, length-append, take, append_assoc, append-nil, Result,
  ok, raise,
}
use ctxins.Egress.RingBuffer.{Bytes, BoundedRingBuffer, pop, unpop}
use ctxins.Egress.RingBuffer.Bounds.{IsValid}
use ctxins.Egress.RingBuffer.Order.{
  push_all, push_all-IsValid, capacity-push_all, queue-push_all_fitting, capacity-pop, unpop-pop,
  pop-some, pop-none, pop-IsValid,
}
use ctxins.Egress.Framing.{max_payload_size, encode_frame, encode_frame-raise}
use ctxins.Egress.Client.Sending.{Wrote, send_frame-Wrote}
use ctxins.Egress.Client.{
  UdsClient, connect, disconnect, SendOutcome, finished, halted, failed, pending, send_frame,
  Answers, RoundEnd, unconnected, idle, took, crashed, after_send, ship, drain, ensure_connected,
  filled, egress_round, egress_loop, survives,
}

-- The payload that left the buffer for good in a round.
abbrev pub shipped : RoundEnd → List Bytes
shipped unconnected = []
shipped idle = []
shipped (took payload finished written) = payload ∷ []
shipped (took payload halted written) = payload ∷ []
shipped (took payload pending written) = payload ∷ []
shipped (took payload failed written) = []
shipped (crashed payload) = payload ∷ []

abbrev pub all_shipped : List RoundEnd → List Bytes
all_shipped [] = []
all_shipped (end ∷ ends) = shipped end ++ all_shipped ends

-- Rounds in which the proxy pushes nothing while a frame is being sent.
abbrev pub Quiet : List Answers → Type 0
Quiet [] = Unit
Quiet (a ∷ rounds) = (a.arriving ≡ []) × Quiet rounds

buffer-ensure_connected : (c : UdsClient) (a : Answers) → (ensure_connected c a).0.buffer ≡ c.buffer
unfolding ensure_connected connect disconnect
buffer-ensure_connected c a = ground arith

-- A round moves the buffer's front out, or leaves the buffer as it is.
record Moves (b : BoundedRingBuffer) (r : UdsClient × RoundEnd) : Type 0 where
  valid : IsValid r.0.buffer
  same_capacity : r.0.buffer.capacity ≡ b.capacity
  order : shipped r.1 ++ r.0.buffer.queue ≡ b.queue

module _ (b : BoundedRingBuffer) (payload : Bytes) (v : IsValid b)
    (taken : (pop b).1 ≡ some payload) where
  -- The payload is gone, and the rest of the buffer stays.
  gone :
      (c : UdsClient) (end : RoundEnd)
      → c.buffer ≡ (pop b).0
      → shipped end ≡ payload ∷ []
      → Moves b (c, end)
  gone c end same e = record {
    valid = rw same (pop-IsValid b v);
    same_capacity = rw same (capacity-pop b);
    order = rw (same, e) (sym (pop-some b payload taken));
  }

  after_send-Moves :
      (c : UdsClient) (outcome : SendOutcome) (written : Bytes)
      → c.buffer ≡ (pop b).0
      → Moves b (after_send c payload outcome, took payload outcome written)
  unfolding after_send disconnect
  after_send-Moves c finished written same = gone c _ same refl
  after_send-Moves c halted written same =
      gone (record c { running = false; stop_event = true }) _ same refl
  after_send-Moves c pending written same = gone c _ same refl
  after_send-Moves c failed written same =
      let back : unpop c.buffer payload ≡ b = rw same (unpop-pop b payload v taken) in
      record { valid = rw back v; same_capacity = rw back refl; order = rw back refl }

  ship-Moves :
      (c : UdsClient) (a : Answers) (frame : Result Bytes)
      → c.buffer ≡ (pop b).0
      → a.arriving ≡ []
      → Moves b (ship c a payload frame)
  unfolding ship push_all
  ship-Moves c a (raise x) same quiet = gone c (crashed payload) same refl
  ship-Moves c a (ok frame) same quiet =
      after_send-Moves (record c { buffer = push_all c.buffer a.arriving })
        (send_frame frame a.sending).0 (send_frame frame a.sending).1 (rw quiet same)

drain-Moves :
    (c : UdsClient) (a : Answers) (item : Option Bytes)
    → IsValid c.buffer
    → (pop c.buffer).1 ≡ item
    → a.arriving ≡ []
    → Moves c.buffer (drain c a (pop c.buffer).0 item)
unfolding drain
drain-Moves c a none v taken quiet =
    let same = pop-none c.buffer taken in
    record { valid = rw same v; same_capacity = rw same refl; order = rw same refl }
drain-Moves c a (some payload) v taken quiet =
    ship-Moves c.buffer payload v taken (record c { buffer = (pop c.buffer).0 }) a
      (encode_frame payload) refl quiet

egress_round-Moves :
    (c : UdsClient) (a : Answers)
    → IsValid c.buffer
    → a.arriving ≡ []
    → Moves (push_all c.buffer a.before) (egress_round c a)
unfolding egress_round filled
egress_round-Moves c a v quiet =
    let b = push_all c.buffer a.before in
    let ready = ensure_connected (record c { buffer = b }) a in
    let same = buffer-ensure_connected (record c { buffer = b }) a in
    let valid : IsValid ready.0.buffer = rw same (push_all-IsValid c.buffer a.before v) in
    if-keeps (Moves b) ready.1
      (λ _.
        subst (λ b'. Moves b' (drain ready.0 a (pop ready.0.buffer).0 (pop ready.0.buffer).1)) same
          (drain-Moves ready.0 a (pop ready.0.buffer).1 valid refl quiet))
      (λ _. record {
        valid = valid;
        same_capacity = ap (λ (r : BoundedRingBuffer). r.capacity) same;
        order = ap (λ (r : BoundedRingBuffer). r.queue) same;
      })

-- The payloads that the proxy pushes before the rounds take their items.
abbrev pub all_before : List Answers → List Bytes
all_before [] = []
all_before (a ∷ rounds) = a.before ++ all_before rounds

-- Room for all that the rounds bring, so that the buffer drops nothing.
abbrev pub HasRoom : BoundedRingBuffer → List Answers → Type 0
HasRoom b rounds = length b.queue + length (all_before rounds) ≤ b.capacity

-- The order of the whole run, from that of its first round and of the rest.
order-cons :
    (s later q'' q b m q' : List Bytes)
    → s ++ q' ≡ q ++ b
    → later ++ q'' ≡ q' ++ m
    → (s ++ later) ++ q'' ≡ q ++ (b ++ m)
order-cons s later q'' q b m q' h k =
    append_assoc s later q''
    ∙ ap (λ l. s ++ l) k
    ∙ sym (append_assoc s q' m)
    ∙ ap (λ l. l ++ m) h
    ∙ append_assoc q b m

-- The room that a round leaves for the later ones.
HasRoom-cons :
    (b b' : BoundedRingBuffer) (before later s : List Bytes)
    → length b.queue + length (before ++ later) ≤ b.capacity
    → b'.capacity ≡ b.capacity
    → s ++ b'.queue ≡ b.queue ++ before
    → length b'.queue + length later ≤ b'.capacity
HasRoom-cons b b' before later s room same order = omega (
  arith,
  same,
  length-append before later,
  length-append s b'.queue,
  length-append b.queue before,
  ap (length {A = Bytes}) order,
)

-- A round, seen from the buffer as it was before the round's pushes.
round-order :
    (c : UdsClient) (a : Answers) (later : List Bytes)
    → length c.buffer.queue + length (a.before ++ later) ≤ c.buffer.capacity
    → Moves (push_all c.buffer a.before) (egress_round c a)
    → shipped (egress_round c a).1 ++ (egress_round c a).0.buffer.queue ≡ c.buffer.queue ++ a.before
round-order c a later room one =
    one.order
    ∙ queue-push_all_fitting c.buffer a.before (omega (arith, length-append a.before later))

abbrev pub InOrder : UdsClient → List Answers → UdsClient × List RoundEnd → Type 0
InOrder c rounds r =
    IsValid r.0.buffer
    × (all_shipped r.1 ++ r.0.buffer.queue
        ≡ c.buffer.queue ++ all_before (take (length r.1) rounds))

-- The worker takes the payloads in order and loses none to a broken connection: over any rounds in which
-- nothing is pushed while a frame is sent, whatever is pushed before a round takes its item, and whatever
-- the socket answers, if a valid buffer has room for all that is pushed, then the payloads that left it
-- for good, in the order in which they left, followed by those still in it, are the payloads that the
-- buffer held, followed by those pushed before the rounds that the worker ran. A payload whose sending
-- failed thus comes again before any later one. The buffer stays valid.
pub egress_loop-InOrder :
    (c : UdsClient) (rounds : List Answers)
    → IsValid c.buffer
    → HasRoom c.buffer rounds
    → Quiet rounds
    → InOrder c rounds (egress_loop c rounds)
unfolding egress_loop
egress_loop-InOrder c [] v room quiet = (v, sym (append-nil c.buffer.queue))
egress_loop-InOrder c (a ∷ rounds) v room quiet =
    let now = egress_round c a in
    let one = egress_round-Moves c a v quiet.0 in
    let moved = round-order c a (all_before rounds) room one in
    let left =
      HasRoom-cons c.buffer now.0.buffer a.before (all_before rounds) (shipped now.1) room
        (one.same_capacity ∙ capacity-push_all c.buffer a.before) moved in
    let (valid, order) = egress_loop-InOrder now.0 rounds one.valid left quiet.1 in
    if-keeps (InOrder c (a ∷ rounds)) (c.running && not c.stop_event)
      (λ _.
        if-keeps (InOrder c (a ∷ rounds)) (survives now.1)
          (λ _. (valid, order-cons (shipped now.1) _ _ c.buffer.queue a.before _ _ moved order))
          (λ _. (
            one.valid,
            order-cons (shipped now.1) [] _ c.buffer.queue a.before [] _ moved
                (sym (append-nil now.0.buffer.queue)),
          )))
      (λ _. (v, sym (append-nil c.buffer.queue)))

-- A payload that a round reports as sent was written to the socket as one whole frame; one whose
-- sending failed leaves the client without a connection.
abbrev pub Reported : UdsClient × RoundEnd → Type 0
Reported (c, took payload finished written) = encode_frame payload ≡ ok written
Reported (c, took payload failed written) = c.connected ≡ false
Reported (c, took payload halted written) = Unit
Reported (c, took payload pending written) = Unit
Reported (c, unconnected) = Unit
Reported (c, idle) = Unit
Reported (c, crashed payload) = max_payload_size < length payload

after_send-Reported :
    (c : UdsClient) (payload frame : Bytes) (outcome : SendOutcome) (written : Bytes)
    → encode_frame payload ≡ ok frame
    → Wrote frame (outcome, written)
    → Reported (after_send c payload outcome, took payload outcome written)
unfolding after_send disconnect
after_send-Reported c payload frame finished written e w = rw (w.complete.0 refl) e
after_send-Reported c payload frame halted written e w = tt
after_send-Reported c payload frame pending written e w = tt
after_send-Reported c payload frame failed written e w = refl

ship-Reported :
    (c : UdsClient) (a : Answers) (payload : Bytes) (frame : Result Bytes)
    → encode_frame payload ≡ frame
    → Reported (ship c a payload frame)
unfolding ship
ship-Reported c a payload (raise x) e = encode_frame-raise payload e
ship-Reported c a payload (ok frame) e =
    after_send-Reported (record c { buffer = push_all c.buffer a.arriving }) payload frame
      (send_frame frame a.sending).0 (send_frame frame a.sending).1 e
      (send_frame-Wrote frame a.sending)

drain-Reported :
    (c : UdsClient) (a : Answers) (b : BoundedRingBuffer) (item : Option Bytes)
    → Reported (drain c a b item)
unfolding drain
drain-Reported c a b none = tt
drain-Reported c a b (some payload) =
    ship-Reported (record c { buffer = b }) a payload (encode_frame payload) refl

-- What a round of the worker's loop reports is true of the socket, whatever it answers: a payload that
-- counts as sent was written as one whole frame, one that failed leaves no connection, and the worker
-- ends only over a payload that has no frame.
pub egress_round-Reported : (c : UdsClient) (a : Answers) → Reported (egress_round c a)
unfolding egress_round filled
egress_round-Reported c a =
    let ready = ensure_connected (filled c a) a in
    if-keeps Reported ready.1
      (λ _. drain-Reported ready.0 a (pop ready.0.buffer).0 (pop ready.0.buffer).1) (λ _. tt)
