-- ===== src/Egress/RingBuffer/Bounds.antt =====
-- interceptor/egress/ring_buffer.py: the buffer's size, and the account of its items.
use ctxins.Base.{
  ℕ, ◌+◌, ◌-◌, ◌≤◌, ◌<◌, ◌≡◌, List, [], ◌∷◌, ◌++◌, arith, length, length-append, length-drop,
  length-take, ok,
}
use ctxins.Egress.RingBuffer.{
  Bytes, BoundedRingBuffer, init, deque_append, deque_appendleft, Call, pushed, popped, unpopped,
  cleared, step, run,
}

pub record IsValid (b : BoundedRingBuffer) : Type 0 where
  pub positive : 0 < b.capacity
  pub bounded : length b.queue ≤ b.capacity

-- A fresh buffer is valid, empty, and has the capacity that was asked for.
pub init-IsValid :
    (capacity : ℕ) {b : BoundedRingBuffer}
    → init capacity ≡ ok b
    → IsValid b × (b.queue ≡ []) × (b.capacity ≡ capacity) × (b.dropped_count ≡ 0)
unfolding init
init-IsValid capacity h = ground arith

pub length-deque_append :
    (maxlen : ℕ) (q : List Bytes) (x : Bytes)
    → length (deque_append maxlen q x) ≡ length q + 1 - (length q + 1 - maxlen)
unfolding deque_append
length-deque_append maxlen q x =
    omega
      (arith, length-drop (length (q ++ x ∷ []) - maxlen) (q ++ x ∷ []), length-append q (x ∷ []))

length-deque_appendleft :
    (maxlen : ℕ) (q : List Bytes) (x : Bytes)
    → length q < maxlen
    → length (deque_appendleft maxlen q x) ≡ length q + 1
unfolding deque_appendleft
length-deque_appendleft maxlen q x h = omega (arith, length-take maxlen (x ∷ q))

pub step-IsValid : (b : BoundedRingBuffer) (c : Call) → IsValid b → IsValid (step b c).0
unfolding step
step-IsValid b (pushed item) v = ground (arith, length-deque_append b.capacity b.queue item)
step-IsValid b popped v = ground arith
step-IsValid b (unpopped item) v = ground (arith, length-deque_appendleft b.capacity b.queue item)
step-IsValid b cleared v = ground arith

-- A valid buffer stays valid under any calls.
pub run-IsValid : (b : BoundedRingBuffer) (calls : List Call) → IsValid b → IsValid (run b calls).0
unfolding run
run-IsValid b [] v = v
run-IsValid b (c ∷ calls) v = run-IsValid (step b c).0 calls (step-IsValid b c v)

-- How many items a call hands to the buffer; `clear` is not counted, and excluded where that matters.
abbrev pub enters : Call → ℕ
enters (pushed item) = 1
enters popped = 0
enters (unpopped item) = 1
enters cleared = 0

abbrev pub entered : List Call → ℕ
entered [] = 0
entered (c ∷ calls) = enters c + entered calls

abbrev pub NoClear : List Call → Type 0
NoClear [] = Unit
NoClear (cleared ∷ calls) = ⊥
NoClear (pushed _ ∷ calls) = NoClear calls
NoClear (popped ∷ calls) = NoClear calls
NoClear (unpopped _ ∷ calls) = NoClear calls

-- What the buffer accounts for: the items in it and those that it dropped.
abbrev pub account : BoundedRingBuffer → ℕ
account b = length b.queue + b.dropped_count

step-account :
    (b : BoundedRingBuffer) (c : Call)
    → IsValid b
    → NoClear (c ∷ [])
    → account (step b c).0 + length (step b c).1 ≡ account b + enters c
unfolding step
step-account b (pushed item) v h = ground (arith, length-deque_append b.capacity b.queue item)
step-account b popped v h = ground arith
step-account b (unpopped item) v h = ground (arith, length-deque_appendleft b.capacity b.queue item)
step-account b cleared v h = absurd h

run-account-step :
    (b : BoundedRingBuffer) (c : Call) (calls : List Call)
    → account (step b c).0 + length (step b c).1 ≡ account b + enters c
    → account (run (step b c).0 calls).0 + length (run (step b c).0 calls).1
      ≡ account (step b c).0 + entered calls
    → account (run b (c ∷ calls)).0 + length (run b (c ∷ calls)).1 ≡ account b + entered (c ∷ calls)
unfolding run
run-account-step b c calls h k =
    omega (arith, length-append (step b c).1 (run (step b c).0 calls).1)

pub run-account :
    (b : BoundedRingBuffer) (calls : List Call)
    → IsValid b
    → NoClear calls
    → account (run b calls).0 + length (run b calls).1 ≡ account b + entered calls
run-account b [] v h = unfold run in omega arith
run-account b (pushed x ∷ calls) v h =
    run-account-step b (pushed x) calls (step-account b (pushed x) v tt)
      (run-account (step b (pushed x)).0 calls (step-IsValid b (pushed x) v) h)
run-account b (popped ∷ calls) v h =
    run-account-step b popped calls (step-account b popped v tt)
      (run-account (step b popped).0 calls (step-IsValid b popped v) h)
run-account b (unpopped x ∷ calls) v h =
    run-account-step b (unpopped x) calls (step-account b (unpopped x) v tt)
      (run-account (step b (unpopped x)).0 calls (step-IsValid b (unpopped x) v) h)
run-account b (cleared ∷ calls) v h = absurd h
