-- ===== src/Egress/RingBuffer/Order.antt =====
-- interceptor/egress/ring_buffer.py: the order of the items in the buffer.
use mathlib.Core.List.{Sublist}
use mathlib.Core.List.Sublist
use ctxins.Base.{
  ℕ, zero, suc, ◌+◌, ◌-◌, ◌≤◌, ◌≡◌, refl, ap, List, [], ◌∷◌, ◌++◌, none, some, arith, append_assoc,
  append-nil, sym, subst, ◌∙◌, length, length-append, drop, take_all, newest, newest-append,
}
use ctxins.Egress.RingBuffer.{
  Bytes, BoundedRingBuffer, push, pop, unpop, pop_left, Call, pushed, popped, unpopped, cleared,
  step, run, taken,
}
use ctxins.Egress.RingBuffer.Bounds.{IsValid, step-IsValid, length-deque_append}

-- Pushes, one after the other.
unfoldable pub push_all : BoundedRingBuffer → List Bytes → BoundedRingBuffer
push_all b [] = b
push_all b (x ∷ xs) = push_all (push b x).0 xs

unpop-pop_at :
    (b : BoundedRingBuffer) (q : List Bytes) (item : Bytes)
    → length q ≤ b.capacity
    → (pop_left b q).1 ≡ some item
    → b.queue ≡ q
    → unpop (pop_left b q).0 item ≡ b
unfolding unpop pop_left
unpop-pop_at b [] item v h e = ground arith
unpop-pop_at b (x ∷ q) item v h e = ground (arith, take_all b.capacity (x ∷ q) v)

-- Whatever is popped from a valid buffer goes back to the front: `unpop` after `pop` gives the
-- same buffer back, and nothing is counted as dropped.
pub unpop-pop :
    (b : BoundedRingBuffer) (item : Bytes)
    → IsValid b
    → (pop b).1 ≡ some item
    → unpop (pop b).0 item ≡ b
unfolding pop
unpop-pop b item v h = unpop-pop_at b b.queue item v.bounded h refl

drop-zero : (n : ℕ) (xs : List Bytes) → n ≡ 0 → drop n xs ≡ xs
drop-zero n xs h = ap (λ k. drop k xs) h

length-push :
    (b : BoundedRingBuffer) (x : Bytes)
    → length b.queue ≤ b.capacity
    → length (push b x).0.queue ≡ length b.queue + 1 - (length b.queue + 1 - b.capacity)
unfolding push
length-push b x v = length-deque_append b.capacity b.queue x

dropped-push :
    (b : BoundedRingBuffer) (x : Bytes)
    → length b.queue ≤ b.capacity
    → (push b x).0.dropped_count ≡ b.dropped_count + (length b.queue + 1 - b.capacity)
unfolding push
dropped-push b x v = ground arith

capacity-push : (b : BoundedRingBuffer) (x : Bytes) → (push b x).0.capacity ≡ b.capacity
unfolding push
capacity-push b x = refl

queue-push :
    (b : BoundedRingBuffer) (x : Bytes) → (push b x).0.queue ≡ newest b.capacity (b.queue ++ x ∷ [])
unfolding push
queue-push b x = refl

queue-push_all :
    (b : BoundedRingBuffer) (xs : List Bytes)
    → length b.queue ≤ b.capacity
    → (push_all b xs).queue ≡ newest b.capacity (b.queue ++ xs)
unfolding push_all
queue-push_all b [] v = rw append-nil (sym (drop-zero _ b.queue (omega arith)))
queue-push_all b (x ∷ xs) v =
    queue-push_all (push b x).0 xs (omega (arith, length-push b x v, capacity-push b x))
    ∙ rw (capacity-push b x, queue-push b x)
        (newest-append b.capacity (b.queue ++ x ∷ []) xs
          ∙ ap (newest b.capacity) (append_assoc b.queue (x ∷ []) xs))

dropped-push_all :
    (b : BoundedRingBuffer) (xs : List Bytes)
    → length b.queue ≤ b.capacity
    → (push_all b xs).dropped_count ≡ b.dropped_count + (length b.queue + length xs - b.capacity)
unfolding push_all
dropped-push_all b [] v = omega arith
dropped-push_all b (x ∷ xs) v = omega (
  arith,
  length-push b x v,
  capacity-push b x,
  dropped-push b x v,
  dropped-push_all (push b x).0 xs (omega (arith, length-push b x v, capacity-push b x)),
)

pub capacity-push_all :
    (b : BoundedRingBuffer) (xs : List Bytes) → (push_all b xs).capacity ≡ b.capacity
unfolding push_all
capacity-push_all b [] = refl
capacity-push_all b (x ∷ xs) = capacity-push_all (push b x).0 xs ∙ capacity-push b x

-- Pushes for which there is room append the items to the queue.
pub queue-push_all_fitting :
    (b : BoundedRingBuffer) (xs : List Bytes)
    → length b.queue + length xs ≤ b.capacity
    → (push_all b xs).queue ≡ b.queue ++ xs
queue-push_all_fitting b xs room =
    queue-push_all b xs (omega arith)
    ∙ drop-zero _ (b.queue ++ xs) (omega (arith, length-append b.queue xs))

push-IsValid : (b : BoundedRingBuffer) (x : Bytes) → IsValid b → IsValid (push b x).0
push-IsValid b x v = unfold step in step-IsValid b (pushed x) v

pub push_all-IsValid :
    (b : BoundedRingBuffer) (xs : List Bytes) → IsValid b → IsValid (push_all b xs)
unfolding push_all
push_all-IsValid b [] v = v
push_all-IsValid b (x ∷ xs) v = push_all-IsValid (push b x).0 xs (push-IsValid b x v)

-- A buffer into which items are only pushed holds the newest ones, at most as many as its capacity
-- and in the order of arrival, and counts all the older ones as dropped.
pub push_all-newest :
    (b : BoundedRingBuffer) (xs : List Bytes)
    → IsValid b
    → ((push_all b xs).queue ≡ newest b.capacity (b.queue ++ xs))
      × ((push_all b xs).dropped_count
          ≡ b.dropped_count + (length b.queue + length xs - b.capacity))
push_all-newest b xs v = (queue-push_all b xs v.bounded, dropped-push_all b xs v.bounded)

-- Calls by a producer that pushes and a consumer that pops, and nothing else.
abbrev pub OnlyQueued : List Call → Type 0
OnlyQueued [] = Unit
OnlyQueued (pushed _ ∷ calls) = OnlyQueued calls
OnlyQueued (popped ∷ calls) = OnlyQueued calls
OnlyQueued (unpopped _ ∷ calls) = ⊥
OnlyQueued (cleared ∷ calls) = ⊥

-- The items that the calls push, in their order.
abbrev pub arrivals : List Call → List Bytes
arrivals [] = []
arrivals (pushed x ∷ calls) = x ∷ arrivals calls
arrivals (popped ∷ calls) = arrivals calls
arrivals (unpopped _ ∷ calls) = arrivals calls
arrivals (cleared ∷ calls) = arrivals calls

drop-sublist : (n : ℕ) (xs : List Bytes) → Sublist (drop n xs) xs
drop-sublist zero xs = Sublist.refl xs
drop-sublist (suc n) [] = Sublist.refl []
drop-sublist (suc n) (x ∷ xs) = Sublist.cons x (drop-sublist n xs)

popped-sublist :
    (b : BoundedRingBuffer) (q outs rest later : List Bytes)
    → b.queue ≡ q
    → Sublist (outs ++ rest) ((pop_left b q).0.queue ++ later)
    → Sublist ((taken (pop_left b q).1 ++ outs) ++ rest) (q ++ later)
unfolding pop_left
popped-sublist b [] outs rest later e s = rw e at s
popped-sublist b (x ∷ q) outs rest later e s = Sublist.cons-cons x s

pushed-sublist :
    (b : BoundedRingBuffer) (x : Bytes) (later : List Bytes)
    → Sublist ((push b x).0.queue ++ later) (b.queue ++ x ∷ later)
pushed-sublist b x later = rw (queue-push b x) (
    subst (Sublist (newest b.capacity (b.queue ++ x ∷ []) ++ later))
      (append_assoc b.queue (x ∷ []) later)
      (Sublist.append (drop-sublist _ (b.queue ++ x ∷ [])) (Sublist.refl later)))

-- First in, first out: whatever the interleaving of pushes and pops, the items popped, followed by
-- the items still in the buffer, are in the order of arrival; some that arrived may be missing.
pub run-sublist :
    (b : BoundedRingBuffer) (calls : List Call)
    → OnlyQueued calls
    → Sublist ((run b calls).1 ++ (run b calls).0.queue) (b.queue ++ arrivals calls)
unfolding run
run-sublist b [] h = rw append-nil (Sublist.refl b.queue)
run-sublist b (pushed x ∷ calls) h =
    Sublist.trans (run-sublist (push b x).0 calls h) (pushed-sublist b x (arrivals calls))
run-sublist b (popped ∷ calls) h =
    popped-sublist b b.queue (run (pop b).0 calls).1 (run (pop b).0 calls).0.queue (arrivals calls)
      refl (run-sublist (pop b).0 calls h)
run-sublist b (unpopped x ∷ calls) h = absurd h
run-sublist b (cleared ∷ calls) h = absurd h

pop_left-some :
    (b : BoundedRingBuffer) (q : List Bytes) (item : Bytes)
    → (pop_left b q).1 ≡ some item
    → q ≡ item ∷ (pop_left b q).0.queue
unfolding pop_left
pop_left-some b [] item h = cc
pop_left-some b (x ∷ q) item h = cc

-- A pop that returns an item takes it from the front.
pub pop-some :
    (b : BoundedRingBuffer) (item : Bytes)
    → (pop b).1 ≡ some item
    → b.queue ≡ item ∷ (pop b).0.queue
unfolding pop
pop-some b item h = pop_left-some b b.queue item h

capacity-pop_left :
    (b : BoundedRingBuffer) (q : List Bytes) → (pop_left b q).0.capacity ≡ b.capacity
unfolding pop_left
capacity-pop_left b [] = refl
capacity-pop_left b (x ∷ q) = refl

pop_left-none :
    (b : BoundedRingBuffer) (q : List Bytes) → (pop_left b q).1 ≡ none → (pop_left b q).0 ≡ b
unfolding pop_left
pop_left-none b [] h = refl
pop_left-none b (x ∷ q) h = cc

pub pop-none : (b : BoundedRingBuffer) → (pop b).1 ≡ none → (pop b).0 ≡ b
unfolding pop
pop-none b h = pop_left-none b b.queue h

pub capacity-pop : (b : BoundedRingBuffer) → (pop b).0.capacity ≡ b.capacity
unfolding pop
capacity-pop b = capacity-pop_left b b.queue

pub pop-IsValid : (b : BoundedRingBuffer) → IsValid b → IsValid (pop b).0
pop-IsValid b v = unfold step in step-IsValid b popped v
