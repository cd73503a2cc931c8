-- ===== src/Egress/RingBuffer.antt =====
-- interceptor/egress/ring_buffer.py: `BoundedRingBuffer`. Each method runs under the buffer's lock,
-- so that a method is one step on the buffer's state. The proofs are in the modules below.
pub mod Bounds
pub mod Order
use ctxins.Base.{
  ℕ, ◌+◌, ◌-◌, Bool, true, List, [], ◌∷◌, ◌++◌, Option, none, some, length, take, drop, ltb, leb,
  ◌==◌, is_nil, if◌then◌else◌, Result, ok, raise, value_error,
}

-- `bytes`: its bytes as numbers
abbrev pub Bytes : Type 0
Bytes = List ℕ

pub record BoundedRingBuffer : Type 0 where
  pub capacity : ℕ
  pub queue : List Bytes
  pub dropped_count : ℕ

unfoldable pub init : ℕ → Result BoundedRingBuffer
init capacity =
    if leb capacity 0
    then raise value_error
    else ok (record { capacity = capacity; queue = []; dropped_count = 0 })

-- `deque.append` and `deque.appendleft` under `maxlen`: what does not fit falls off the other end
unfoldable pub deque_append : ℕ → List Bytes → Bytes → List Bytes
deque_append maxlen queue item =
    let longer = queue ++ item ∷ [] in drop (length longer - maxlen) longer

unfoldable pub deque_appendleft : ℕ → List Bytes → Bytes → List Bytes
deque_appendleft maxlen queue item = take maxlen (item ∷ queue)

unfoldable pub push : BoundedRingBuffer → Bytes → BoundedRingBuffer × Bool
unfolding deque_append
push b item =
    let dropped = if length b.queue == b.capacity then b.dropped_count + 1 else b.dropped_count in
    (record b { queue = deque_append b.capacity b.queue item; dropped_count = dropped }, true)

pop_left : BoundedRingBuffer → List Bytes → BoundedRingBuffer × Option Bytes
pop_left b [] = (b, none)
pop_left b (item ∷ rest) = (record b { queue = rest }, some item)

unfoldable pub pop : BoundedRingBuffer → BoundedRingBuffer × Option Bytes
unfolding pop_left
pop b = pop_left b b.queue

unfoldable pub unpop : BoundedRingBuffer → Bytes → BoundedRingBuffer
unfolding deque_appendleft
unpop b item =
    if ltb (length b.queue) b.capacity
    then record b { queue = deque_appendleft b.capacity b.queue item }
    else record b { dropped_count = b.dropped_count + 1 }

unfoldable pub is_empty : BoundedRingBuffer → Bool
is_empty b = length b.queue == 0

unfoldable pub is_full : BoundedRingBuffer → Bool
is_full b = leb b.capacity (length b.queue)

unfoldable pub clear : BoundedRingBuffer → BoundedRingBuffer
clear b = record b { queue = []; dropped_count = 0 }

-- A call of one of the methods that change the buffer, and a run of such calls, in the order in
-- which they take the lock, with the items that the pops returned.
pub data Call : Type 0 where
  pushed : Bytes → Call
  popped : Call
  unpopped : Bytes → Call
  cleared : Call

-- What a pop returned, as a list of at most one item.
abbrev pub taken : Option Bytes → List Bytes
taken none = []
taken (some item) = item ∷ []

unfoldable pub step : BoundedRingBuffer → Call → BoundedRingBuffer × List Bytes
unfolding push pop unpop clear
step b (pushed item) = ((push b item).0, [])
step b popped = let (b', item) = pop b in (b', taken item)
step b (unpopped item) = (unpop b item, [])
step b cleared = (clear b, [])

unfoldable pub run : BoundedRingBuffer → List Call → BoundedRingBuffer × List Bytes
unfolding step
run b [] = (b, [])
run b (c ∷ calls) = let (b', out) = step b c in let (b'', outs) = run b' calls in (b'', out ++ outs)
