-- ===== src/Presentation/Broadcaster.antt =====
-- presentation/broadcaster.py: `PresentationBroadcaster`. A queue is asyncio's: one of size 0 has no bound.
-- The set of subscribers is a dict from a queue's identity, which the caller of `subscribe` gives. Each method
-- runs under the locks.
pub mod Slow
use ctxins.Base.{
  ℕ, zero, suc, ◌+◌, ◌≤◌, ◌≡◌, refl, ap, ◌∙◌, Bool, ltb, leb, ◌==◌, nat_eq, ◌&&◌, List, [], ◌∷◌,
  ◌++◌, append-nil, append_assoc, length, length-append, take, take_all, arith, Option, none, some,
  if◌then◌else◌, All, Bool-cases, inl, inr,
}
use ctxins.Base.Dict.{Dict, insert, remove}

pub record Queue (E : Type 0) : Type 0 where
  pub maxsize : ℕ
  pub items : List E

pub record PresentationBroadcaster (E : Type 0) : Type 0 where
  pub queue_capacity : ℕ
  pub subscribers : Dict ℕ (Queue E)

module _ {E : Type 0} where
  abbrev pub new_broadcaster : ℕ → PresentationBroadcaster E
  new_broadcaster queue_capacity = record { queue_capacity = queue_capacity; subscribers = [] }

  unfoldable pub subscriber_count : PresentationBroadcaster E → ℕ
  subscriber_count b = length b.subscribers

  -- `queue.put_nowait(event)`; none where it raises `QueueFull`
  unfoldable pub put_nowait : Queue E → E → Option (Queue E)
  put_nowait q event =
      if ltb 0 q.maxsize && leb q.maxsize (length q.items)
      then none
      else some (record q { items = q.items ++ event ∷ [] })

  unfoldable pub offer : E → Queue E → Queue E
  offer event q = elim (put_nowait q event) [ none ↦ q | some q' ↦ q' ]

  unfoldable pub offer_each : E → Dict ℕ (Queue E) → Dict ℕ (Queue E)
  offer_each event [] = []
  offer_each event ((k, q) ∷ d) = (k, offer event q) ∷ offer_each event d

  unfoldable pub publish_nowait : PresentationBroadcaster E → E → PresentationBroadcaster E
  publish_nowait b event = record b { subscribers = offer_each event b.subscribers }

  unfoldable pub publish_all : PresentationBroadcaster E → List E → PresentationBroadcaster E
  publish_all b [] = b
  publish_all b (event ∷ events) = publish_all (publish_nowait b event) events

  -- `subscribe(capacity)`, with the new queue's identity
  unfoldable pub subscribe : PresentationBroadcaster E → ℕ → Option ℕ → PresentationBroadcaster E
  subscribe b queue capacity =
      let cap : ℕ = elim capacity [ none ↦ b.queue_capacity | some n ↦ n ] in
      record b { subscribers = insert queue (record { maxsize = cap; items = [] }) b.subscribers }

  unfoldable pub unsubscribe : PresentationBroadcaster E → ℕ → PresentationBroadcaster E
  unsubscribe b queue = record b { subscribers = remove queue b.subscribers }

  -- What a queue holds of what it held and what came, where nothing is taken from it.
  unfoldable pub fill : List E → Queue E → Queue E
  fill events q = record q {
    items = if q.maxsize == 0 then q.items ++ events else take q.maxsize (q.items ++ events);
  }

  unfoldable pub fill_each : List E → Dict ℕ (Queue E) → Dict ℕ (Queue E)
  fill_each events [] = []
  fill_each events ((k, q) ∷ d) = (k, fill events q) ∷ fill_each events d
