-- ===== src/Presentation/Broadcaster/Slow.antt =====
-- presentation/broadcaster.py: what a subscriber that takes nothing is left with.
use ctxins.Base.{
  ℕ, ◌≤◌, ◌<◌, ◌≡◌, refl, ap, ◌∙◌, ltb, ◌==◌, List, [], ◌∷◌, ◌++◌, append-nil, append_assoc, length,
  length-append, take, take_all, take-append_le, arith, if◌then◌else◌, All, Bool-cases, inl, inr,
  ◌⊎◌,
}
use ctxins.Base.Dict.{Dict, values}
use ctxins.Presentation.Broadcaster.{
  Queue, PresentationBroadcaster, put_nowait, offer, offer_each, publish_nowait, publish_all, fill,
  fill_each,
}

-- A queue that holds no more than it may.
abbrev pub IsBounded : {E : Type 0} → Queue E → Type 0
IsBounded q = (q.maxsize ≡ 0) ⊎ (length q.items ≤ q.maxsize)

module _ {E : Type 0} where
  offer-free :
      (event : E) (q : Queue E)
      → q.maxsize ≡ 0
      → offer event q ≡ record q { items = q.items ++ event ∷ [] }
  unfolding offer put_nowait
  offer-free event q h = ground arith

  offer-room :
      (event : E) (q : Queue E)
      → length q.items < q.maxsize
      → offer event q ≡ record q { items = q.items ++ event ∷ [] }
  unfolding offer put_nowait
  offer-room event q h = ground arith

  offer-full :
      (event : E) (q : Queue E) → 0 < q.maxsize → length q.items ≡ q.maxsize → offer event q ≡ q
  unfolding offer put_nowait
  offer-full event q h e = ground arith

  -- An offer to a bounded queue: there is no limit, there is room, or the queue is full.
  data Offer (q : Queue E) : Type 0 where
    free : q.maxsize ≡ 0 → Offer q
    room : length q.items < q.maxsize → Offer q
    full : 0 < q.maxsize → length q.items ≡ q.maxsize → Offer q

  offer-case : (q : Queue E) → IsBounded q → Offer q
  offer-case q (inl e) = free e
  offer-case q (inr h) = elim (Bool-cases (ltb (length q.items) q.maxsize)) [
    | inl less ↦ room (ground arith)
    | inr not_less ↦ elim (Bool-cases (q.maxsize == 0)) [
      | inl unbounded ↦ free (ground arith)
      | inr bounded ↦ full (ground arith) (ground arith)
    ]
  ]

  offer-IsBounded : (event : E) (q : Queue E) → IsBounded q → IsBounded (offer event q)
  offer-IsBounded event q h = elim (offer-case q h) [
    | free e ↦ rw (offer-free event q e) (inl e)
    | room less ↦
        rw (offer-room event q less) (inr (rw (length-append q.items (event ∷ [])) (omega arith)))
    | full some_size e ↦ rw (offer-full event q some_size e) h
  ]

  fill-nil : (q : Queue E) → IsBounded q → fill [] q ≡ q
  unfolding fill
  fill-nil q h = ap (λ (items : List E). record q { items = items }) (kept h)
    where
      kept :
          IsBounded q
          → (if q.maxsize == 0 then q.items ++ [] else take q.maxsize (q.items ++ [])) ≡ q.items
      kept (inl e) = rw e (append-nil q.items)
      kept (inr small) = rw (append-nil) (ground (arith, take_all q.maxsize q.items small))

  fill-offer :
      (event : E) (events : List E) (q : Queue E)
      → IsBounded q
      → fill events (offer event q) ≡ fill (event ∷ events) q
  unfolding fill
  fill-offer event events q h = elim (offer-case q h) [
    | free e ↦ rw (offer-free event q e, append_assoc) refl
    | room less ↦ rw (offer-room event q less, append_assoc) refl
    | full some_size e ↦ rw (offer-full event q some_size e) (
        ap (λ (items : List E). record q { items = items })
          (ground (
            arith,
            take-append_le q.maxsize q.items events (omega arith),
            take-append_le q.maxsize q.items (event ∷ events) (omega arith),
          )))
  ]

  offer_each-IsBounded :
      (event : E) (d : Dict ℕ (Queue E))
      → All IsBounded (values d)
      → All IsBounded (values (offer_each event d))
  unfolding offer_each
  offer_each-IsBounded event [] h = tt
  offer_each-IsBounded event ((k, q) ∷ d) h =
      (offer-IsBounded event q h.0, offer_each-IsBounded event d h.1)

  fill_each-nil : (d : Dict ℕ (Queue E)) → All IsBounded (values d) → fill_each [] d ≡ d
  unfolding fill_each
  fill_each-nil [] h = refl
  fill_each-nil ((k, q) ∷ d) h = rw (fill-nil q h.0, fill_each-nil d h.1) refl

  fill_each-offer_each :
      (event : E) (events : List E) (d : Dict ℕ (Queue E))
      → All IsBounded (values d)
      → fill_each events (offer_each event d) ≡ fill_each (event ∷ events) d
  unfolding fill_each offer_each
  fill_each-offer_each event events [] h = refl
  fill_each-offer_each event events ((k, q) ∷ d) h =
      rw (fill-offer event events q h.0, fill_each-offer_each event events d h.1) refl

  -- Where every queue holds no more than it may, publishing any events that no subscriber takes leaves each
  -- with the first of what it held and of the events, in their order, up to its size, or with all of them
  -- if it has no size: a slow subscriber misses the latest events, and no other one is touched by it.
  pub publish_all-fill_each :
      (events : List E) (b : PresentationBroadcaster E)
      → All IsBounded (values b.subscribers)
      → publish_all b events ≡ record b { subscribers = fill_each events b.subscribers }
  unfolding publish_all publish_nowait
  publish_all-fill_each [] b h = rw (fill_each-nil b.subscribers h) refl
  publish_all-fill_each (event ∷ events) b h =
      publish_all-fill_each events (publish_nowait b event)
        (offer_each-IsBounded event b.subscribers h)
      ∙ ap (λ (d : Dict ℕ (Queue E)). record b { subscribers = d })
          (fill_each-offer_each event events b.subscribers h)
