-- ===== src/Presentation/Tests.antt =====
-- The bus at concrete inputs.
use ctxins.Base.{ℕ, ◌≡◌, refl, [], ◌∷◌, arith, none, map, inl, inr, nat_eq}
use ctxins.Base.Dict.{insert, remove, values}
use ctxins.Presentation.Broadcaster.{
  Queue, PresentationBroadcaster, subscribe, unsubscribe, publish_nowait, publish_all, offer_each,
  offer, put_nowait, fill_each,
}
use ctxins.Presentation.Broadcaster.Slow.{publish_all-fill_each}

-- A subscriber with a queue of two, and one without a limit.
abbrev bus : PresentationBroadcaster ℕ
bus = record {
  queue_capacity = 100;
  subscribers =
      (0, record { maxsize = 2; items = 7 ∷ [] }) ∷ (1, record { maxsize = 0; items = [] }) ∷ [];
}

publish_all-fill_each_example :
    publish_all bus (8 ∷ 9 ∷ [])
    ≡ record bus { subscribers = fill_each (8 ∷ 9 ∷ []) bus.subscribers }
publish_all-fill_each_example =
    publish_all-fill_each (8 ∷ 9 ∷ []) bus (inr (omega arith), (inl refl, tt))

items_test :
    map (λ (q : Queue ℕ). q.items) (values (publish_all bus (8 ∷ 9 ∷ [])).subscribers)
    ≡ (7 ∷ 8 ∷ []) ∷ (8 ∷ 9 ∷ []) ∷ []
unfolding publish_all publish_nowait offer_each offer put_nowait
items_test = refl

unsubscribe_test :
    (unsubscribe (subscribe bus 2 none) 0).subscribers
    ≡ (1, record { maxsize = 0; items = [] }) ∷ (2, record { maxsize = 100; items = [] }) ∷ []
unfolding unsubscribe subscribe insert remove
unsubscribe_test = refl
