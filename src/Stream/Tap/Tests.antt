-- ===== src/Stream/Tap/Tests.antt =====
-- The tap at a concrete stream.
use ctxins.Base.{
  ℕ, ◌+◌, ◌≡◌, List, [], ◌∷◌, none, some, Result, ok, raise, queue_full, value_error, refl, ◌==◌,
  if◌then◌else◌,
}
use ctxins.Stream.Tap.{
  Entry, bytes, parts, Transformed, neither, broken, many_chunks, new_tap, tee_iterable, tee,
}
use ctxins.Stream.Tap.Delivery.{
  handed_on, take_all, eof_count, tee_iterable-handed_on, tee-eof_count,
}

-- Two chunks with an empty one between them.
abbrev items : List (ℕ × List ℕ)
items = (1, 100 ∷ []) ∷ (2, []) ∷ (3, 101 ∷ 102 ∷ []) ∷ []

-- A queue that takes one entry and is full then.
abbrev one_place : List Entry → Entry → Result (List Entry)
one_place [] e = ok (e ∷ [])
one_place (x ∷ queue) e = raise queue_full

-- A handler that doubles a chunk, and raises on one that begins with 101.
abbrev doubling : List ℕ → Transformed
doubling [] = neither
doubling (b ∷ bs) = if b == 101 then broken value_error else many_chunks ((b ∷ bs) ∷ (b ∷ bs) ∷ [])

tee_iterable-handed_on_example :
    (tee_iterable one_place (some doubling) items 4 (new_tap "c" none [])).0
    ≡ handed_on (some doubling) items
tee_iterable-handed_on_example =
    tee_iterable-handed_on one_place (some doubling) items 4 (new_tap "c" none [])

delivered_test :
    handed_on (some doubling) items
    ≡ (parts ((100 ∷ []) ∷ (100 ∷ []) ∷ []) ∷ bytes [] ∷ [], some value_error)
delivered_test = refl

tee-eof_count_example : eof_count (tee take_all "c" none [] items 4).1.queue ≡ eof_count [] + 1
tee-eof_count_example = tee-eof_count "c" none [] items 4
