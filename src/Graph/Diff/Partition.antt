-- ===== src/Graph/Diff/Partition.antt =====
-- core/graph/diff.py: how the delta sorts the blocks, there and back.
use ctxins.Base.{
  ℕ, ◌+◌, ◌≡◌, refl, List, [], ◌∷◌, String, arith, contains, ◌=?◌, if◌then◌else◌, string_eq,
  pair_eq,
}
use ctxins.Base.Dict.{Dict, has-get}
use ctxins.Schema.{ContextBlock, CanonicalTurn, all_blocks}
use ctxins.Graph.Diff.{
  Key, block_match_key, by_key, unseen, Change, added, persisted, mutated, change, same_change,
  ids_with, removed_ids, block_ids, delta_between,
}

-- How often a text stands in a list.
abbrev pub count : String → List String → ℕ
count x [] = 0
count x (y ∷ ys) = if y =? x then 1 + count x ys else count x ys

count-ids_with :
    (x : String) (d : Dict Key ContextBlock) (bs : List ContextBlock)
    → count x (ids_with added d bs)
        + count x (ids_with persisted d bs)
        + count x (ids_with mutated d bs)
      ≡ count x (block_ids bs)
unfolding ids_with
count-ids_with x d [] = refl
count-ids_with x d (b ∷ bs) =
    elim (change d b)
      as (λ (k : Change).
        count x
            (if same_change k added then b.block_id ∷ ids_with added d bs else ids_with added d bs)
          + count x (
              if same_change k persisted
              then b.block_id ∷ ids_with persisted d bs
              else ids_with persisted d bs)
          + count x (
              if same_change k mutated
              then b.block_id ∷ ids_with mutated d bs
              else ids_with mutated d bs)
        ≡ count x (b.block_id ∷ block_ids bs)) [
          | added ↦ ground (arith, count-ids_with x d bs)
          | persisted ↦ ground (arith, count-ids_with x d bs)
          | mutated ↦ ground (arith, count-ids_with x d bs)
        ]

-- The first block of each id is left once, unless its id was seen before.
count-unseen :
    (x : String) (seen : List String) (bs : List ContextBlock)
    → count x (block_ids (unseen seen bs))
      ≡ (if contains x seen then 0 else if contains x (block_ids bs) then 1 else 0)
unfolding unseen
count-unseen x seen [] = ground arith
count-unseen x seen (b ∷ bs) = ground (
  arith,
  string_eq.beq_iff b.block_id x,
  count-unseen x seen bs,
  count-unseen x (b.block_id ∷ seen) bs,
)

-- Every block of the current turn is in one of the three lists, once: an id stands in the lists of the
-- added, persisted and mutated blocks once altogether if a block of the turn has it, and else never.
pub delta_between-partition :
    (turn_prev turn_curr : CanonicalTurn) (x : String)
    → let d = delta_between turn_prev turn_curr in
      count x d.added_block_ids + count x d.persisted_block_ids + count x d.mutated_block_ids
      ≡ (if contains x (block_ids (all_blocks turn_curr)) then 1 else 0)
unfolding delta_between
delta_between-partition turn_prev turn_curr x =
    rw (count-ids_with x (by_key [] (all_blocks turn_prev)) (unseen [] (all_blocks turn_curr)))
      (count-unseen x [] (all_blocks turn_curr))

ids_with-removed :
    (d : Dict Key ContextBlock) (bs : List ContextBlock) → ids_with added d bs ≡ removed_ids d bs
unfolding ids_with removed_ids change
ids_with-removed d [] = refl
ids_with-removed d (b ∷ bs) = ground (arith, has-get (block_match_key b) d, ids_with-removed d bs)

-- What one turn removed is what the way back would add: the ids removed between two turns are those
-- added between them in the other order, and in the same sequence.
pub delta_between-swap :
    (turn_prev turn_curr : CanonicalTurn)
    → (delta_between turn_prev turn_curr).removed_block_ids
      ≡ (delta_between turn_curr turn_prev).added_block_ids
unfolding delta_between
delta_between-swap turn_prev turn_curr =
    rw (ids_with-removed (by_key [] (all_blocks turn_curr)) (unseen [] (all_blocks turn_prev))) refl
