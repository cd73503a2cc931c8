-- ===== src/Graph/Diff.antt =====
-- core/graph/diff.py: `TurnDiffEngine.compute_delta`. The sets of ids seen so far are lists.
pub mod Partition
pub mod Breakpoint
pub mod Keys
pub mod Unchanged
use ctxins.Base.{
  ℕ, ltb, Bool, true, false, not, ◌&&◌, ◌||◌, List, [], ◌∷◌, map, Option, none, some, String, sum,
  contains, ◌=?◌, if◌then◌else◌, string_eq, pair_eq,
}
use ctxins.Base.Int.{pos, sub_ℕ}
use ctxins.Base.Dict.{Dict, get, has, set_default}
use ctxins.Schema.{value, ContextBlock, CanonicalTurn, all_blocks, TurnDelta}

abbrev pub Key : Type 0
Key = String × String

-- the truth value of a text
abbrev pub truthy : String → Bool
truthy s = not (s =? "")

unfoldable pub block_match_key : ContextBlock → Key
block_match_key block =
    if truthy block.identity_key
    then (value block.block_type, block.identity_key)
    else if truthy block.content_hash
    then (value block.block_type, block.content_hash)
    else (value block.block_type, block.block_id)

-- `prev_by_key` and `curr_by_key`: the first block of each key
unfoldable pub by_key : Dict Key ContextBlock → List ContextBlock → Dict Key ContextBlock
by_key d [] = d
by_key d (b ∷ bs) = by_key (set_default (block_match_key b) b d) bs

-- The loops' test on the ids that they have seen: the first block of each id is left.
unfoldable pub unseen : List String → List ContextBlock → List ContextBlock
unseen seen [] = []
unseen seen (b ∷ bs) =
    let again = unseen seen bs in
    let new = unseen (b.block_id ∷ seen) bs in if contains b.block_id seen then again else b ∷ new

pub data Change : Type 0 where
  added persisted mutated : Change

-- What became of a block, given the block of its key in the previous turn.
abbrev pub change_from : ContextBlock → Option ContextBlock → Change
change_from b none = added
change_from b (some prev_b) =
    if truthy b.identity_key && not (b.content_hash =? prev_b.content_hash)
    then mutated
    else persisted

unfoldable pub change : Dict Key ContextBlock → ContextBlock → Change
change prev_by_key b = change_from b (get (block_match_key b) prev_by_key)

abbrev pub same_change : Change → Change → Bool
same_change added added = true
same_change persisted persisted = true
same_change mutated mutated = true
same_change added persisted = false
same_change added mutated = false
same_change persisted added = false
same_change persisted mutated = false
same_change mutated added = false
same_change mutated persisted = false

-- The ids that the loop over the current blocks appends to the list of one kind of change.
unfoldable pub ids_with : Change → Dict Key ContextBlock → List ContextBlock → List String
ids_with kind prev_by_key [] = []
ids_with kind prev_by_key (b ∷ bs) =
    let rest = ids_with kind prev_by_key bs in
    if same_change (change prev_by_key b) kind then b.block_id ∷ rest else rest

unfoldable pub removed_ids : Dict Key ContextBlock → List ContextBlock → List String
removed_ids curr_by_key [] = []
removed_ids curr_by_key (b ∷ bs) =
    let rest = removed_ids curr_by_key bs in
    if not (has (block_match_key b) curr_by_key) then b.block_id ∷ rest else rest

unfoldable pub cache_breakpoint : List String → List ContextBlock → Option String
cache_breakpoint persisted_set [] = none
cache_breakpoint persisted_set (b ∷ bs) =
    if not (contains b.block_id persisted_set)
    then some b.block_id
    else cache_breakpoint persisted_set bs

abbrev pub token_sum : List ContextBlock → ℕ
token_sum bs = sum (map (λ (b : ContextBlock). b.token_count) bs)

abbrev pub block_ids : List ContextBlock → List String
block_ids bs = map (λ (b : ContextBlock). b.block_id) bs

unfoldable pub first_delta : CanonicalTurn → TurnDelta
first_delta turn_curr = record {
  turn_index = turn_curr.turn_index;
  added_block_ids = block_ids (unseen [] (all_blocks turn_curr));
  removed_block_ids = [];
  persisted_block_ids = [];
  mutated_block_ids = [];
  cache_breakpoint_block_id = none;
  token_growth = pos (
      if ltb 0 turn_curr.input_tokens
      then turn_curr.input_tokens
      else token_sum (all_blocks turn_curr));
}

unfoldable pub delta_between : CanonicalTurn → CanonicalTurn → TurnDelta
delta_between turn_prev turn_curr =
    let prev_blocks = all_blocks turn_prev in
    let curr_blocks = all_blocks turn_curr in
    let prev_by_key = by_key [] prev_blocks in
    let persisted_ids = ids_with persisted prev_by_key (unseen [] curr_blocks) in
    record {
      turn_index = turn_curr.turn_index;
      added_block_ids = ids_with added prev_by_key (unseen [] curr_blocks);
      removed_block_ids = removed_ids (by_key [] curr_blocks) (unseen [] prev_blocks);
      persisted_block_ids = persisted_ids;
      mutated_block_ids = ids_with mutated prev_by_key (unseen [] curr_blocks);
      cache_breakpoint_block_id = cache_breakpoint persisted_ids curr_blocks;
      token_growth =
          if ltb 0 turn_curr.input_tokens || ltb 0 turn_prev.input_tokens
          then sub_ℕ turn_curr.input_tokens turn_prev.input_tokens
          else sub_ℕ (token_sum curr_blocks) (token_sum prev_blocks);
    }

unfoldable pub compute_delta : Option CanonicalTurn → CanonicalTurn → TurnDelta
compute_delta none turn_curr = first_delta turn_curr
compute_delta (some turn_prev) turn_curr = delta_between turn_prev turn_curr
