-- ===== src/Graph/Tree.antt =====
-- core/graph/turn_tree.py: `BlockLineage` and `ContextGraph`. The code writes the lineage into the turn's
-- own blocks: here the turn that `add_turn` records is the one with those fields written. A turn's blocks
-- are taken to be objects of its own, no one of them standing in the turn twice.
pub mod Queries
pub mod Lineage
pub mod Agreement
pub mod Links
use ctxins.Base.{
  ℕ, zero, suc, ◌+◌, ◌-◌, Bool, true, false, not, ◌&&◌, ◌==◌, ltb, List, [], ◌∷◌, ◌++◌, Option,
  none, some, String, length, last, is_nil, contains, ◌=?◌, if◌then◌else◌, nat_eq, string_eq,
  pair_eq,
}
use ctxins.Base.Dict.{Dict, get, insert}
use ctxins.Schema.{BlockType, ContextBlock, CanonicalTurn, all_blocks, TurnDelta}
use ctxins.Graph.Diff.{Key, truthy, block_match_key, compute_delta}

pub record BlockLineage : Type 0 where
  pub block_type : BlockType
  pub content_hash : String
  pub first_seen_turn : ℕ
  pub last_seen_turn : ℕ
  pub turns_survived : ℕ
  pub seen_turns : List ℕ
  pub identity_key : String
  pub historical_hashes : List String

pub record ContextGraph : Type 0 where
  pub session_id : Option String
  pub turns : List CanonicalTurn
  pub turns_by_id : Dict String CanonicalTurn
  pub turns_by_index : Dict ℕ CanonicalTurn
  pub lineage : Dict Key BlockLineage
  pub deltas : List TurnDelta
  pub deltas_by_turn : Dict ℕ TurnDelta
  pub parents : Dict String (Option String)
  pub children : Dict String (List String)

unfoldable pub new_graph : Option String → ContextGraph
new_graph session_id = record {
  session_id = session_id;
  turns = [];
  turns_by_id = [];
  turns_by_index = [];
  lineage = [];
  deltas = [];
  deltas_by_turn = [];
  parents = [];
  children = [];
}

-- `_block_key`, which is written out as `_block_match_key` is
abbrev pub block_key : ContextBlock → Key
block_key block = block_match_key block

-- `if h and h not in hashes: hashes.append(h)`
unfoldable pub remember : String → List String → List String
remember h hashes = if truthy h && not (contains h hashes) then hashes ++ h ∷ [] else hashes

unfoldable pub new_lineage : ℕ → ContextBlock → BlockLineage
new_lineage turn_index block = record {
  block_type = block.block_type;
  content_hash = block.content_hash;
  first_seen_turn = turn_index;
  last_seen_turn = turn_index;
  turns_survived = 0;
  seen_turns = turn_index ∷ [];
  identity_key = block.identity_key;
  historical_hashes = if truthy block.content_hash then block.content_hash ∷ [] else [];
}

-- The record of a block seen again in a later turn, with the survival that the code computes for it.
unfoldable pub seen_again : ℕ → ContextBlock → ℕ → BlockLineage → BlockLineage
seen_again turn_index block survived rec = record rec {
  content_hash = block.content_hash;
  last_seen_turn = turn_index;
  turns_survived = survived;
  seen_turns = rec.seen_turns ++ turn_index ∷ [];
  historical_hashes =
      if block.content_hash =? rec.content_hash
      then rec.historical_hashes
      else remember block.content_hash (remember rec.content_hash rec.historical_hashes);
}

-- The survival of a block: one more turn if the turn just before had it with the same content.
unfoldable pub survival : ℕ → ContextBlock → BlockLineage → ℕ
survival turn_index block rec =
    if rec.last_seen_turn + 1 == turn_index
    then if block.content_hash =? rec.content_hash then rec.turns_survived + 1 else 0
    else 0

-- One round of the loop over the blocks: the record that the block leaves behind.
unfoldable pub trace : ℕ → ContextBlock → Option BlockLineage → BlockLineage
trace turn_index block none = new_lineage turn_index block
trace turn_index block (some rec) =
    if rec.last_seen_turn == turn_index
    then rec
    else seen_again turn_index block (survival turn_index block rec) rec

-- `block.first_seen_turn` and `block.turns_survived`, as in its record
unfoldable pub written : BlockLineage → ContextBlock → ContextBlock
written rec block = record block {
  first_seen_turn = rec.first_seen_turn;
  turns_survived = rec.turns_survived;
}

unfoldable pub track :
    ℕ → Dict Key BlockLineage → List ContextBlock → List ContextBlock × Dict Key BlockLineage
track turn_index lineage [] = ([], lineage)
track turn_index lineage (b ∷ bs) =
    let rec = trace turn_index b (get (block_key b) lineage) in
    let (later, lineage') = track turn_index (insert (block_key b) rec lineage) bs in
    (written rec b ∷ later, lineage')

-- The loop over `turn.all_blocks`: the five lists in their order.
unfoldable pub track_turn :
    Dict Key BlockLineage → CanonicalTurn → CanonicalTurn × Dict Key BlockLineage
track_turn lineage turn =
    let (system, lineage1) = track turn.turn_index lineage turn.system_blocks in
    let (tools, lineage2) = track turn.turn_index lineage1 turn.tool_defs in
    let (history, lineage3) = track turn.turn_index lineage2 turn.conversation_history in
    let (results, lineage4) = track turn.turn_index lineage3 turn.tool_results in
    let (assistant, lineage5) = track turn.turn_index lineage4 turn.assistant_blocks in
    (
      record turn {
        system_blocks = system;
        tool_defs = tools;
        conversation_history = history;
        tool_results = results;
        assistant_blocks = assistant;
      },
      lineage5,
    )

abbrev pub turn_id_of : Option CanonicalTurn → Option String
turn_id_of none = none
turn_id_of (some turn) = some turn.turn_id

-- `resolved_parent_id`
unfoldable pub resolve_parent : Option String → Option CanonicalTurn → Option String
resolve_parent (some parent_turn_id) prev_turn = some parent_turn_id
resolve_parent none prev_turn = turn_id_of prev_turn

abbrev pub or_empty {ℓ} : {A : Type ℓ} → Option (List A) → List A
or_empty none = []
or_empty (some xs) = xs

unfoldable pub link_child :
    Option String → String → Dict String (List String) → Dict String (List String)
link_child none turn_id children = children
link_child (some parent_id) turn_id children =
    if truthy parent_id
    then insert parent_id (or_empty (get parent_id children) ++ turn_id ∷ []) children
    else children

unfoldable pub infer_session : Option String → String → Option String
infer_session (some session_id) turn_session_id = some session_id
infer_session none turn_session_id = if truthy turn_session_id then some turn_session_id else none

unfoldable pub add_turn : ContextGraph → CanonicalTurn → Option String → ContextGraph × TurnDelta
add_turn g turn parent_turn_id =
    let (turn', lineage) = track_turn g.lineage turn in
    let prev_turn = last g.turns in
    let delta = compute_delta prev_turn turn' in
    let parent_id = resolve_parent parent_turn_id prev_turn in
    (
      record {
        session_id = infer_session g.session_id turn.session_id;
        turns = g.turns ++ turn' ∷ [];
        turns_by_id = insert turn.turn_id turn' g.turns_by_id;
        turns_by_index = insert turn.turn_index turn' g.turns_by_index;
        lineage = lineage;
        deltas = g.deltas ++ delta ∷ [];
        deltas_by_turn = insert turn.turn_index delta g.deltas_by_turn;
        parents = insert turn.turn_id parent_id g.parents;
        children = link_child parent_id turn.turn_id g.children;
      },
      delta,
    )

-- `xs[i] = x`
unfoldable pub set_at {ℓ} : {A : Type ℓ} → ℕ → A → List A → List A
set_at i x [] = []
set_at zero x (y ∷ ys) = x ∷ ys
set_at (suc i) x (y ∷ ys) = y ∷ set_at i x ys

-- The turns with one replaced, the last one where the index is out of range; and the lineage, in which
-- the blocks are marked as seen in that turn.
unfoldable pub replace_turn : CanonicalTurn → List CanonicalTurn → List CanonicalTurn
replace_turn turn turns =
    if ltb turn.turn_index (length turns)
    then set_at turn.turn_index turn turns
    else set_at (length turns - 1) turn turns

unfoldable pub mark : ℕ → ContextBlock → Option BlockLineage → BlockLineage
mark turn_index block none = new_lineage turn_index block
mark turn_index block (some rec) = record rec {
  last_seen_turn = turn_index;
  seen_turns =
      if contains turn_index rec.seen_turns
      then rec.seen_turns
      else rec.seen_turns ++ turn_index ∷ [];
}

unfoldable pub refresh : ℕ → Dict Key BlockLineage → List ContextBlock → Dict Key BlockLineage
refresh turn_index lineage [] = lineage
refresh turn_index lineage (b ∷ bs) =
    refresh turn_index
      (insert (block_key b) (mark turn_index b (get (block_key b) lineage)) lineage) bs

unfoldable pub update_turn : ContextGraph → CanonicalTurn → ContextGraph
update_turn g turn = record g {
  turns = replace_turn turn g.turns;
  turns_by_id = insert turn.turn_id turn g.turns_by_id;
  turns_by_index = insert turn.turn_index turn g.turns_by_index;
  lineage = refresh turn.turn_index g.lineage (all_blocks turn);
}
