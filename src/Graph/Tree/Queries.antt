-- ===== src/Graph/Tree/Queries.antt =====
-- `ContextGraph`'s queries. A block's `metadata.get(k)` counts as a text: the other values have no name.
use ctxins.Base.{
  ℕ, Bool, true, not, ◌&&◌, ◌||◌, leb, List, [], ◌∷◌, ◌++◌, Option, none, some, String, last, first,
  keep, contains, ◌=?◌, if◌then◌else◌, nat_eq, string_eq, pair_eq,
}
use ctxins.Base.Dict.{get, values}
use ctxins.Schema.{
  BlockType, value, tool_result, text, flag, ContextBlock, CanonicalTurn, all_blocks, TurnDelta,
}
use ctxins.Graph.Diff.{truthy}
use ctxins.Graph.Tree.{BlockLineage, ContextGraph, or_empty}

unfoldable pub get_turn : ContextGraph → ℕ → Option CanonicalTurn
get_turn g turn_index = get turn_index g.turns_by_index

unfoldable pub get_turn_by_id : ContextGraph → String → Option CanonicalTurn
get_turn_by_id g turn_id = get turn_id g.turns_by_id

unfoldable pub get_delta : ContextGraph → ℕ → Option TurnDelta
get_delta g turn_index = get turn_index g.deltas_by_turn

-- `self._turns_by_id.get(parent_id) if parent_id else None`, for `self._parents.get(turn_id)`
unfoldable pub turn_of_parent : ContextGraph → Option (Option String) → Option CanonicalTurn
turn_of_parent g none = none
turn_of_parent g (some none) = none
turn_of_parent g (some (some parent_id)) =
    if truthy parent_id then get parent_id g.turns_by_id else none

unfoldable pub get_parent_turn : ContextGraph → String → Option CanonicalTurn
get_parent_turn g turn_id = turn_of_parent g (get turn_id g.parents)

unfoldable pub turns_of : ContextGraph → List String → List CanonicalTurn
turns_of g [] = []
turns_of g (cid ∷ cids) = elim (get cid g.turns_by_id) [
  | none ↦ turns_of g cids
  | some turn ↦ turn ∷ turns_of g cids
]

unfoldable pub get_child_turns : ContextGraph → String → List CanonicalTurn
get_child_turns g turn_id = turns_of g (or_empty (get turn_id g.children))

unfoldable pub get_surviving_blocks : ContextGraph → ℕ → List ContextBlock
get_surviving_blocks g min_turns = elim (last g.turns) [
  | none ↦ []
  | some latest ↦ keep (λ (b : ContextBlock). leb min_turns b.turns_survived) (all_blocks latest)
]

abbrev pub or_else {ℓ} : {A : Type ℓ} → Option A → Option A → Option A
or_else none b = b
or_else (some a) b = some a

-- `block_type is None or rec.block_type == block_type`
abbrev pub of_type : Option BlockType → BlockLineage → Bool
of_type none rec = true
of_type (some t) rec = value rec.block_type =? value t

-- The record under a key of the given type, if a type is given.
unfoldable pub under_key : ContextGraph → Option BlockType → String → Option BlockLineage
under_key g none target = none
under_key g (some t) target = get (value t, target) g.lineage

unfoldable pub by_identity : ContextGraph → Option BlockType → String → Option BlockLineage
by_identity g block_type target =
    first (λ (rec : BlockLineage). rec.identity_key =? target && of_type block_type rec)
      (values g.lineage)

unfoldable pub by_hash : ContextGraph → Option BlockType → String → Option BlockLineage
by_hash g block_type content_hash =
    first
      (λ (rec : BlockLineage).
        (rec.content_hash =? content_hash || contains content_hash rec.historical_hashes)
        && of_type block_type rec)
      (values g.lineage)

unfoldable pub lineage_by_identity :
    ContextGraph → Option BlockType → Option String → Option BlockLineage
lineage_by_identity g block_type none = none
lineage_by_identity g block_type (some target) =
    or_else (under_key g block_type target) (by_identity g block_type target)

unfoldable pub lineage_by_hash :
    ContextGraph → Option BlockType → Option String → Option BlockLineage
lineage_by_hash g block_type none = none
lineage_by_hash g block_type (some content_hash) =
    or_else (under_key g block_type content_hash)
      (or_else (by_hash g block_type content_hash) (by_identity g block_type content_hash))

unfoldable pub get_lineage :
    ContextGraph → Option String → Option BlockType → Option String → Option BlockLineage
get_lineage g content_hash block_type identity_key =
    or_else (lineage_by_identity g block_type identity_key)
      (lineage_by_hash g block_type content_hash)

-- `metadata.get(k) or ""`
unfoldable pub meta_text : String → ContextBlock → String
meta_text k b = elim (get k b.metadata) [ none ↦ "" | some (text s) ↦ s | some (flag _) ↦ "" ]

abbrev pub or_text : String → String → String
or_text s t = if truthy s then s else t

unfoldable pub call_id_of : ContextBlock → String
call_id_of b = or_text b.call_id (meta_text "tool_use_id" b)

unfoldable pub name_of : ContextBlock → String
name_of b = or_text (meta_text "name" b) (meta_text "tool_name" b)

-- The first turn with a block that passes a test, among some of its blocks, and that block.
unfoldable pub find_block :
    (CanonicalTurn → List ContextBlock)
    → (ContextBlock → Bool)
    → List CanonicalTurn
    → Option (CanonicalTurn × ContextBlock)
find_block blocks p [] = none
find_block blocks p (turn ∷ turns) =
    let later = find_block blocks p turns in
    elim (first p (blocks turn)) [ none ↦ later | some b ↦ some (turn, b) ]

abbrev pub call_blocks : CanonicalTurn → List ContextBlock
call_blocks turn = turn.assistant_blocks ++ turn.conversation_history

abbrev pub has_call_id : String → ContextBlock → Bool
has_call_id call_id b = b.call_id =? call_id || meta_text "tool_use_id" b =? call_id

abbrev pub no_result : ContextBlock → Bool
no_result b = not (value b.block_type =? value tool_result)

unfoldable pub tool_call_for : ContextGraph → ContextBlock → Option (CanonicalTurn × ContextBlock)
tool_call_for g result =
    let by_id =
      find_block call_blocks (λ b. no_result b && has_call_id (call_id_of result) b) g.turns in
    let by_name =
      find_block call_blocks (λ b. no_result b && name_of b =? name_of result) g.turns in
    or_else (if truthy (call_id_of result) then by_id else none)
      (if truthy (name_of result) then by_name else none)

unfoldable pub tool_result_for : ContextGraph → ContextBlock → Option (CanonicalTurn × ContextBlock)
tool_result_for g call =
    let by_id =
      find_block (λ turn. turn.tool_results) (λ b. has_call_id (call_id_of call) b) g.turns in
    let by_name = find_block (λ turn. turn.tool_results) (λ b. name_of b =? name_of call) g.turns in
    or_else (if truthy (call_id_of call) then by_id else none)
      (if truthy (name_of call) then by_name else none)

-- `get_tool_call_for_result` and `get_tool_result_for_call` for the id of a block
unfoldable pub get_tool_call_for_result :
    ContextGraph → String → Option (CanonicalTurn × ContextBlock)
get_tool_call_for_result g block_id =
    elim (find_block (λ turn. turn.tool_results) (λ b. b.block_id =? block_id) g.turns) [
      | none ↦ none
      | some (turn, b) ↦ tool_call_for g b
    ]

unfoldable pub get_tool_result_for_call :
    ContextGraph → String → Option (CanonicalTurn × ContextBlock)
get_tool_result_for_call g block_id =
    elim (find_block call_blocks (λ b. b.block_id =? block_id) g.turns) [
      | none ↦ none
      | some (turn, b) ↦ tool_result_for g b
    ]
