-- ===== src/Graph/Tests.antt =====
-- The graph component at concrete inputs.
use ctxins.Base.{
  ℕ, ◌+◌, ◌≡◌, ◌↔◌, refl, List, [], ◌∷◌, none, some, String, arith, contains, if◌then◌else◌,
  string_eq, All,
}
use ctxins.Base.Int.{pos, pos_part, neg_part}
use ctxins.Base.Dict.{get, insert, has}
use ctxins.Schema.{BlockType, system, user_msg, value, ContextBlock, CanonicalTurn, all_blocks}
use ctxins.Graph.Diff.{
  block_match_key, by_key, unseen, change, ids_with, removed_ids, cache_breakpoint, delta_between,
  block_ids,
}
use ctxins.Graph.Diff.Partition.{count, delta_between-partition, delta_between-swap}
use ctxins.Graph.Diff.Breakpoint.{Breaks, delta_between-breakpoint, delta_between-whole}
use ctxins.Graph.Diff.Unchanged.{measured, delta_between_self, delta_between-growth}
use ctxins.Graph.Tree.{ContextGraph, new_graph, add_turn, track_turn}
use ctxins.Graph.Tree.Queries.{get_turn, get_parent_turn}
use ctxins.Graph.Tree.Lineage.{AllTracked, add_turn-AllTracked}
use ctxins.Graph.Tree.Agreement.{Agrees, add_turn-Agrees}
use ctxins.Graph.Tree.Links.{IsLinked, add_turn-IsLinked, get_parent_turn-add_turn}

abbrev block : String → BlockType → String → String → ContextBlock
block block_id block_type identity_key content_hash = record {
  block_id = block_id;
  block_type = block_type;
  content_hash = content_hash;
  token_count = 10;
  content = "";
  metadata = [];
  identity_key = identity_key;
  first_seen_turn = 0;
  turns_survived = 0;
  call_id = "";
}

abbrev turn_of : String → ℕ → List ContextBlock → List ContextBlock → CanonicalTurn
turn_of turn_id turn_index system_blocks history = record {
  turn_id = turn_id;
  correlation_id = turn_id;
  session_id = "s";
  turn_index = turn_index;
  timestamp = 0;
  provider = "openai";
  model = "m";
  system_blocks = system_blocks;
  tool_defs = [];
  conversation_history = history;
  tool_results = [];
  assistant_blocks = [];
  input_tokens = 0;
  output_tokens = 0;
  cached_read_tokens = 0;
  cached_created_tokens = 0;
  duration_ms = 0;
  ttft_ms = none;
  violations = [];
  turn_cost_usd = 0;
  wasted_cost_usd = 0;
  metadata = [];
}

abbrev turn0 : CanonicalTurn
turn0 = turn_of "t" 0 (block "b0" system "sys" "h0" ∷ []) (block "b1" user_msg "" "h1" ∷ [])

-- The system prompt is changed, the message persists, and a new one follows.
abbrev turn1 : CanonicalTurn
turn1 =
    turn_of "tt" 1 (block "b2" system "sys" "h2" ∷ [])
      (block "b3" user_msg "" "h1" ∷ block "b4" user_msg "" "h3" ∷ [])

turn1_delta : delta_between turn0 turn1 ≡ record {
  turn_index = 1;
  added_block_ids = "b4" ∷ [];
  removed_block_ids = [];
  persisted_block_ids = "b3" ∷ [];
  mutated_block_ids = "b2" ∷ [];
  cache_breakpoint_block_id = some "b2";
  token_growth = pos 10;
}
unfolding delta_between all_blocks unseen by_key get insert block_match_key value ids_with change
    removed_ids cache_breakpoint has
turn1_delta = refl

delta_between-partition_example :
    let d = delta_between turn0 turn1 in
    count "b3" d.added_block_ids + count "b3" d.persisted_block_ids + count "b3" d.mutated_block_ids
    ≡ (if contains "b3" (block_ids (all_blocks turn1)) then 1 else 0)
delta_between-partition_example = delta_between-partition turn0 turn1 "b3"

delta_between-swap_test :
    (delta_between turn1 turn0).removed_block_ids ≡ (delta_between turn0 turn1).added_block_ids
delta_between-swap_test = delta_between-swap turn1 turn0

delta_between-breakpoint_test :
    let d = delta_between turn0 turn1 in
    Breaks d.persisted_block_ids (all_blocks turn1) d.cache_breakpoint_block_id
delta_between-breakpoint_test = delta_between-breakpoint turn0 turn1

delta_between-whole_example :
    let d = delta_between turn0 turn1 in
    (d.cache_breakpoint_block_id ≡ none) ↔ ((d.added_block_ids ≡ []) × (d.mutated_block_ids ≡ []))
delta_between-whole_example = delta_between-whole turn0 turn1

delta_between_self_test :
    let d = delta_between turn0 turn0 in
    (d.added_block_ids ≡ [])
    × (d.removed_block_ids ≡ [])
    × (d.mutated_block_ids ≡ [])
    × (d.persisted_block_ids ≡ block_ids (unseen [] (all_blocks turn0)))
    × (d.cache_breakpoint_block_id ≡ none)
    × (d.token_growth ≡ pos 0)
unfolding all_blocks block_match_key value
delta_between_self_test =
    delta_between_self turn0
      (((λ _. refl), ((λ e. cc e), tt)), (((λ e. cc e), ((λ _. refl), tt)), tt))

delta_between-growth_test :
    let growth = (delta_between turn0 turn1).token_growth in
    pos_part growth + measured turn0 turn1 ≡ measured turn1 turn0 + neg_part growth
delta_between-growth_test = delta_between-growth turn0 turn1

-- The graph after the first turn.
abbrev started : ContextGraph
started = (add_turn (new_graph none) turn0 none).0

new_graph-AllTracked : AllTracked 0 (new_graph none).lineage
unfolding new_graph get
new_graph-AllTracked k rec e = cc e

add_turn-AllTracked_example : AllTracked 0 started.lineage
add_turn-AllTracked_example =
    add_turn-AllTracked (new_graph none) turn0 none 0 (omega arith) new_graph-AllTracked

add_turn-Agrees_example :
    let g' = (add_turn started turn1 none).0 in
    (found : CanonicalTurn) × (get_turn g' 1 ≡ some found)
    × All (Agrees 1 g'.lineage) (all_blocks found)
add_turn-Agrees_example = add_turn-Agrees started turn1 none

new_graph-IsLinked : IsLinked (new_graph none)
unfolding new_graph
new_graph-IsLinked = record { a_delta_each = refl; newest_by_id = λ prev h. cc h }

started-IsLinked : IsLinked started
started-IsLinked = add_turn-IsLinked (new_graph none) turn0 none new_graph-IsLinked

add_turn-IsLinked_test : IsLinked (add_turn started turn1 (some "t")).0
add_turn-IsLinked_test = add_turn-IsLinked started turn1 (some "t") started-IsLinked

-- The first turn, as the graph records it.
abbrev recorded0 : CanonicalTurn
recorded0 = (track_turn [] turn0).0

get_parent_turn-add_turn_test :
    get_parent_turn (add_turn started turn1 none).0 "tt" ≡ some recorded0
unfolding add_turn new_graph track_turn
get_parent_turn-add_turn_test =
    get_parent_turn-add_turn started recorded0 turn1 started-IsLinked refl refl (λ e. cc e)
