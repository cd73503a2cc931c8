-- ===== src/Schema/Tests.antt =====
-- The pairing of tool calls and results at a concrete turn.
use ctxins.Base.{◌≡◌, [], ◌∷◌, none, String, arith}
use ctxins.Schema.{BlockType, assistant_msg, tool_result, text, ContextBlock, CanonicalTurn}
use ctxins.Graph.Diff.{block_ids}
use ctxins.Graph.Diff.Partition.{count}
use ctxins.Schema.Invocations.{tool_invocations}
use ctxins.Schema.Invocations.Pairing.{result_ids, tool_invocations-results}

abbrev tool_block : String → BlockType → String → String → ContextBlock
tool_block block_id block_type call_id name = record {
  block_id = block_id;
  block_type = block_type;
  content_hash = "";
  token_count = 1;
  content = "";
  metadata = ("type", text "tool_use") ∷ ("name", text name) ∷ [];
  identity_key = "";
  first_seen_turn = 0;
  turns_survived = 0;
  call_id = call_id;
}

-- Two calls, one by its id and one by its tool's name, and a result of an earlier turn.
abbrev turn : CanonicalTurn
turn = record {
  turn_id = "t";
  correlation_id = "t";
  session_id = "s";
  turn_index = 0;
  timestamp = 0;
  provider = "openai";
  model = "m";
  system_blocks = [];
  tool_defs = [];
  conversation_history = tool_block "c1" assistant_msg "id1" "read" ∷ [];
  tool_results =
      tool_block "r1" tool_result "id1" "read"
      ∷ tool_block "r2" tool_result "" "grep"
      ∷ tool_block "r3" tool_result "id9" "edit"
      ∷ [];
  assistant_blocks = tool_block "c2" assistant_msg "" "grep" ∷ [];
  input_tokens = 0;
  output_tokens = 0;
  cached_read_tokens = 0;
  cached_created_tokens = 0;
  duration_ms = 0;
  ttft_ms = none;
  violations = [];
  turn_cost_usd = 0;
  wasted_cost_usd = 0;
  metadata = [];
}

tool_invocations-results_example :
    count "r2" (result_ids (tool_invocations (λ t. t) turn))
    ≡ count "r2" (block_ids turn.tool_results)
tool_invocations-results_example = tool_invocations-results (λ t. t) turn "r2" (omega arith)
