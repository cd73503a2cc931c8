-- ===== src/Schema.antt =====
-- schema/ast.py: context blocks, turns and deltas, as the normalizers build them. Floats (times and
-- costs), which the modelled operations only pass on, are numbers of a fixed unit; token counts and turn
-- indices are natural numbers; a metadata value is a text or a Boolean.
pub mod Invocations
mod Tests
use ctxins.Base.{ℕ, ◌+◌, Bool, List, ◌++◌, Option, String}
use ctxins.Base.Int.{ℤ}
use ctxins.Base.Dict.{Dict}

pub data BlockType : Type 0 where
  system tool_def user_msg assistant_msg tool_result injected_context skill thought injected_state :
      BlockType

unfoldable pub value : BlockType → String
value system = "system"
value tool_def = "tool_def"
value user_msg = "user_msg"
value assistant_msg = "assistant_msg"
value tool_result = "tool_result"
value injected_context = "injected_context"
value skill = "skill"
value thought = "thought"
value injected_state = "injected_state"

pub data MetaValue : Type 0 where
  text : String → MetaValue
  flag : Bool → MetaValue

pub record ContextBlock : Type 0 where
  pub block_id : String
  pub block_type : BlockType
  pub content_hash : String
  pub token_count : ℕ
  pub content : String
  pub metadata : Dict String MetaValue
  pub identity_key : String
  pub first_seen_turn : ℕ
  pub turns_survived : ℕ
  pub call_id : String

pub data ViolationSeverity : Type 0 where
  info warn critical : ViolationSeverity

pub record RuleViolation : Type 0 where
  pub rule_id : String
  pub severity : ViolationSeverity
  pub title : String
  pub message : String
  pub estimated_waste_usd : ℕ
  pub suggested_fix : String
  pub block_ids : List String
  pub turn_index : Option ℕ

pub record CanonicalTurn : Type 0 where
  pub turn_id : String
  pub correlation_id : String
  pub session_id : String
  pub turn_index : ℕ
  pub timestamp : ℕ
  pub provider : String
  pub model : String
  pub system_blocks : List ContextBlock
  pub tool_defs : List ContextBlock
  pub conversation_history : List ContextBlock
  pub tool_results : List ContextBlock
  pub assistant_blocks : List ContextBlock
  pub input_tokens : ℕ
  pub output_tokens : ℕ
  pub cached_read_tokens : ℕ
  pub cached_created_tokens : ℕ
  pub duration_ms : ℕ
  pub ttft_ms : Option ℕ
  pub violations : List RuleViolation
  pub turn_cost_usd : ℕ
  pub wasted_cost_usd : ℕ
  pub metadata : Dict String MetaValue

unfoldable pub total_tokens : CanonicalTurn → ℕ
total_tokens turn = turn.input_tokens + turn.output_tokens

unfoldable pub all_blocks : CanonicalTurn → List ContextBlock
all_blocks turn =
    turn.system_blocks
    ++ (turn.tool_defs
        ++ (turn.conversation_history ++ (turn.tool_results ++ turn.assistant_blocks)))

pub record TurnDelta : Type 0 where
  pub turn_index : ℕ
  pub added_block_ids : List String
  pub removed_block_ids : List String
  pub persisted_block_ids : List String
  pub mutated_block_ids : List String
  pub cache_breakpoint_block_id : Option String
  pub token_growth : ℤ
