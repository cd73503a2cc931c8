-- ===== src/Analyzer/Rules/Zombie.antt =====
-- core/analyzer/heuristics/zombie_context.py: `ZombieContextRule`.
use ctxins.Base.{
  ℕ, suc, ◌*◌, Bool, true, false, not, ◌&&◌, ◌||◌, List, [], ◌∷◌, ◌++◌, none, String, map, keep,
  newest, flatten, ltb, leb, is_nil, ◌=?◌, string_eq, if◌then◌else◌,
}
use ctxins.Schema.{
  ViolationSeverity, warn, RuleViolation, ContextBlock, CanonicalTurn, BlockType, user_msg,
  assistant_msg,
}
use ctxins.Schema.Invocations.{or_text, meta_text}
use ctxins.Stream.Sse.{Text}
use ctxins.Analyzer.Rules.{
  Rule, resolve_previous_turns, any, join_texts, contents, mentioned, concat, waste_at, pricing_of,
}

pub record ZombieContextRule : Type 0 where
  pub min_turns : ℕ
  pub min_tokens : ℕ
  pub recent_turns : ℕ
  pub severity : ViolationSeverity
  pub suggested_fix : String

abbrev pub default_zombie : ZombieContextRule
default_zombie = record {
  min_turns = 3;
  min_tokens = 300;
  recent_turns = 2;
  severity = warn;
  suggested_fix = "Prune or summarize stale tool result from prompt";
}

unfoldable pub is_message : BlockType → Bool
is_message user_msg = true
is_message assistant_msg = true
is_message _ = false

-- What a turn says: its assistant blocks, and the messages of its history.
unfoldable pub said_in : CanonicalTurn → List String
said_in turn =
    contents turn.assistant_blocks
    ++ contents (keep (λ (b : ContextBlock). is_message b.block_type) turn.conversation_history)

-- `recent_text`: what the last turns say, and the turn itself. A slice from -0 is the whole list.
unfoldable pub recent_text : ZombieContextRule → List CanonicalTurn → CanonicalTurn → Text
recent_text z resolved_prev turn =
    let recent =
      if leb z.recent_turns 0 then resolved_prev else newest z.recent_turns resolved_prev in
    join_texts (flatten (map said_in recent) ++ said_in turn)

abbrev same_result : ContextBlock → ContextBlock → Bool
same_result r t =
    t.block_id =? r.block_id
    || t.content_hash =? r.content_hash
    || (not (t.identity_key =? "") && t.identity_key =? r.identity_key)

-- `consecutive_prev_count` over the turns before, the latest first
unfoldable pub consecutive : ContextBlock → List CanonicalTurn → ℕ
consecutive r [] = 0
consecutive r (t ∷ ts) =
    let later = consecutive r ts in if any (same_result r) t.tool_results then suc later else 0

-- `reversed(xs)`
abbrev pub reversed {ℓ} : {A : Type ℓ} → List A → List A
reversed [] = []
reversed (x ∷ xs) = reversed xs ++ x ∷ []

-- `max(a, b)`
abbrev larger : ℕ → ℕ → ℕ
larger a b = if leb b a then a else b

unfoldable pub turns_survived_by : List CanonicalTurn → ContextBlock → ℕ
turns_survived_by resolved_prev r = larger r.turns_survived (consecutive r (reversed resolved_prev))

unfoldable pub is_referenced : Text → ContextBlock → Bool
is_referenced text r =
    let tool_id =
      or_text (meta_text "tool_use_id" r)
        (or_text (meta_text "tool_call_id" r) (meta_text "id" r)) in
    mentioned tool_id text || mentioned r.block_id text || mentioned r.identity_key text

module _ (strip lower : Text → Text) (str_int : ℕ → String) (z : ZombieContextRule) where
  unfoldable pub zombie_violation : CanonicalTurn → ContextBlock → ℕ → RuleViolation
  zombie_violation turn r survived = record {
    rule_id = "CTX-006";
    severity = z.severity;
    title = "Zombie Tool Result Detected";
    message = concat (
        "Tool result '"
        ∷ r.block_id
        ∷ "' ("
        ∷ str_int r.token_count
        ∷ " tokens) has survived "
        ∷ str_int survived
        ∷ " turns without reference in recent context."
        ∷ []);
    estimated_waste_usd =
        waste_at (r.token_count * survived) (pricing_of strip lower turn).input_cost_per_1k;
    suggested_fix = z.suggested_fix;
    block_ids = r.block_id ∷ [];
    turn_index = none;
  }

  -- The loop over the turn's tool results.
  unfoldable pub zombie_results :
      CanonicalTurn → List CanonicalTurn → Text → List ContextBlock → List RuleViolation
  zombie_results turn resolved_prev text [] = []
  zombie_results turn resolved_prev text (r ∷ rs) =
      let later = zombie_results turn resolved_prev text rs in
      let survived = turns_survived_by resolved_prev r in
      if leb r.token_count z.min_tokens
      then later
      else if ltb survived z.min_turns
      then later
      else if is_referenced text r
      then later
      else zombie_violation turn r survived ∷ later

  unfoldable pub zombie_context : Rule
  zombie_context turn graph previous_turns =
      let resolved_prev = resolve_previous_turns turn graph previous_turns in
      if is_nil turn.tool_results
      then []
      else zombie_results turn resolved_prev (recent_text z resolved_prev turn) turn.tool_results
