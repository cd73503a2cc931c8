-- ===== src/Analyzer/Rules/StaleTool.antt =====
-- core/analyzer/heuristics/ctx001_stale_tool.py: `StaleToolHeuristic`.
use ctxins.Base.{
  ℕ, ◌-◌, Bool, true, false, not, ◌&&◌, ◌||◌, List, [], ◌∷◌, ◌++◌, Option, none, some, String, map,
  newest, flatten, length, get_elem?, ltb, leb, is_nil, ◌=?◌, string_eq, if◌then◌else◌,
}
use ctxins.Schema.{warn, RuleViolation, ContextBlock, CanonicalTurn}
use ctxins.Schema.Invocations.{meta_text}
use ctxins.Stream.Sse.{Text}
use ctxins.Analyzer.Rules.{
  Rule, resolve_previous_turns, any, join_texts, contents, mentioned, concat, waste_at, pricing_of,
}

pub record StaleToolHeuristic : Type 0 where
  pub min_tokens : ℕ
  pub min_turns : ℕ

abbrev pub default_stale_tool : StaleToolHeuristic
default_stale_tool = record { min_tokens = 3000; min_turns = 3 }

-- `all(p(x) for x in xs)`
abbrev pub all {ℓ} : {A : Type ℓ} → (A → Bool) → List A → Bool
all p [] = true
all p (x ∷ xs) = p x && all p xs

-- The text of the last two turns' assistant blocks, and of the turn's own if it has any.
unfoldable pub recent_assistant_text : List CanonicalTurn → CanonicalTurn → Text
recent_assistant_text resolved_prev turn =
    let before = join_texts (
      flatten
        (map (λ (t : CanonicalTurn). contents t.assistant_blocks) (newest 2 resolved_prev))) in
    if is_nil turn.assistant_blocks
    then before
    else before ++ b' ' ∷ join_texts (contents turn.assistant_blocks)

-- Whether the turn that lies `min_turns` back had the result.
unfoldable pub in_older_turn : Option CanonicalTurn → ContextBlock → Bool
in_older_turn none tool_res = false
in_older_turn (some older_turn) tool_res =
    any
      (λ (t : ContextBlock).
        t.content_hash =? tool_res.content_hash || t.block_id =? tool_res.block_id)
      older_turn.tool_results

unfoldable pub is_stale : StaleToolHeuristic → List CanonicalTurn → ContextBlock → Bool
is_stale h resolved_prev tool_res =
    if leb h.min_turns tool_res.turns_survived
    then true
    else if leb h.min_turns (length resolved_prev)
    then in_older_turn (get_elem? resolved_prev (length resolved_prev - h.min_turns)) tool_res
    else false

unfoldable pub is_referenced : Text → ContextBlock → Bool
is_referenced text tool_res =
    mentioned (meta_text "tool_use_id" tool_res) text || mentioned tool_res.block_id text

module _ (strip lower : Text → Text) (str_int : ℕ → String) (h : StaleToolHeuristic) where
  unfoldable pub stale_violation : CanonicalTurn → ContextBlock → RuleViolation
  stale_violation turn tool_res = record {
    rule_id = "CTX-001";
    severity = warn;
    title = "Stale Tool Output Bloat";
    message = concat (
        "Tool result ("
        ∷ str_int tool_res.token_count
        ∷ " tokens) has remained in context for >= "
        ∷ str_int h.min_turns
        ∷ " turns without reference."
        ∷ []);
    estimated_waste_usd =
        waste_at tool_res.token_count (pricing_of strip lower turn).input_cost_per_1k;
    suggested_fix = "Prune older tool payloads or truncate large responses.";
    block_ids = tool_res.block_id ∷ [];
    turn_index = none;
  }

  -- The loop over the turn's tool results.
  unfoldable pub stale_results :
      CanonicalTurn → List CanonicalTurn → Text → List ContextBlock → List RuleViolation
  stale_results turn resolved_prev text [] = []
  stale_results turn resolved_prev text (r ∷ rs) =
      let later = stale_results turn resolved_prev text rs in
      if ltb r.token_count h.min_tokens
      then later
      else if not (is_stale h resolved_prev r)
      then later
      else if is_referenced text r
      then later
      else stale_violation turn r ∷ later

  unfoldable pub stale_tool : Rule
  stale_tool turn graph previous_turns =
      let resolved_prev = resolve_previous_turns turn graph previous_turns in
      if ltb (length resolved_prev) h.min_turns
        && all (λ (b : ContextBlock). ltb b.turns_survived h.min_turns) turn.tool_results
      then []
      else stale_results turn resolved_prev (recent_assistant_text resolved_prev turn)
          turn.tool_results
