-- ===== src/Analyzer/Rules/PrefixBreak.antt =====
-- core/analyzer/heuristics/cache001_prefix_break.py: `PrefixBreakHeuristic`. Its `max_token_drift` is read
-- nowhere.
pub mod Fires
use ctxins.Base.{
  ℕ, ◌+◌, ◌*◌, ◌≡◌, ◌≢◌, ◌↔◌, refl, ap, Bool, true, false, not, ◌&&◌, ◌||◌, List, [], ◌∷◌, ◌++◌,
  Option, none, some, String, map, last, is_nil, ◌=?◌, string_eq, if◌then◌else◌, arith, Bool-cases,
  inl, inr, take, length, if-keeps,
}
use ctxins.Base.Rounding.{round_div}
use ctxins.Schema.{critical, RuleViolation, ContextBlock, CanonicalTurn}
use ctxins.Graph.Tree.{ContextGraph}
use ctxins.Stream.Sse.{Text}
use ctxins.Analyzer.Rules.{Rule, resolve_previous_turns, effective_input, loss_per_1k, pricing_of}

abbrev pub hashes : List ContextBlock → List String
hashes blocks = map (λ (b : ContextBlock). b.content_hash) blocks

-- `xs == ys` on lists of texts
abbrev pub same_texts : List String → List String → Bool
same_texts [] [] = true
same_texts (s ∷ ss) (t ∷ ts) = s =? t && same_texts ss ts
same_texts _ _ = false

-- The first block that is not the one of its place in the turn before.
unfoldable pub first_changed : List ContextBlock → List ContextBlock → Option ContextBlock
first_changed prev [] = none
first_changed [] (c ∷ curr) = some c
first_changed (p ∷ prev) (c ∷ curr) =
    let later = first_changed prev curr in
    if c.content_hash =? p.content_hash then later else some c

-- `curr_sys[0] if curr_sys else prev_sys[0]`
unfoldable pub culprit : List ContextBlock → List ContextBlock → Option ContextBlock → List String
culprit prev curr (some b) = b.block_id ∷ []
culprit prev (c ∷ curr) none = c.block_id ∷ []
culprit (p ∷ prev) [] none = p.block_id ∷ []
culprit [] [] none = []

module _ (strip lower : Text → Text) where
  unfoldable pub prefix_violation : CanonicalTurn → List ContextBlock → RuleViolation
  prefix_violation turn prev_sys = record {
    rule_id = "CACHE-001";
    severity = critical;
    title = "Prompt Cache Prefix Invalidation";
    message =
        "System prompt prefix was modified, breaking prompt cache reuse for all downstream tokens.";
    estimated_waste_usd =
        round_div (effective_input turn * loss_per_1k (pricing_of strip lower turn)) 1_000_000;
    suggested_fix =
        "Move dynamic elements (timestamps, random IDs) to the end of the prompt or into user messages to preserve cache prefixes.";
    block_ids = culprit prev_sys turn.system_blocks (first_changed prev_sys turn.system_blocks);
    turn_index = none;
  }

  -- The comparison with the turn before.
  unfoldable pub compare_prefix : CanonicalTurn → Option CanonicalTurn → List RuleViolation
  compare_prefix turn none = []
  compare_prefix turn (some last_turn) =
      if is_nil last_turn.system_blocks && is_nil turn.system_blocks
      then []
      else if same_texts (hashes last_turn.system_blocks) (hashes turn.system_blocks)
      then []
      else prefix_violation turn last_turn.system_blocks ∷ []

  unfoldable pub prefix_break : Rule
  prefix_break turn graph previous_turns =
      compare_prefix turn (last (resolve_previous_turns turn graph previous_turns))
