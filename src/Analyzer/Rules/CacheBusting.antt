-- ===== src/Analyzer/Rules/CacheBusting.antt =====
-- core/analyzer/heuristics/cache_invalidation.py: `CacheBustingPrefixRule`. Thresholds are in hundredths.
-- A block's message label is the value of its type.
pub mod Same
use ctxins.Base.{
  ℕ, suc, zero, ◌+◌, ◌-◌, ◌*◌, ◌/◌, Bool, true, false, not, ◌&&◌, ◌||◌, ◌==◌, List, [], ◌∷◌, ◌++◌,
  Option, none, some, String, map, keep, take, drop, length, last, first, sum, ltb, leb, is_nil,
  contains, min, ◌=?◌, string_eq, nat_eq, if◌then◌else◌,
}
use ctxins.Base.Dict.{Dict, get}
use ctxins.Base.Rounding.{round_div}
use ctxins.Schema.{
  BlockType, system, tool_def, skill, assistant_msg, value, MetaValue, text, flag,
  ViolationSeverity, warn, critical, RuleViolation, ContextBlock, CanonicalTurn, all_blocks,
  TurnDelta,
}
use ctxins.Graph.Diff.{truthy, compute_delta}
use ctxins.Graph.Tree.{ContextGraph}
use ctxins.Graph.Tree.Queries.{get_delta}
use ctxins.Stream.Sse.{Text}
use ctxins.Analyzer.Rules.{
  Rule, resolve_previous_turns, any, concat, loss_per_1k, pricing_of, tokens_of,
}
use ctxins.Analyzer.Rules.PrefixBreak.{hashes, same_texts}

pub record CacheBustingPrefixRule : Type 0 where
  pub prefix_ratio_threshold : ℕ
  pub custom_severity : Option ViolationSeverity
  pub suggested_fix : String

abbrev pub default_cache_busting : CacheBustingPrefixRule
default_cache_busting = record {
  prefix_ratio_threshold = 30;
  custom_severity = none;
  suggested_fix =
      "Keep system instructions and skills immutable across turns; move dynamic state to tail";
}

-- `block_type in STATIC_BLOCK_TYPES`
unfoldable pub is_static : ContextBlock → Bool
is_static b = contains (value b.block_type) ("system" ∷ "tool_def" ∷ "skill" ∷ [])

unfoldable pub is_instruction : ContextBlock → Bool
is_instruction b = contains (value b.block_type) ("system" ∷ "skill" ∷ [])

-- `block_by_id.get(bid)`: the last block of that id
unfoldable pub block_by_id : List ContextBlock → String → Option ContextBlock
block_by_id [] bid = none
block_by_id (b ∷ bs) bid = elim (block_by_id bs bid) [
  | some later ↦ some later
  | none ↦ if b.block_id =? bid then some b else none
]

-- `==` of two blocks, field by field; metadata agree whatever their order
abbrev meta_value_eq : Option MetaValue → MetaValue → Bool
meta_value_eq (some (text s)) (text t) = s =? t
meta_value_eq (some (flag true)) (flag b) = b
meta_value_eq (some (flag false)) (flag b) = not b
meta_value_eq _ _ = false

abbrev has_entries : Dict String MetaValue → Dict String MetaValue → Bool
has_entries d [] = true
has_entries d ((k, v) ∷ e) = meta_value_eq (get k d) v && has_entries d e

unfoldable pub block_eq : ContextBlock → ContextBlock → Bool
block_eq a b =
    a.block_id =? b.block_id
    && value a.block_type =? value b.block_type
    && a.content_hash =? b.content_hash
    && a.token_count == b.token_count
    && a.content =? b.content
    && has_entries a.metadata b.metadata
    && length a.metadata == length b.metadata
    && a.identity_key =? b.identity_key
    && a.first_seen_turn == b.first_seen_turn
    && a.turns_survived == b.turns_survived
    && a.call_id =? b.call_id

-- `curr_blocks.index(block)`
unfoldable pub index_of : ContextBlock → List ContextBlock → ℕ
index_of block [] = 0
index_of block (b ∷ bs) = let later = index_of block bs in if block_eq b block then 0 else suc later

-- `graph.get_delta(...)`, or what the diff gives
unfoldable pub delta_for : CanonicalTurn → CanonicalTurn → Option ContextGraph → TurnDelta
delta_for prev_turn turn none = compute_delta (some prev_turn) turn
delta_for prev_turn turn (some graph) = elim (get_delta graph turn.turn_index) [
  | some delta ↦ delta
  | none ↦ compute_delta (some prev_turn) turn
]

unfoldable pub mutated_static : List ContextBlock → List String → List ContextBlock
mutated_static blocks [] = []
mutated_static blocks (bid ∷ bids) =
    let later = mutated_static blocks bids in
    elim (block_by_id blocks bid) [
      | none ↦ later
      | some b ↦ if is_static b then b ∷ later else later
    ]

unfoldable pub breakpoint_of : List ContextBlock → Option String → Option ContextBlock
breakpoint_of blocks none = none
breakpoint_of blocks (some bid) = if truthy bid then block_by_id blocks bid else none

unfoldable pub breakpoint_index : List ContextBlock → Option ContextBlock → ℕ
breakpoint_index blocks none = 0
breakpoint_index blocks (some b) = index_of b blocks

-- `a or b` on numbers
abbrev or_number : ℕ → ℕ → ℕ
or_number a b = if a == 0 then b else a

-- `max(1, n)`
abbrev pub at_least_one : ℕ → ℕ
at_least_one n = or_number n 1

abbrev pub test : (ContextBlock → Bool) → Option ContextBlock → Bool
test p none = false
test p (some b) = p b

unfoldable pub static_changed : CanonicalTurn → CanonicalTurn → Bool
static_changed prev_turn turn = not (
    same_texts (hashes (keep is_static (all_blocks prev_turn)))
      (hashes (keep is_static (all_blocks turn))))

unfoldable pub is_in_early_prefix : CacheBustingPrefixRule → CanonicalTurn → ℕ → Bool
is_in_early_prefix rule turn bp_index =
    let blocks = all_blocks turn in
    let total_tokens = or_number (tokens_of blocks) (or_number turn.input_tokens 1) in
    leb (bp_index * 100) (rule.prefix_ratio_threshold * at_least_one (length blocks))
    || leb (tokens_of (take bp_index blocks) * 100) (rule.prefix_ratio_threshold * total_tokens)

unfoldable pub is_triggered :
    CacheBustingPrefixRule
    → CanonicalTurn
    → CanonicalTurn
    → List ContextBlock
    → Option ContextBlock
    → Bool
is_triggered rule prev_turn turn mutated bp_block =
    let bp_index = breakpoint_index (all_blocks turn) bp_block in
    not (is_nil mutated)
    || test is_static bp_block
    || (is_in_early_prefix rule turn bp_index
        && (test is_static bp_block
            || static_changed prev_turn turn
            || test (λ _. any is_static (drop bp_index (all_blocks turn))) bp_block))

abbrev add_culprits : List ContextBlock → List String → List String
add_culprits [] ids = ids
add_culprits (b ∷ bs) ids =
    add_culprits bs (if contains b.block_id ids then ids else ids ++ b.block_id ∷ [])

abbrev first_id : List ContextBlock → List String
first_id [] = []
first_id (b ∷ bs) = b.block_id ∷ []

abbrev id_of : Option ContextBlock → List String
id_of none = []
id_of (some b) = b.block_id ∷ []

unfoldable pub culprit_ids :
    List ContextBlock → List ContextBlock → Option ContextBlock → List String
culprit_ids blocks mutated bp_block =
    let ids = add_culprits mutated (id_of bp_block) in if is_nil ids then first_id blocks else ids

unfoldable pub severity_for :
    Option ViolationSeverity → List ContextBlock → Option ContextBlock → ViolationSeverity
severity_for (some severity) mutated bp_block = severity
severity_for none mutated bp_block =
    if test is_instruction bp_block || any is_instruction mutated then critical else warn

abbrev pub not_assistant : ContextBlock → Bool
not_assistant b = not (value b.block_type =? value assistant_msg)

-- The tokens after the breakpoint, as a share of the turn's input where that is reported.
unfoldable pub wasted_tokens : CanonicalTurn → ℕ → ℕ
wasted_tokens turn bp_index =
    let blocks = all_blocks turn in
    let downstream = tokens_of (keep not_assistant (drop bp_index blocks)) in
    let total = at_least_one (tokens_of (keep not_assistant blocks)) in
    if ltb 0 turn.input_tokens
    then at_least_one (turn.input_tokens * min total downstream / total)
    else at_least_one downstream

abbrev label_of : Option ContextBlock → String
label_of none = "static_block"
label_of (some b) = value b.block_type

module _ (strip lower : Text → Text) (str_int : ℕ → String) (rule : CacheBustingPrefixRule) where
  unfoldable pub cache_waste : CanonicalTurn → ℕ → ℕ
  cache_waste turn wasted =
      let pricing = pricing_of strip lower turn in
      let waste_usd = round_div (wasted * loss_per_1k pricing) 1_000_000 in
      if waste_usd == 0
      then round_div (wasted * pricing.input_cost_per_1k * 9) 1_000_000
      else waste_usd

  unfoldable pub busting_violation :
      CanonicalTurn → List ContextBlock → Option ContextBlock → RuleViolation
  busting_violation turn mutated bp_block =
      let blocks = all_blocks turn in
      let wasted = wasted_tokens turn (breakpoint_index blocks bp_block) in
      record {
        rule_id = "CTX-007";
        severity = severity_for rule.custom_severity mutated bp_block;
        title = "Prefix Cache Mutation";
        message = concat (
            "Prefix cache invalidated near start of context ("
            ∷ label_of bp_block
            ∷ " mutated/inserted), busting prompt cache reuse for "
            ∷ str_int wasted
            ∷ " downstream tokens."
            ∷ []);
        estimated_waste_usd = cache_waste turn wasted;
        suggested_fix = rule.suggested_fix;
        block_ids = culprit_ids blocks mutated bp_block;
        turn_index = none;
      }

  unfoldable pub judge_delta : CanonicalTurn → CanonicalTurn → TurnDelta → List RuleViolation
  judge_delta prev_turn turn delta =
      let blocks = all_blocks turn in
      let mutated = mutated_static blocks delta.mutated_block_ids in
      let bp_block = breakpoint_of blocks delta.cache_breakpoint_block_id in
      if is_nil blocks
      then []
      else if is_triggered rule prev_turn turn mutated bp_block
      then busting_violation turn mutated bp_block ∷ []
      else []

  unfoldable pub against :
      Option CanonicalTurn → CanonicalTurn → Option ContextGraph → List RuleViolation
  against none turn graph = []
  against (some prev_turn) turn graph = judge_delta prev_turn turn (delta_for prev_turn turn graph)

  unfoldable pub cache_busting : Rule
  cache_busting turn graph previous_turns =
      against (last (resolve_previous_turns turn graph previous_turns)) turn graph
