-- ===== src/Analyzer/Rules/RecurringResults.antt =====
-- core/analyzer/heuristics/ctx004_recurring_results.py: `RecurringResultsHeuristic`. Whether two blocks are
-- one object is whether they have one place in the turn's list. The ratio of `difflib`'s matcher, a quotient
-- of two numbers, and the forms of numbers in the message are parameters; thresholds are in hundredths.
pub mod Accounts
use ctxins.Base.{
  ℕ, suc, zero, ◌+◌, ◌*◌, ◌-◌, Bool, true, false, not, ◌&&◌, ◌||◌, ◌==◌, List, [], ◌∷◌, ◌++◌,
  Option, none, some, String, map, length, take, ltb, leb, is_nil, contains, ◌=?◌, string_eq,
  if◌then◌else◌,
}
use ctxins.Base.Rounding.{round_div}
use ctxins.Schema.{
  ViolationSeverity, warn, critical, RuleViolation, ContextBlock, CanonicalTurn, total_tokens,
}
use ctxins.Stream.Sse.{Text, codes}
use ctxins.Analyzer.Rules.{
  Rule, resolve_previous_turns, any, concat, waste_at, pricing_of, tokens_of,
}
use ctxins.Analyzer.Rules.ErrorLoop.{at_least}

pub record RecurringResultsHeuristic : Type 0 where
  pub token_threshold : ℕ
  pub occurrence_threshold : ℕ
  pub ratio_threshold : ℕ
  pub similarity_threshold : ℕ
  pub min_block_tokens : ℕ

abbrev pub default_recurring : RecurringResultsHeuristic
default_recurring = record {
  token_threshold = 2000;
  occurrence_threshold = 2;
  ratio_threshold = 20;
  similarity_threshold = 90;
  min_block_tokens = 150;
}

-- `abs(a - b)` and `max(a, b)`
abbrev difference : ℕ → ℕ → ℕ
difference a b = if leb b a then a - b else b - a

abbrev larger : ℕ → ℕ → ℕ
larger a b = if leb b a then a else b

abbrev both_equal : String → String → Bool
both_equal s t = not (s =? "") && not (t =? "") && s =? t

-- What the loop over the results has found: `evaluated_block_ids`, `recurring_blocks` with their ids and
-- tokens, and `max_occurrences`.
pub record Recurring : Type 0 where
  pub evaluated_block_ids : List String
  pub recurring_blocks : List ContextBlock
  pub recurring_block_ids : List String
  pub recurring_tokens : ℕ
  pub max_occurrences : ℕ

abbrev pub none_found : Recurring
none_found = record {
  evaluated_block_ids = [];
  recurring_blocks = [];
  recurring_block_ids = [];
  recurring_tokens = 0;
  max_occurrences = 1;
}

unfoldable pub account : ContextBlock → Recurring → Recurring
account b acc = record acc {
  evaluated_block_ids = b.block_id ∷ acc.evaluated_block_ids;
  recurring_blocks = acc.recurring_blocks ++ b ∷ [];
  recurring_block_ids = acc.recurring_block_ids ++ b.block_id ∷ [];
  recurring_tokens = acc.recurring_tokens + b.token_count;
}

unfoldable pub account_all : List ContextBlock → Recurring → Recurring
account_all [] acc = acc
account_all (b ∷ bs) acc = account_all bs (account b acc)

unfoldable pub raise_occurrences : ℕ → Recurring → Recurring
raise_occurrences n acc =
    if ltb acc.max_occurrences n then record acc { max_occurrences = n } else acc

-- `turn.input_tokens if turn.input_tokens > 0 else (turn.total_tokens or 1)`
unfoldable pub input_or_total : CanonicalTurn → ℕ
input_or_total turn =
    if ltb 0 turn.input_tokens
    then turn.input_tokens
    else if total_tokens turn == 0
    then 1
    else total_tokens turn

module _ (ratio : Text → Text → ℕ × ℕ) (h : RecurringResultsHeuristic) where
  unfoldable pub is_matching_result : ContextBlock → ContextBlock → Bool
  is_matching_result b1 b2 =
      let c1 = codes b1.content in
      let c2 = codes b2.content in
      let longer = larger (length c1) (length c2) in
      if both_equal b1.content_hash b2.content_hash
      then true
      else if both_equal b1.identity_key b2.identity_key
      then true
      else if b1.content =? b2.content
      then true
      else if ltb 0 longer
          && ltb ((100 - h.similarity_threshold) * longer)
              (difference (length c1) (length c2) * 100)
      then false
      else at_least h.similarity_threshold (ratio (take 2000 c1) (take 2000 c2))

  -- 1. the turns before that have a matching result
  unfoldable pub earlier_matches : ContextBlock → List CanonicalTurn → ℕ
  earlier_matches r [] = 0
  earlier_matches r (prev ∷ prevs) =
      let later = earlier_matches r prevs in
      if any (is_matching_result r) prev.tool_results then suc later else later

  -- 3. the other results of the turn that match, from the given place on
  unfoldable pub duplicates_from :
      List String → ℕ → ContextBlock → ℕ → List ContextBlock → List ContextBlock
  duplicates_from evaluated place r i [] = []
  duplicates_from evaluated place r i (other ∷ others) =
      let later = duplicates_from evaluated place r (suc i) others in
      if not (i == place) && not (contains other.block_id evaluated) && is_matching_result r other
      then other ∷ later
      else later

  unfoldable pub occurrences_of : List CanonicalTurn → ContextBlock → ℕ
  occurrences_of resolved_prev r =
      let seen = suc (earlier_matches r resolved_prev) in
      if ltb 0 r.turns_survived then larger seen (suc r.turns_survived) else seen

  unfoldable pub evaluate :
      List CanonicalTurn → List ContextBlock → ℕ → ContextBlock → Recurring → Recurring
  evaluate resolved_prev results place r acc =
      let duplicates = duplicates_from acc.evaluated_block_ids place r 0 results in
      let occurrences = occurrences_of resolved_prev r + length duplicates in
      if ltb r.token_count h.min_block_tokens
      then acc
      else if contains r.block_id acc.evaluated_block_ids
      then acc
      else if leb h.occurrence_threshold occurrences
      then raise_occurrences occurrences (account_all duplicates (account r acc))
      else acc

  -- The loop over the turn's results, from the given place on.
  unfoldable pub evaluate_from :
      List CanonicalTurn → List ContextBlock → ℕ → List ContextBlock → Recurring → Recurring
  evaluate_from resolved_prev results place [] acc = acc
  evaluate_from resolved_prev results place (r ∷ rs) acc =
      evaluate_from resolved_prev results (suc place) rs
        (evaluate resolved_prev results place r acc)

module _ (strip lower : Text → Text) (str_int str_thousands str_percent : ℕ → String)
    (ratio : Text → Text → ℕ × ℕ) (h : RecurringResultsHeuristic) where
  unfoldable pub recurring_violation : CanonicalTurn → Recurring → RuleViolation
  recurring_violation turn acc =
      let tokens = acc.recurring_tokens in
      let whole = input_or_total turn in
      record {
        rule_id = "CTX-004";
        severity = if leb 5000 tokens || leb (50 * whole) (tokens * 100) then critical else warn;
        title = "Recurring Execution Results Exceeded";
        message = concat (
            "Recurring tool results ("
            ∷ str_thousands tokens
            ∷ " tokens across "
            ∷ str_int acc.max_occurrences
            ∷ " occurrences, "
            ∷ str_percent (round_div (tokens * 1000) whole)
            ∷ "% of context) exceeded threshold ("
            ∷ str_thousands h.token_threshold
            ∷ " tokens)."
            ∷ []);
        estimated_waste_usd = waste_at tokens (pricing_of strip lower turn).input_cost_per_1k;
        suggested_fix = concat (
            "Recurring results exceed threshold ("
            ∷ str_thousands tokens
            ∷ " tokens). Optimization: 1) Shrink context by compacting or pruning repetitive tool outputs (/compact); 2) Start a fresh session (/clear) preserving only active progress and modified files; 3) Cache repetitive queries or transmit incremental diffs instead of full payload dumps."
            ∷ []);
        block_ids = acc.recurring_block_ids;
        turn_index = some turn.turn_index;
      }

  unfoldable pub judge_recurring : CanonicalTurn → Recurring → List RuleViolation
  judge_recurring turn acc =
      if is_nil acc.recurring_blocks
      then []
      else if leb h.token_threshold acc.recurring_tokens
          || leb (h.ratio_threshold * input_or_total turn) (acc.recurring_tokens * 100)
      then recurring_violation turn acc ∷ []
      else []

  unfoldable pub recurring_results : Rule
  recurring_results turn graph previous_turns = judge_recurring turn (
      evaluate_from ratio h (resolve_previous_turns turn graph previous_turns) turn.tool_results 0
        turn.tool_results none_found)
