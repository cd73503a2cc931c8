-- ===== src/Analyzer/Scorer.antt =====
-- core/analyzer/scorer.py: `PollutionScorer`. A score is in tenths of a point, the place that it is rounded
-- to: 1000 stands for 100.0. Ratios are in units of 10^-4, percentages and thousands of tokens in tenths.
pub mod Bounds
pub mod Totals
use ctxins.Base.{
  ℕ, ◌+◌, ◌*◌, Bool, List, [], ◌∷◌, Option, none, some, String, map, sum, length, last, flatten,
  leb, is_nil, ltb, min, if◌then◌else◌, string_eq, ◌++◌, ◌||◌,
}
use ctxins.Base.Dict.{Dict, get, insert}
use ctxins.Base.Rounding.{round_div}
use ctxins.Schema.{ViolationSeverity, info, warn, critical, RuleViolation, CanonicalTurn}
use ctxins.Stream.Sse.{Text, codes}
use ctxins.Analyzer.Pricing.{get_model_capacity}

unfoldable pub severity_weight : ViolationSeverity → ℕ
severity_weight info = 2
severity_weight warn = 8
severity_weight critical = 20

-- `ViolationSeverity.value`
unfoldable pub severity_value : ViolationSeverity → String
severity_value info = "INFO"
severity_value warn = "WARN"
severity_value critical = "CRITICAL"

unfoldable pub penalty : List RuleViolation → ℕ
penalty [] = 0
penalty (v ∷ vs) = severity_weight v.severity + penalty vs

unfoldable pub total_penalty : List CanonicalTurn → ℕ
total_penalty [] = 0
total_penalty (turn ∷ turns) = penalty turn.violations + total_penalty turns

-- `min(100.0, round((total_penalty / max_normalizer) * 100.0, 1))`
unfoldable pub normalized_score : ℕ → ℕ → ℕ
normalized_score total turn_count =
    min 1000 (round_div (total * 1000) (turn_count * severity_weight critical))

unfoldable pub calculate_score : List CanonicalTurn → ℕ
calculate_score turns =
    if is_nil turns then 0 else normalized_score (total_penalty turns) (length turns)

unfoldable pub calculate_score_from_violations : List RuleViolation → ℕ → ℕ
calculate_score_from_violations violations turn_count =
    if is_nil violations || leb turn_count 0
    then 0
    else normalized_score (penalty violations) turn_count

unfoldable pub all_violations : List CanonicalTurn → List RuleViolation
all_violations [] = []
all_violations (turn ∷ turns) = turn.violations ++ all_violations turns

-- `severity_counts[key] = severity_counts.get(key, 0) + 1`
unfoldable pub count_in : String → Dict String ℕ → Dict String ℕ
count_in key counts = insert key (elim (get key counts) [ none ↦ 0 | some n ↦ n ] + 1) counts

unfoldable pub count_severities : Dict String ℕ → List RuleViolation → Dict String ℕ
count_severities counts [] = counts
count_severities counts (v ∷ vs) = count_severities (count_in (severity_value v.severity) counts) vs

abbrev pub no_counts : Dict String ℕ
no_counts = ("INFO", 0) ∷ ("WARN", 0) ∷ ("CRITICAL", 0) ∷ []

-- Costs are in units of 10^-6 US dollars, which their rounding keeps, and durations in hundredths of a
-- millisecond.
pub record Summary : Type 0 where
  pub total_turns : ℕ
  pub total_input_tokens : ℕ
  pub total_output_tokens : ℕ
  pub cached_input_tokens : ℕ
  pub cache_hit_ratio : ℕ
  pub total_duration_ms : ℕ
  pub estimated_cost_usd : ℕ
  pub pollution_score : ℕ
  pub potential_savings_usd : ℕ
  pub active_violations_count : ℕ
  pub violations_by_severity : Dict String ℕ
  pub context_capacity_tokens : ℕ
  pub context_capacity_tokens_k : ℕ
  pub latest_context_tokens : ℕ
  pub latest_context_tokens_k : ℕ
  pub context_usage_ratio : ℕ
  pub context_usage_percent : ℕ

unfoldable pub empty_summary : Summary
empty_summary = record {
  total_turns = 0;
  total_input_tokens = 0;
  total_output_tokens = 0;
  cached_input_tokens = 0;
  cache_hit_ratio = 0;
  total_duration_ms = 0;
  estimated_cost_usd = 0;
  pollution_score = 0;
  potential_savings_usd = 0;
  active_violations_count = 0;
  violations_by_severity = no_counts;
  context_capacity_tokens = 200_000;
  context_capacity_tokens_k = 2000;
  latest_context_tokens = 0;
  latest_context_tokens_k = 0;
  context_usage_ratio = 0;
  context_usage_percent = 0;
}

-- `round(part / whole, 4) if whole > 0 else 0.0`
unfoldable pub ratio_of : ℕ → ℕ → ℕ
ratio_of part whole = if ltb 0 whole then round_div (part * 10_000) whole else 0

abbrev pub total_of : (CanonicalTurn → ℕ) → List CanonicalTurn → ℕ
total_of f turns = sum (map f turns)

module _ (strip lower : Text → Text) where
  -- The summary of turns of which the last is known.
  unfoldable pub summary_with : List CanonicalTurn → CanonicalTurn → Summary
  summary_with turns last_turn =
      let total_input = total_of (λ (t : CanonicalTurn). t.input_tokens) turns in
      let cached_input = total_of (λ (t : CanonicalTurn). t.cached_read_tokens) turns in
      let capacity =
        get_model_capacity strip lower (codes last_turn.model) (codes last_turn.provider) in
      let usage_ratio = ratio_of last_turn.input_tokens capacity in
      record {
        total_turns = length turns;
        total_input_tokens = total_input;
        total_output_tokens = total_of (λ (t : CanonicalTurn). t.output_tokens) turns;
        cached_input_tokens = cached_input;
        cache_hit_ratio = ratio_of cached_input total_input;
        total_duration_ms = total_of (λ (t : CanonicalTurn). t.duration_ms) turns;
        estimated_cost_usd = total_of (λ (t : CanonicalTurn). t.turn_cost_usd) turns;
        pollution_score = calculate_score turns;
        potential_savings_usd = total_of (λ (t : CanonicalTurn). t.wasted_cost_usd) turns;
        active_violations_count = length (all_violations turns);
        violations_by_severity = count_severities no_counts (all_violations turns);
        context_capacity_tokens = capacity;
        context_capacity_tokens_k = round_div capacity 100;
        latest_context_tokens = last_turn.input_tokens;
        latest_context_tokens_k = round_div last_turn.input_tokens 100;
        context_usage_ratio = usage_ratio;
        context_usage_percent = round_div usage_ratio 10;
      }

  -- `if not turns`
  unfoldable pub summary_from : List CanonicalTurn → Option CanonicalTurn → Summary
  summary_from turns none = empty_summary
  summary_from turns (some last_turn) = summary_with turns last_turn

  unfoldable pub calculate_summary : List CanonicalTurn → Summary
  calculate_summary turns = summary_from turns (last turns)
