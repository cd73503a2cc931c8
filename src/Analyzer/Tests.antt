-- ===== src/Analyzer/Tests.antt =====
-- The analyzer at concrete turns.
use ctxins.Base.{
  inl, ℕ, ◌+◌, ◌≤◌, ◌≡◌, ◌↔◌, refl, false, List, [], ◌∷◌, ◌++◌, none, some, String, All, length,
  arith, string_eq,
}
use ctxins.Base.Dict.{get}
use ctxins.Schema.{
  BlockType, system, assistant_msg, tool_result, warn, critical, info, RuleViolation, ContextBlock,
  CanonicalTurn, all_blocks, value,
}
use ctxins.Graph.Diff.{block_match_key}
use ctxins.Schema.Invocations.{meta_text, occurs_in, starts_with}
use ctxins.Stream.Sse.{Text, codes}
use ctxins.Analyzer.Pricing.{normalized, dots_to_dashes, get_pricing}
use ctxins.Analyzer.Pricing.Names.{is_dotted, get_pricing-undotted, is_mini, get_pricing-mini}
use ctxins.Analyzer.Cost.{calculate_turn_cost, total_waste}
use ctxins.Analyzer.Cost.Saving.{with_cached, calculate_turn_cost-cached}
use ctxins.Analyzer.Scorer.{
  calculate_score, calculate_score_from_violations, all_violations, calculate_summary,
}
use ctxins.Analyzer.Scorer.Bounds.{calculate_score-from_violations, calculate_score-critical}
use ctxins.Analyzer.Scorer.Totals.{number_of, calculate_summary-severities}
use ctxins.Analyzer.Rules.{Rule, resolve_previous_turns}
use ctxins.Analyzer.Rules.PrefixBreak.{hashes, prefix_break}
use ctxins.Analyzer.Rules.PrefixBreak.Fires.{prefix_break-silent}
use ctxins.Analyzer.Rules.CacheBusting.{default_cache_busting, cache_busting}
use ctxins.Analyzer.Rules.CacheBusting.Same.{cache_busting_same}
use ctxins.Analyzer.Rules.Zombie.{default_zombie, zombie_context, said_in}
use ctxins.Analyzer.Rules.ErrorLoop.{default_error_loop, is_true, is_error_result, error_loop}
use ctxins.Analyzer.Rules.ErrorLoop.Gaps.{error_loop-gap}
use ctxins.Analyzer.Rules.Mentions.{NotAbout, zombie_context-NotAbout}
use ctxins.Analyzer.Engine.{analyze_session}
use ctxins.Analyzer.Engine.Sessions.{
  IsAnalyzed, analyze_session-IsAnalyzed, analyze_session-savings,
}

abbrev plain : Text → Text
plain t = t

abbrev digits : ℕ → String
digits n = "7"

abbrev same_length : Text → Text → ℕ × ℕ
same_length s t = (1, 1)

abbrev block : String → BlockType → String → ℕ → ContextBlock
block block_id block_type content token_count = record {
  block_id = block_id;
  block_type = block_type;
  content_hash = content;
  token_count = token_count;
  content = content;
  metadata = [];
  identity_key = "";
  first_seen_turn = 0;
  turns_survived = 4;
  call_id = "";
}

abbrev finding : RuleViolation
finding = record {
  rule_id = "R";
  severity = critical;
  title = "";
  message = "";
  estimated_waste_usd = 25;
  suggested_fix = "";
  block_ids = [];
  turn_index = none;
}

abbrev turn_at : ℕ → String → CanonicalTurn
turn_at n prompt = record {
  turn_id = "t";
  correlation_id = "t";
  session_id = "s";
  turn_index = n;
  timestamp = 0;
  provider = "openai";
  model = "gpt-4o";
  system_blocks = block "sys" system prompt 10 ∷ [];
  tool_defs = [];
  conversation_history = [];
  tool_results = block "r1" tool_result "rows" 4000 ∷ [];
  assistant_blocks = block "a1" assistant_msg "see r1" 3 ∷ [];
  input_tokens = 1000;
  output_tokens = 100;
  cached_read_tokens = 0;
  cached_created_tokens = 0;
  duration_ms = 0;
  ttft_ms = none;
  violations = finding ∷ [];
  turn_cost_usd = 0;
  wasted_cost_usd = 0;
  metadata = [];
}

abbrev one_finding : Rule
one_finding turn graph previous_turns = finding ∷ []

abbrev session : List CanonicalTurn
session = turn_at 0 "be brief" ∷ turn_at 1 "be kind" ∷ []

get_pricing-undotted_example :
    is_dotted (get_pricing plain plain (codes "gemini-2.0-flash") (codes "gemini")) ≡ false
get_pricing-undotted_example =
    get_pricing-undotted plain plain (codes "gemini-2.0-flash") (codes "gemini")

get_pricing-mini_test :
    is_mini (get_pricing plain plain (codes "gpt-4o-mini-2024-07-18") (codes "openai")) ≡ false
get_pricing-mini_test =
    get_pricing-mini plain plain (codes "gpt-4o-mini-2024-07-18") (codes "openai")
      (unfold normalized dots_to_dashes in refl)

calculate_turn_cost-cached_example :
    calculate_turn_cost plain plain (with_cached 600 (turn_at 0 "be brief")) none
    ≤ calculate_turn_cost plain plain (with_cached 0 (turn_at 0 "be brief")) none
calculate_turn_cost-cached_example =
    calculate_turn_cost-cached plain plain (turn_at 0 "be brief") 0 600 (omega arith) (omega arith)

calculate_score-from_violations_test :
    calculate_score session
    ≡ calculate_score_from_violations (all_violations session) (length session)
calculate_score-from_violations_test = calculate_score-from_violations session

calculate_score-critical_test : calculate_score session ≡ 1000
calculate_score-critical_test =
    calculate_score-critical (turn_at 0 "be brief") (turn_at 1 "be kind" ∷ []) (refl, (refl, tt))

calculate_summary-severities_test :
    let s = calculate_summary plain plain session in
    let vs = all_violations session in
    (get "INFO" s.violations_by_severity ≡ some (number_of info vs))
    × (get "WARN" s.violations_by_severity ≡ some (number_of warn vs))
    × (get "CRITICAL" s.violations_by_severity ≡ some (number_of critical vs))
    × (s.active_violations_count ≡ number_of info vs + number_of warn vs + number_of critical vs)
calculate_summary-severities_test = calculate_summary-severities plain plain session

analyze_session-IsAnalyzed_example :
    All
      (IsAnalyzed plain plain (one_finding ∷ []))
      (analyze_session plain plain (one_finding ∷ []) (λ ts. none) session).0
analyze_session-IsAnalyzed_example =
    analyze_session-IsAnalyzed plain plain (one_finding ∷ []) (λ ts. none) session
      ((λ turn graph prev. (inl refl, tt)), tt)

analyze_session-savings_example :
    let turns' = (analyze_session plain plain (one_finding ∷ []) (λ ts. none) session).0 in
    (calculate_summary plain plain turns').potential_savings_usd
    ≡ total_waste (all_violations turns')
analyze_session-savings_example =
    analyze_session-savings plain plain (one_finding ∷ []) (λ ts. none) session

prefix_break-silent_test :
    (prefix_break plain plain (turn_at 1 "be kind") none (some ([] ++ turn_at 0 "be brief" ∷ []))
      ≡ [])
    ↔ (hashes (turn_at 0 "be brief").system_blocks ≡ hashes (turn_at 1 "be kind").system_blocks)
prefix_break-silent_test =
    prefix_break-silent plain plain (turn_at 1 "be kind") (turn_at 0 "be brief") []

cache_busting_same_test :
    cache_busting plain plain digits default_cache_busting
      (turn_at 0 "be brief")
      none
      (some ([] ++ turn_at 0 "be brief" ∷ []))
    ≡ []
unfolding all_blocks block_match_key value
cache_busting_same_test =
    cache_busting_same plain plain digits default_cache_busting (turn_at 0 "be brief") [] (
      ((λ _. refl), ((λ e. cc e), ((λ e. cc e), tt))),
      (
        ((λ e. cc e), ((λ _. refl), ((λ e. cc e), tt))),
        (((λ e. cc e), ((λ e. cc e), ((λ _. refl), tt))), tt),
      ),
    )

zombie_context-NotAbout_example :
    All
      (NotAbout "r1")
      (zombie_context plain plain digits default_zombie (turn_at 0 "be brief") none (some []))
zombie_context-NotAbout_example =
    zombie_context-NotAbout plain plain digits default_zombie (turn_at 0 "be brief") none (some [])
      "r1" "see r1" refl (unfold said_in in refl) (unfold occurs_in starts_with in refl)

error_loop-gap_test :
    error_loop plain plain digits same_length default_error_loop
      (turn_at 2 "be kind")
      none
      (some session)
    ≡ []
unfolding is_error_result is_true get occurs_in meta_text starts_with resolve_previous_turns
error_loop-gap_test =
    error_loop-gap plain plain digits same_length default_error_loop (turn_at 2 "be kind") none
      (some session) refl
