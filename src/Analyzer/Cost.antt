-- ===== src/Analyzer/Cost.antt =====
-- core/analyzer/cost/cost_model.py: `CostModel`. A cost is in units of 10^-6 US dollars, the sixth decimal
-- that the code rounds to, and a price per 1,000 tokens in units of 10^-8.
pub mod Saving
use ctxins.Base.{
  ℕ, ◌+◌, ◌-◌, ◌*◌, List, [], ◌∷◌, Option, none, some, map, sum, is_nil, if◌then◌else◌,
}
use ctxins.Base.Rounding.{round_div}
use ctxins.Schema.{RuleViolation, CanonicalTurn}
use ctxins.Stream.Sse.{Text, codes}
use ctxins.Analyzer.Pricing.{ModelPricing, get_pricing}

-- From a count of tokens times a price to a cost.
abbrev pub cost_unit : ℕ
cost_unit = 100_000

-- Before the rounding.
unfoldable pub exact_cost : CanonicalTurn → ModelPricing → ℕ
exact_cost turn rates =
    (turn.input_tokens - turn.cached_read_tokens) * rates.input_cost_per_1k
    + turn.cached_read_tokens * rates.cache_read_cost_per_1k
    + turn.cached_created_tokens * rates.cache_write_cost_per_1k
    + turn.output_tokens * rates.output_cost_per_1k

abbrev pub total_waste : List RuleViolation → ℕ
total_waste vs = sum (map (λ (v : RuleViolation). v.estimated_waste_usd) vs)

-- `violations if violations is not None else turn.violations`
unfoldable pub calculate_wasted_spend : CanonicalTurn → Option (List RuleViolation) → ℕ
calculate_wasted_spend turn none = total_waste turn.violations
calculate_wasted_spend turn (some violations) = total_waste violations

module _ (strip lower : Text → Text) where
  -- `pricing or get_pricing(model, provider)`
  unfoldable pub rates_for : Option ModelPricing → Text → Text → ModelPricing
  rates_for none model provider = get_pricing strip lower model provider
  rates_for (some pricing) model provider = pricing

  unfoldable pub calculate_turn_cost : CanonicalTurn → Option ModelPricing → ℕ
  calculate_turn_cost turn pricing =
      round_div (exact_cost turn (rates_for pricing (codes turn.model) (codes turn.provider)))
        cost_unit

  unfoldable pub calculate_token_waste : ℕ → Option ModelPricing → Text → Text → ℕ
  calculate_token_waste wasted_tokens pricing model provider =
      round_div (wasted_tokens * (rates_for pricing model provider).input_cost_per_1k) cost_unit
