-- ===== src/Analyzer/Cost/Saving.antt =====
-- core/analyzer/cost/cost_model.py: costs of turns compared.
use native.Mathlib.Nat.{add-mul, mul-le-mul_left, mul-le-mul_right}
use ctxins.Base.{ℕ, ◌+◌, ◌-◌, ◌*◌, ◌≤◌, ◌≡◌, ap, ◌∙◌, Option, none, String, arith, All}
use ctxins.Base.Rounding.{round_div-monotone}
use ctxins.Schema.{CanonicalTurn}
use ctxins.Stream.Sse.{Text, codes}
use ctxins.Analyzer.Pricing.{ModelPricing, pricing_catalog, get_pricing}
use ctxins.Analyzer.Pricing.Keeps.{get_pricing-keeps}
use ctxins.Analyzer.Cost.{
  exact_cost, rates_for, calculate_turn_cost, calculate_token_waste, cost_unit,
}

-- A token that is read from the cache costs no more than one that is not.
abbrev IsCheaper : ModelPricing → Type 0
IsCheaper p = p.cache_read_cost_per_1k ≤ p.input_cost_per_1k

pricing_catalog-IsCheaper : All (λ (e : String × ModelPricing). IsCheaper e.1) pricing_catalog
unfolding pricing_catalog
pricing_catalog-IsCheaper = omega arith

get_pricing-IsCheaper :
    (strip lower : Text → Text) (model_name provider : Text)
    → IsCheaper (get_pricing strip lower model_name provider)
get_pricing-IsCheaper strip lower model_name provider =
    get_pricing-keeps IsCheaper strip lower model_name provider pricing_catalog-IsCheaper
      (omega arith)

-- The same turn, with a number of its input tokens read from the cache.
abbrev pub with_cached : ℕ → CanonicalTurn → CanonicalTurn
with_cached n turn = record turn { cached_read_tokens = n }

-- Of a input tokens, n or m come from the cache, at the prices i and r.
cheaper_parts : (a m n i r : ℕ) → r ≤ i → m ≤ n → n ≤ a → (a - n) * i + n * r ≤ (a - m) * i + m * r
cheaper_parts a m n i r cheap h within =
    let moved : (n - m) * r ≤ (n - m) * i = mul-le-mul_left (n - m) cheap in
    let left : (a - m) * i ≡ (a - n) * i + (n - m) * i =
      ap (λ k. k * i) (omega arith) ∙ add-mul (a - n) (n - m) i in
    let right : n * r ≡ m * r + (n - m) * r = ap (λ k. k * r) (omega arith) ∙ add-mul m (n - m) r in
    omega arith

exact_cost-cached :
    (turn : CanonicalTurn) (p : ModelPricing) (m n : ℕ)
    → IsCheaper p
    → m ≤ n
    → n ≤ turn.input_tokens
    → exact_cost (with_cached n turn) p ≤ exact_cost (with_cached m turn) p
unfolding exact_cost
exact_cost-cached turn p m n cheap h within = omega (
  arith,
  cheaper_parts turn.input_tokens m n p.input_cost_per_1k p.cache_read_cost_per_1k cheap h within,
)

module _ (strip lower : Text → Text) where
  -- At the prices of the catalog, a turn never costs more for reading more of its input from the cache.
  pub calculate_turn_cost-cached :
      (turn : CanonicalTurn) (m n : ℕ)
      → m ≤ n
      → n ≤ turn.input_tokens
      → calculate_turn_cost strip lower (with_cached n turn) none
        ≤ calculate_turn_cost strip lower (with_cached m turn) none
  unfolding calculate_turn_cost rates_for
  calculate_turn_cost-cached turn m n h within =
      let p = get_pricing strip lower (codes turn.model) (codes turn.provider) in
      round_div-monotone _ _ cost_unit (omega arith) (
        exact_cost-cached turn p m n
          (get_pricing-IsCheaper strip lower (codes turn.model) (codes turn.provider)) h within)

  -- What is charged for wasted tokens is part of the turn's cost, when they are input tokens that were not
  -- read from the cache.
  pub calculate_token_waste-bound :
      (turn : CanonicalTurn) (pricing : Option ModelPricing) (wasted : ℕ)
      → wasted ≤ turn.input_tokens - turn.cached_read_tokens
      → calculate_token_waste strip lower wasted pricing (codes turn.model) (codes turn.provider)
        ≤ calculate_turn_cost strip lower turn pricing
  unfolding calculate_token_waste calculate_turn_cost exact_cost
  calculate_token_waste-bound turn pricing wasted h =
      let p = rates_for strip lower pricing (codes turn.model) (codes turn.provider) in
      let part : wasted * p.input_cost_per_1k
          ≤ (turn.input_tokens - turn.cached_read_tokens) * p.input_cost_per_1k =
        mul-le-mul_right p.input_cost_per_1k h in
      round_div-monotone _ _ cost_unit (omega arith) (omega arith)
