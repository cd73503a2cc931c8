-- ===== src/Analyzer/Pricing.antt =====
-- core/analyzer/cost/pricing_table.py: the catalog of prices and the search for a model's. Prices per 1,000
-- tokens are in units of 10^-8 US dollars. A name that is None and an empty one are not told apart by the
-- code, and are the empty text. `str.strip` and `str.lower` are parameters.
pub mod Search
pub mod Names
pub mod Keeps
use ctxins.Base.{
  ℕ, Bool, true, false, ◌||◌, List, [], ◌∷◌, Option, none, some, String, first, is_nil, map, ◌==◌,
  if◌then◌else◌,
}
use ctxins.Base.Dict.{Dict}
use ctxins.Schema.Invocations.{starts_with, occurs_in}
use ctxins.Stream.Sse.{Text, codes, text_eq}

pub record ModelPricing : Type 0 where
  pub model_name : String
  pub provider : String
  pub input_cost_per_1k : ℕ
  pub output_cost_per_1k : ℕ
  pub cache_write_cost_per_1k : ℕ
  pub cache_read_cost_per_1k : ℕ
  pub context_window : ℕ

abbrev pub claude_3_5_sonnet : ModelPricing
claude_3_5_sonnet = record {
  model_name = "claude-3-5-sonnet";
  provider = "anthropic";
  input_cost_per_1k = 300000;
  output_cost_per_1k = 1500000;
  cache_write_cost_per_1k = 375000;
  cache_read_cost_per_1k = 30000;
  context_window = 200_000;
}

abbrev pub claude_3_5_haiku : ModelPricing
claude_3_5_haiku = record {
  model_name = "claude-3-5-haiku";
  provider = "anthropic";
  input_cost_per_1k = 80000;
  output_cost_per_1k = 400000;
  cache_write_cost_per_1k = 100000;
  cache_read_cost_per_1k = 8000;
  context_window = 200_000;
}

abbrev pub claude_3_opus : ModelPricing
claude_3_opus = record {
  model_name = "claude-3-opus";
  provider = "anthropic";
  input_cost_per_1k = 1500000;
  output_cost_per_1k = 7500000;
  cache_write_cost_per_1k = 1875000;
  cache_read_cost_per_1k = 150000;
  context_window = 200_000;
}

abbrev pub gpt_4o : ModelPricing
gpt_4o = record {
  model_name = "gpt-4o";
  provider = "openai";
  input_cost_per_1k = 250000;
  output_cost_per_1k = 1000000;
  cache_write_cost_per_1k = 250000;
  cache_read_cost_per_1k = 125000;
  context_window = 128_000;
}

abbrev pub gpt_4o_mini : ModelPricing
gpt_4o_mini = record {
  model_name = "gpt-4o-mini";
  provider = "openai";
  input_cost_per_1k = 15000;
  output_cost_per_1k = 60000;
  cache_write_cost_per_1k = 15000;
  cache_read_cost_per_1k = 7500;
  context_window = 128_000;
}

abbrev pub o1 : ModelPricing
o1 = record {
  model_name = "o1";
  provider = "openai";
  input_cost_per_1k = 1500000;
  output_cost_per_1k = 6000000;
  cache_write_cost_per_1k = 1500000;
  cache_read_cost_per_1k = 750000;
  context_window = 200_000;
}

abbrev pub o1_mini : ModelPricing
o1_mini = record {
  model_name = "o1-mini";
  provider = "openai";
  input_cost_per_1k = 300000;
  output_cost_per_1k = 1200000;
  cache_write_cost_per_1k = 300000;
  cache_read_cost_per_1k = 150000;
  context_window = 128_000;
}

abbrev pub gemini_1_5_pro : ModelPricing
gemini_1_5_pro = record {
  model_name = "gemini-1.5-pro";
  provider = "gemini";
  input_cost_per_1k = 125000;
  output_cost_per_1k = 500000;
  cache_write_cost_per_1k = 125000;
  cache_read_cost_per_1k = 31250;
  context_window = 2_000_000;
}

abbrev pub gemini_1_5_flash : ModelPricing
gemini_1_5_flash = record {
  model_name = "gemini-1.5-flash";
  provider = "gemini";
  input_cost_per_1k = 7500;
  output_cost_per_1k = 30000;
  cache_write_cost_per_1k = 7500;
  cache_read_cost_per_1k = 1875;
  context_window = 1_000_000;
}

abbrev pub gemini_2_0_flash : ModelPricing
gemini_2_0_flash = record {
  model_name = "gemini-2.0-flash";
  provider = "gemini";
  input_cost_per_1k = 10000;
  output_cost_per_1k = 40000;
  cache_write_cost_per_1k = 2500;
  cache_read_cost_per_1k = 2500;
  context_window = 1_000_000;
}

abbrev pub gemini_2_5_pro : ModelPricing
gemini_2_5_pro = record {
  model_name = "gemini-2.5-pro";
  provider = "gemini";
  input_cost_per_1k = 125000;
  output_cost_per_1k = 500000;
  cache_write_cost_per_1k = 125000;
  cache_read_cost_per_1k = 31250;
  context_window = 2_000_000;
}

abbrev pub default_pricing : ModelPricing
default_pricing = record {
  model_name = "default";
  provider = "default";
  input_cost_per_1k = 300000;
  output_cost_per_1k = 1500000;
  cache_write_cost_per_1k = 375000;
  cache_read_cost_per_1k = 30000;
  context_window = 200_000;
}

unfoldable pub pricing_catalog : Dict String ModelPricing
pricing_catalog =
    ("claude-3-5-sonnet", claude_3_5_sonnet)
    ∷ ("claude-3-5-haiku", claude_3_5_haiku)
    ∷ ("claude-3-opus", claude_3_opus)
    ∷ ("gpt-4o", gpt_4o)
    ∷ ("gpt-4o-mini", gpt_4o_mini)
    ∷ ("o1", o1)
    ∷ ("o1-mini", o1_mini)
    ∷ ("gemini-1.5-pro", gemini_1_5_pro)
    ∷ ("gemini-1.5-flash", gemini_1_5_flash)
    ∷ ("gemini-2.0-flash", gemini_2_0_flash)
    ∷ ("gemini-2.5-pro", gemini_2_5_pro)
    ∷ []

-- `.replace(".", "-")`
unfoldable pub dots_to_dashes : Text → Text
dots_to_dashes [] = []
dots_to_dashes (c ∷ cs) = (if c == b'.' then b'-' else c) ∷ dots_to_dashes cs

-- 1. the entry under the name itself
unfoldable pub exact_match : Text → Option (String × ModelPricing)
exact_match name = first (λ (e : String × ModelPricing). text_eq (codes e.0) name) pricing_catalog

-- 2. the first entry whose key stands in the name
unfoldable pub names_key : Text → String × ModelPricing → Bool
names_key name e = occurs_in (codes e.0) name || starts_with (codes e.0) name

unfoldable pub substring_match : Text → Option (String × ModelPricing)
substring_match name = first (names_key name) pricing_catalog

-- 3. what a provider's name falls back to
unfoldable pub provider_fallback : Text → ModelPricing
provider_fallback norm_prov =
    if occurs_in (codes "anthropic") norm_prov
    then claude_3_5_sonnet
    else if occurs_in (codes "openai") norm_prov
    then gpt_4o
    else if occurs_in (codes "gemini") norm_prov || occurs_in (codes "google") norm_prov
    then gemini_1_5_pro
    else default_pricing

-- What an entry gives, or what comes after it.
abbrev pub entry_or : Option (String × ModelPricing) → ModelPricing → ModelPricing
entry_or none later = later
entry_or (some (k, p)) later = p

module _ (strip lower : Text → Text) where
  unfoldable pub normalized : Text → Text
  normalized model_name = dots_to_dashes (lower (strip model_name))

  unfoldable pub fallback : Text → ModelPricing
  fallback provider =
      if is_nil provider then default_pricing else provider_fallback (lower (strip provider))

  unfoldable pub get_pricing : Text → Text → ModelPricing
  get_pricing model_name provider =
      if is_nil model_name
      then default_pricing
      else entry_or (exact_match (normalized model_name))
          (entry_or (substring_match (normalized model_name)) (fallback provider))

  unfoldable pub get_model_capacity : Text → Text → ℕ
  get_model_capacity model_name provider = (get_pricing model_name provider).context_window
