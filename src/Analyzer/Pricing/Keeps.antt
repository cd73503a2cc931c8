-- ===== src/Analyzer/Pricing/Keeps.antt =====
-- core/analyzer/cost/pricing_table.py: what holds of every price that the search can give.
use ctxins.Base.{
  Bool, ◌||◌, String, first, is_nil, if-keeps, Option-cases, inl, inr, All, All-first,
}
use ctxins.Schema.Invocations.{occurs_in}
use ctxins.Stream.Sse.{Text, codes}
use ctxins.Analyzer.Pricing.{
  ModelPricing, claude_3_5_sonnet, gpt_4o, gemini_1_5_pro, default_pricing, pricing_catalog,
  exact_match, substring_match, provider_fallback, entry_or, fallback, get_pricing,
}

module _ {κ} (P : ModelPricing → Type κ) where
  pub provider_fallback-keeps :
      (name : Text)
      → P claude_3_5_sonnet
      → P gpt_4o
      → P gemini_1_5_pro
      → P default_pricing
      → P (provider_fallback name)
  unfolding provider_fallback
  provider_fallback-keeps name s g p d =
      if-keeps P (occurs_in (codes "anthropic") name) (λ _. s)
        (λ _.
          if-keeps P (occurs_in (codes "openai") name) (λ _. g)
            (λ _.
              if-keeps P (occurs_in (codes "gemini") name || occurs_in (codes "google") name)
                (λ _. p) (λ _. d)))

  entry_or-keeps :
      (p : String × ModelPricing → Bool) (later : ModelPricing)
      → All (λ (e : String × ModelPricing). P e.1) pricing_catalog
      → P later
      → P (entry_or (first p pricing_catalog) later)
  entry_or-keeps p later all h = elim (Option-cases (first p pricing_catalog)) [
    | inl missing ↦ rw missing h
    | inr (e, found) ↦ rw found (All-first (λ e. P e.1) p pricing_catalog all found).0
  ]

  -- Whatever holds of all the catalog's entries and of the default holds of every price that is found.
  pub get_pricing-keeps :
      (strip lower : Text → Text) (model_name provider : Text)
      → All (λ (e : String × ModelPricing). P e.1) pricing_catalog
      → P default_pricing
      → P (get_pricing strip lower model_name provider)
  unfolding get_pricing exact_match substring_match fallback
  get_pricing-keeps strip lower model_name provider all d =
      let named : P claude_3_5_sonnet × P gpt_4o × P gemini_1_5_pro =
        unfold pricing_catalog in (all.0, all.1.1.1.0, all.1.1.1.1.1.1.1.0) in
      if-keeps P (is_nil model_name) (λ _. d)
        (λ _. entry_or-keeps _ _ all (
          entry_or-keeps _ _ all (
            if-keeps P (is_nil provider) (λ _. d)
              (λ _. provider_fallback-keeps (lower (strip provider)) named.0 named.1 named.2 d))))
