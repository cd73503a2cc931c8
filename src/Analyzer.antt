-- ===== src/Analyzer.antt =====
-- core/analyzer: prices, costs, scores, the rules and the engine that runs them. Amounts that the code
-- computes in floating point are exact here, and are rounded where the code rounds them.
pub mod Pricing
pub mod Cost
pub mod Scorer
pub mod Rules
pub mod Engine
mod Tests
