-- ===== src/Analyzer/Engine.antt =====
-- core/analyzer/engine.py: `PollutionAnalyzer`. The rules are functions. A session's turns are the objects
-- that its graph holds, so that the graph a rule is given is a function of the turns as they stand.
pub mod Sessions
use ctxins.Base.{ℕ, List, [], ◌∷◌, ◌++◌, Option, none, some, map}
use ctxins.Schema.{RuleViolation, CanonicalTurn}
use ctxins.Graph.Tree.{ContextGraph}
use ctxins.Stream.Sse.{Text, codes}
use ctxins.Analyzer.Pricing.{ModelPricing, get_pricing}
use ctxins.Analyzer.Cost.{rates_for, calculate_turn_cost, calculate_wasted_spend}
use ctxins.Analyzer.Scorer.{calculate_score}
use ctxins.Analyzer.Rules.{Rule}

-- 1. all the rules, in their order
unfoldable pub run_heuristics :
    List Rule
    → CanonicalTurn
    → Option ContextGraph
    → Option (List CanonicalTurn)
    → List RuleViolation
run_heuristics [] turn graph previous_turns = []
run_heuristics (rule ∷ rules) turn graph previous_turns =
    rule turn graph previous_turns ++ run_heuristics rules turn graph previous_turns

-- 2. `if v.turn_index is None: v.turn_index = turn.turn_index`
unfoldable pub attach : ℕ → RuleViolation → RuleViolation
attach turn_index v = elim v.turn_index [
  | none ↦ record v { turn_index = some turn_index }
  | some _ ↦ v
]

module _ (strip lower : Text → Text) (heuristics : List Rule) where
  -- 3. the costs, of the turn with its violations
  unfoldable pub with_costs : CanonicalTurn → ModelPricing → CanonicalTurn
  with_costs turn pricing = record turn {
    turn_cost_usd = calculate_turn_cost strip lower turn (some pricing);
    wasted_cost_usd = calculate_wasted_spend turn (some turn.violations);
  }

  unfoldable pub analyze_turn :
      CanonicalTurn
      → Option ContextGraph
      → Option (List CanonicalTurn)
      → Option ModelPricing
      → CanonicalTurn
  analyze_turn turn graph previous_turns pricing =
      let violations =
        map (attach turn.turn_index) (run_heuristics heuristics turn graph previous_turns) in
      with_costs (record turn { violations = violations })
        (rates_for strip lower pricing (codes turn.model) (codes turn.provider))

  -- The loop over the session's turns, those analyzed before it first.
  unfoldable pub analyze_from :
      (List CanonicalTurn → Option ContextGraph)
      → List CanonicalTurn
      → List CanonicalTurn
      → List CanonicalTurn
  analyze_from graph done [] = done
  analyze_from graph done (turn ∷ turns) =
      let turn' = analyze_turn turn (graph (done ++ turn ∷ turns)) (some done) none in
      analyze_from graph (done ++ turn' ∷ []) turns

  unfoldable pub analyze_session :
      (List CanonicalTurn → Option ContextGraph) → List CanonicalTurn → List CanonicalTurn × ℕ
  analyze_session graph turns =
      let turns' = analyze_from graph [] turns in (turns', calculate_score turns')
