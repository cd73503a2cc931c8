-- ===== src/Analyzer/Engine/Sessions.antt =====
-- core/analyzer/engine.py: the turns of an analyzed session.
use ctxins.Base.{
  ℕ, ◌+◌, ◌≡◌, ◌⊎◌, inl, inr, refl, ap, ◌∙◌, sym, List, [], ◌∷◌, ◌++◌, Option, none, some, map,
  last, All, All-append, append_assoc, append-nil, arith,
}
use ctxins.Schema.{RuleViolation, CanonicalTurn}
use ctxins.Graph.Tree.{ContextGraph}
use ctxins.Stream.Sse.{Text}
use ctxins.Analyzer.Cost.{
  exact_cost, rates_for, calculate_turn_cost, calculate_wasted_spend, total_waste,
}
use ctxins.Analyzer.Scorer.{all_violations, total_of, calculate_summary}
use ctxins.Analyzer.Scorer.Totals.{summary_from-savings}
use ctxins.Analyzer.Rules.{Rule}
use ctxins.Analyzer.Engine.{
  run_heuristics, attach, with_costs, analyze_turn, analyze_from, analyze_session,
}

-- A turn without what the analysis writes.
abbrev pub as_recorded : CanonicalTurn → CanonicalTurn
as_recorded t = record t { violations = []; turn_cost_usd = 0; wasted_cost_usd = 0 }

-- A violation that names the turn of an index.
abbrev pub Names : ℕ → RuleViolation → Type 0
Names n v = v.turn_index ≡ some n

-- A rule whose violations name no turn or the one that it is given.
abbrev pub NamesItsTurn : Rule → Type 0
NamesItsTurn rule =
    (turn : CanonicalTurn) (graph : Option ContextGraph) (prev : Option (List CanonicalTurn))
    → All (λ (v : RuleViolation). (v.turn_index ≡ none) ⊎ Names turn.turn_index v)
        (rule turn graph prev)

module _ (strip lower : Text → Text) (heuristics : List Rule) where
  -- A turn whose costs are those of the cost model.
  pub record IsCosted (t : CanonicalTurn) : Type 0 where
    pub cost : t.turn_cost_usd ≡ calculate_turn_cost strip lower t none
    pub waste : t.wasted_cost_usd ≡ calculate_wasted_spend t none

  -- A turn whose violations all name it, and whose costs are those of the cost model.
  abbrev pub IsAnalyzed : CanonicalTurn → Type 0
  IsAnalyzed t = All (Names t.turn_index) t.violations × IsCosted t

  attach-All :
      (n : ℕ) (vs : List RuleViolation)
      → All (λ (v : RuleViolation). (v.turn_index ≡ none) ⊎ Names n v) vs
      → All (Names n) (map (attach n) vs)
  unfolding attach
  attach-All n [] h = tt
  attach-All n (v ∷ vs) h = (go v.turn_index refl h.0, attach-All n vs h.1)
    where
      go :
          (o : Option ℕ)
          → v.turn_index ≡ o
          → (o ≡ none) ⊎ (o ≡ some n)
          → Names n (elim o as (λ _. RuleViolation) [
            | none ↦ record v { turn_index = some n }
            | some _ ↦ v
          ])
      go none e c = refl
      go (some i) e (inl c) = cc
      go (some i) e (inr c) = e ∙ c

  run_heuristics-All :
      (rules : List Rule) (turn : CanonicalTurn) (graph : Option ContextGraph)
      (prev : Option (List CanonicalTurn))
      → All NamesItsTurn rules
      → All
          (λ (v : RuleViolation). (v.turn_index ≡ none) ⊎ Names turn.turn_index v)
          (run_heuristics rules turn graph prev)
  unfolding run_heuristics
  run_heuristics-All [] turn graph prev h = tt
  run_heuristics-All (rule ∷ rules) turn graph prev h =
      All-append _ _ _ (h.0 turn graph prev) (run_heuristics-All rules turn graph prev h.1)

  analyze_turn-IsCosted :
      (turn : CanonicalTurn) (graph : Option ContextGraph) (prev : Option (List CanonicalTurn))
      → IsCosted (analyze_turn strip lower heuristics turn graph prev none)
  unfolding analyze_turn with_costs calculate_turn_cost calculate_wasted_spend exact_cost rates_for
  analyze_turn-IsCosted turn graph prev = record { cost = refl; waste = refl }

  analyze_turn-Names :
      (turn : CanonicalTurn) (graph : Option ContextGraph) (prev : Option (List CanonicalTurn))
      → All NamesItsTurn heuristics
      → let t = analyze_turn strip lower heuristics turn graph prev none in
        All (Names t.turn_index) t.violations
  unfolding analyze_turn with_costs
  analyze_turn-Names turn graph prev h =
      attach-All turn.turn_index _ (run_heuristics-All heuristics turn graph prev h)

  -- What holds of every analyzed turn holds of a session's.
  analyze_from-All :
      (P : CanonicalTurn → Type 0)
      → ((turn : CanonicalTurn) (graph : Option ContextGraph) (prev : Option (List CanonicalTurn))
          → P (analyze_turn strip lower heuristics turn graph prev none))
      → (graph : List CanonicalTurn → Option ContextGraph) (done turns : List CanonicalTurn)
      → All P done
      → All P (analyze_from strip lower heuristics graph done turns)
  unfolding analyze_from
  analyze_from-All P one graph done [] h = h
  analyze_from-All P one graph done (turn ∷ turns) h =
      let turn' =
        analyze_turn strip lower heuristics turn (graph (done ++ turn ∷ turns)) (some done) none in
      analyze_from-All P one graph (done ++ turn' ∷ []) turns
        (All-append P done _ h (one turn (graph (done ++ turn ∷ turns)) (some done), tt))

  analyze_session-IsCosted :
      (graph : List CanonicalTurn → Option ContextGraph) (turns : List CanonicalTurn)
      → All IsCosted (analyze_session strip lower heuristics graph turns).0
  unfolding analyze_session
  analyze_session-IsCosted graph turns =
      analyze_from-All IsCosted analyze_turn-IsCosted graph [] turns tt

  -- If each rule's violations name no turn or the one that it is given, then after a session's analysis every
  -- violation names the turn that it stands in, and every turn has the cost and the waste that the cost
  -- model gives for it.
  pub analyze_session-IsAnalyzed :
      (graph : List CanonicalTurn → Option ContextGraph) (turns : List CanonicalTurn)
      → All NamesItsTurn heuristics
      → All IsAnalyzed (analyze_session strip lower heuristics graph turns).0
  unfolding analyze_session
  analyze_session-IsAnalyzed graph turns h =
      analyze_from-All IsAnalyzed
        (λ turn g prev. (analyze_turn-Names turn g prev h, analyze_turn-IsCosted turn g prev)) graph
        [] turns tt

  map-append :
      (xs ys : List CanonicalTurn)
      → map as_recorded (xs ++ ys) ≡ map as_recorded xs ++ map as_recorded ys
  map-append [] ys = refl
  map-append (x ∷ xs) ys = ap (◌∷◌ (as_recorded x)) (map-append xs ys)

  analyze_from-as_recorded :
      (graph : List CanonicalTurn → Option ContextGraph) (done turns : List CanonicalTurn)
      → map as_recorded (analyze_from strip lower heuristics graph done turns)
        ≡ map as_recorded done ++ map as_recorded turns
  unfolding analyze_from analyze_turn with_costs
  analyze_from-as_recorded graph done [] = sym (append-nil (map as_recorded done))
  analyze_from-as_recorded graph done (turn ∷ turns) =
      let turn' =
        analyze_turn strip lower heuristics turn (graph (done ++ turn ∷ turns)) (some done) none in
      analyze_from-as_recorded graph (done ++ turn' ∷ []) turns
      ∙ (rw (map-append done (turn' ∷ []))
          (append_assoc (map as_recorded done) (as_recorded turn ∷ []) (map as_recorded turns)))

  -- The analysis keeps the turns and their order: it writes violations and costs only.
  pub analyze_session-as_recorded :
      (graph : List CanonicalTurn → Option ContextGraph) (turns : List CanonicalTurn)
      → map as_recorded (analyze_session strip lower heuristics graph turns).0
        ≡ map as_recorded turns
  unfolding analyze_session
  analyze_session-as_recorded graph turns = analyze_from-as_recorded graph [] turns

  total_waste-append :
      (vs ws : List RuleViolation) → total_waste (vs ++ ws) ≡ total_waste vs + total_waste ws
  total_waste-append [] ws = omega arith
  total_waste-append (v ∷ vs) ws = omega (arith, total_waste-append vs ws)

  All-waste :
      (turns : List CanonicalTurn)
      → All IsCosted turns
      → total_of (λ (t : CanonicalTurn). t.wasted_cost_usd) turns
        ≡ total_waste (all_violations turns)
  unfolding all_violations calculate_wasted_spend
  All-waste [] h = refl
  All-waste (t ∷ turns) h =
      let here : t.wasted_cost_usd ≡ total_waste t.violations = h.0.waste in
      omega
        (arith, here, All-waste turns h.1, total_waste-append t.violations (all_violations turns))

  -- The savings that the summary of an analyzed session reports are the waste of all its violations.
  pub analyze_session-savings :
      (graph : List CanonicalTurn → Option ContextGraph) (turns : List CanonicalTurn)
      → let turns' = (analyze_session strip lower heuristics graph turns).0 in
        (calculate_summary strip lower turns').potential_savings_usd
        ≡ total_waste (all_violations turns')
  unfolding calculate_summary
  analyze_session-savings graph turns =
      let turns' = (analyze_session strip lower heuristics graph turns).0 in
      summary_from-savings strip lower turns' (last turns') refl
      ∙ All-waste turns' (analyze_session-IsCosted graph turns)
