-- ===== src/Analyzer/Rules/ErrorLoop/Gaps.antt =====
-- core/analyzer/heuristics/ctx003_error_loop.py: a turn without errors ends the loop.
use ctxins.Base.{
  ℕ, ◌-◌, ◌≡◌, Bool, true, List, [], ◌∷◌, ◌++◌, Option, none, String, newest, is_nil, Bool-cases,
  Option-cases, inl, inr, arith,
}
use ctxins.Schema.{CanonicalTurn}
use ctxins.Graph.Tree.{ContextGraph}
use ctxins.Stream.Sse.{Text}
use ctxins.Analyzer.Rules.{resolve_previous_turns, any}
use ctxins.Analyzer.Rules.ErrorLoop.{
  ErrorLoopHeuristic, errors_in, recent_error_blocks, judge_errors, error_loop,
}

-- A turn of some has no tool error.
abbrev pub has_gap : (Text → Text) → (Text → Text) → List CanonicalTurn → Bool
has_gap strip lower turns = any (λ (t : CanonicalTurn). is_nil (errors_in strip lower t)) turns

module _ (strip lower : Text → Text) where
  recent_error_blocks-gap :
      (ts : List CanonicalTurn)
      → has_gap strip lower ts ≡ true
      → recent_error_blocks strip lower ts ≡ none
  unfolding recent_error_blocks
  recent_error_blocks-gap [] h = cc
  recent_error_blocks-gap (t ∷ ts) h = elim (Bool-cases (is_nil (errors_in strip lower t))) [
    | inl gap ↦ elim (Option-cases (recent_error_blocks strip lower ts)) [
      | inl stopped ↦ rw stopped
      | inr (later, found) ↦ rw (found, gap)
    ]
    | inr errors ↦ rw (recent_error_blocks-gap ts (ground arith))
  ]

module _ (strip lower : Text → Text) (str_int : ℕ → String) (ratio : Text → Text → ℕ × ℕ)
    (h : ErrorLoopHeuristic) where
  -- No error loop is reported where the turn itself or one of the turns just before it, as many as count,
  -- has no tool error.
  pub error_loop-gap :
      (turn : CanonicalTurn) (graph : Option ContextGraph)
      (previous_turns : Option (List CanonicalTurn))
      → has_gap strip lower (
          newest (h.consecutive_errors - 1) (resolve_previous_turns turn graph previous_turns)
          ++ turn ∷ [])
        ≡ true
      → error_loop strip lower str_int ratio h turn graph previous_turns ≡ []
  unfolding error_loop judge_errors
  error_loop-gap turn graph previous_turns gap =
      let prev = resolve_previous_turns turn graph previous_turns in
      let window = newest (h.consecutive_errors - 1) prev ++ turn ∷ [] in
      rw (recent_error_blocks-gap strip lower window gap) (ground arith)
