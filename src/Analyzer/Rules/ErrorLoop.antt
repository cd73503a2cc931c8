-- ===== src/Analyzer/Rules/ErrorLoop.antt =====
-- core/analyzer/heuristics/ctx003_error_loop.py: `ErrorLoopHeuristic`. The ratio of `difflib`'s matcher is a
-- parameter, a quotient of two numbers; thresholds are in hundredths. At least two errors are asked for.
pub mod Gaps
use ctxins.Base.{
  ℕ, ◌+◌, ◌-◌, ◌*◌, Bool, true, false, not, ◌&&◌, ◌||◌, List, [], ◌∷◌, ◌++◌, Option, none, some,
  String, map, keep, newest, length, flatten, last, sum, ltb, leb, is_nil, ◌=?◌, string_eq,
  if◌then◌else◌,
}
use ctxins.Base.Dict.{get}
use ctxins.Schema.{text, flag, MetaValue, critical, RuleViolation, ContextBlock, CanonicalTurn}
use ctxins.Schema.Invocations.{meta_text, occurs_in}
use ctxins.Graph.Tree.{or_empty}
use ctxins.Stream.Sse.{Text, codes}
use ctxins.Analyzer.Rules.{
  Rule, resolve_previous_turns, any, join_texts, contents, concat, waste_at, pricing_of, tokens_of,
}

pub record ErrorLoopHeuristic : Type 0 where
  pub consecutive_errors : ℕ
  pub similarity_threshold : ℕ

abbrev pub default_error_loop : ErrorLoopHeuristic
default_error_loop = record { consecutive_errors = 3; similarity_threshold = 50 }

-- `meta.get("is_error") is True or meta.get("is_error") == "true"`
unfoldable pub is_true : Option MetaValue → Bool
is_true none = false
is_true (some (flag b)) = b
is_true (some (text s)) = s =? "true"

-- `s >= percent / 100` for a ratio
abbrev pub at_least : ℕ → ℕ × ℕ → Bool
at_least percent (part, whole) = leb (percent * whole) (part * 100)

-- The ratios of the texts next to each other.
unfoldable pub similarities : (Text → Text → ℕ × ℕ) → List Text → List (ℕ × ℕ)
similarities ratio [] = []
similarities ratio (s ∷ []) = []
similarities ratio (s ∷ t ∷ ts) = ratio s t ∷ similarities ratio (t ∷ ts)

abbrev pub all {ℓ} : {A : Type ℓ} → (A → Bool) → List A → Bool
all p [] = true
all p (x ∷ xs) = p x && all p xs

abbrev larger : ℕ → ℕ → ℕ
larger a b = if leb b a then a else b

module _ (strip lower : Text → Text) where
  unfoldable pub is_error_result : ContextBlock → Bool
  is_error_result block =
      let content_lower = lower (codes block.content) in
      is_true (get "is_error" block.metadata)
      || occurs_in (codes "error") (lower (codes (meta_text "status" block)))
      || occurs_in (codes "\"is_error\": true") content_lower
      || occurs_in (codes "'is_error': true") content_lower

  abbrev pub errors_in : CanonicalTurn → List ContextBlock
  errors_in turn = keep is_error_result turn.tool_results

  -- The loop over the recent turns, which returns at a turn without errors.
  unfoldable pub recent_error_blocks : List CanonicalTurn → Option (List (List ContextBlock))
  recent_error_blocks [] = some []
  recent_error_blocks (t ∷ ts) = elim (recent_error_blocks ts) [
    | none ↦ none
    | some later ↦ if is_nil (errors_in t) then none else some (errors_in t ∷ later)
  ]

module _ (strip lower : Text → Text) (str_int : ℕ → String) (ratio : Text → Text → ℕ × ℕ)
    (h : ErrorLoopHeuristic) where
  unfoldable pub is_repetitive : List Text → Bool
  is_repetitive error_texts =
      let ratios = similarities ratio error_texts in
      if leb 2 (length error_texts) && any (λ (t : Text). ltb 20 (length t)) error_texts
      then any (at_least h.similarity_threshold) ratios || all (at_least 30) ratios
      else true

  unfoldable pub loop_violation : CanonicalTurn → List (List ContextBlock) → RuleViolation
  loop_violation turn error_blocks = record {
    rule_id = "CTX-003";
    severity = critical;
    title = "Agent Error Loop Detected";
    message = concat (
        "Tool execution errors occurred across "
        ∷ str_int h.consecutive_errors
        ∷ " consecutive turns without resolution."
        ∷ []);
    estimated_waste_usd = larger 15_000 (
        waste_at (tokens_of (flatten error_blocks))
          (pricing_of strip lower turn).input_cost_per_1k);
    suggested_fix = "Inject steering prompt or terminate agent execution loop.";
    block_ids = map (λ (b : ContextBlock). b.block_id) (or_empty (last error_blocks));
    turn_index = none;
  }

  unfoldable pub judge_errors :
      CanonicalTurn → Option (List (List ContextBlock)) → List RuleViolation
  judge_errors turn none = []
  judge_errors turn (some error_blocks) =
      if ltb (length error_blocks) h.consecutive_errors
      then []
      else if is_repetitive
          (map (λ (bs : List ContextBlock). join_texts (contents bs)) error_blocks)
      then loop_violation turn error_blocks ∷ []
      else []

  unfoldable pub error_loop : Rule
  error_loop turn graph previous_turns =
      let resolved_prev = resolve_previous_turns turn graph previous_turns in
      if ltb (length resolved_prev) (h.consecutive_errors - 1)
      then []
      else judge_errors turn (
          recent_error_blocks strip lower
            (newest (h.consecutive_errors - 1) resolved_prev ++ turn ∷ []))
