-- ===== src/Analyzer/Rules.antt =====
-- core/analyzer/heuristics: the rules, each a function of a turn, a graph and the turns before. Here is
-- what base.py gives them all, and what several of them write out. `strip` and `lower` are Python's.
pub mod PrefixBreak
pub mod StaleTool
pub mod Zombie
pub mod ErrorLoop
pub mod CacheBusting
pub mod Mentions
pub mod SchemaBloat
pub mod RecurringResults
use Prim.Native.String.{◌++◌ as text_append}
use ctxins.Base.{
  ℕ, ◌+◌, ◌-◌, ◌*◌, Bool, true, false, not, ◌&&◌, List, [], ◌∷◌, ◌++◌, Option, none, some, String,
  map, sum, keep, ltb, leb, ◌==◌, ◌=?◌, string_eq, newest, if◌then◌else◌,
}
use ctxins.Base.Rounding.{round_div}
use ctxins.Schema.{ViolationSeverity, RuleViolation, ContextBlock, CanonicalTurn, all_blocks}
use ctxins.Schema.Invocations.{occurs_in}
use ctxins.Graph.Tree.{ContextGraph}
use ctxins.Stream.Sse.{Text, codes}
use ctxins.Analyzer.Pricing.{ModelPricing, get_pricing}

abbrev pub Rule : Type 0
Rule = CanonicalTurn → Option ContextGraph → Option (List CanonicalTurn) → List RuleViolation

unfoldable pub resolve_previous_turns :
    CanonicalTurn → Option ContextGraph → Option (List CanonicalTurn) → List CanonicalTurn
resolve_previous_turns turn graph (some previous_turns) = previous_turns
resolve_previous_turns turn (some graph) none =
    keep (λ (t : CanonicalTurn). ltb t.turn_index turn.turn_index) graph.turns
resolve_previous_turns turn none none = []

-- `sum(b.token_count for b in blocks)`
abbrev pub tokens_of : List ContextBlock → ℕ
tokens_of blocks = sum (map (λ (b : ContextBlock). b.token_count) blocks)

-- `any(p(x) for x in xs)`
abbrev pub any {ℓ} : {A : Type ℓ} → (A → Bool) → List A → Bool
any p [] = false
any p (x ∷ xs) = if p x then true else any p xs

-- `" ".join(texts)`
unfoldable pub join_texts : List String → Text
join_texts [] = []
join_texts (s ∷ []) = codes s
join_texts (s ∷ t ∷ ts) = codes s ++ b' ' ∷ join_texts (t ∷ ts)

-- `b.content for b in blocks`
abbrev pub contents : List ContextBlock → List String
contents blocks = map (λ (b : ContextBlock). b.content) blocks

-- `s and s in text`
abbrev pub mentioned : String → Text → Bool
mentioned s text = not (s =? "") && occurs_in (codes s) text

-- The decimal form of a number, in an f-string, is a parameter of the rules that write one.
abbrev pub concat : List String → String
concat [] = ""
concat (s ∷ ss) = text_append s (concat ss)

-- `turn.input_tokens or sum(b.token_count for b in turn.all_blocks)`
unfoldable pub effective_input : CanonicalTurn → ℕ
effective_input turn =
    if turn.input_tokens == 0 then tokens_of (all_blocks turn) else turn.input_tokens

-- What a token costs more, or nine tenths of its price where that is nothing; in tenths of the prices' unit.
unfoldable pub loss_per_1k : ModelPricing → ℕ
loss_per_1k p =
    if leb p.input_cost_per_1k p.cache_read_cost_per_1k
    then p.input_cost_per_1k * 9
    else (p.input_cost_per_1k - p.cache_read_cost_per_1k) * 10

-- `round((tokens / 1000.0) * price, 6)`
unfoldable pub waste_at : ℕ → ℕ → ℕ
waste_at tokens price = round_div (tokens * price) 100_000

module _ (strip lower : Text → Text) where
  unfoldable pub pricing_of : CanonicalTurn → ModelPricing
  pricing_of turn = get_pricing strip lower (codes turn.model) (codes turn.provider)
