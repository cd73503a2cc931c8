-- ===== src/Analyzer/Rules/CacheBusting/Same.antt =====
-- core/analyzer/heuristics/cache_invalidation.py: a turn that repeats the one before.
use ctxins.Base.{
  ℕ, ◌≡◌, refl, true, false, List, [], ◌∷◌, ◌++◌, none, some, String, last, string_eq, beq_refl,
  arith,
}
use ctxins.Schema.{CanonicalTurn, all_blocks, TurnDelta}
use ctxins.Graph.Diff.{compute_delta}
use ctxins.Graph.Diff.Unchanged.{OneContent, delta_between_self}
use ctxins.Stream.Sse.{Text}
use ctxins.Analyzer.Rules.{resolve_previous_turns}
use ctxins.Analyzer.Rules.PrefixBreak.{same_texts}
use ctxins.Analyzer.Rules.CacheBusting.{
  CacheBustingPrefixRule, is_triggered, static_changed, breakpoint_of, mutated_static, delta_for,
  judge_delta, against, cache_busting,
}

pub same_texts_refl : (xs : List String) → same_texts xs xs ≡ true
same_texts_refl [] = refl
same_texts_refl (x ∷ xs) = rw (beq_refl x, same_texts_refl xs)

pub last-append_one : (ts : List CanonicalTurn) (t : CanonicalTurn) → last (ts ++ t ∷ []) ≡ some t
last-append_one [] t = refl
last-append_one (u ∷ []) t = refl
last-append_one (u ∷ v ∷ ts) t = last-append_one (v ∷ ts) t

module _ (strip lower : Text → Text) (str_int : ℕ → String) (rule : CacheBustingPrefixRule) where
  is_triggered_same : (turn : CanonicalTurn) → is_triggered rule turn turn [] none ≡ false
  unfolding is_triggered static_changed
  is_triggered_same turn = rw same_texts_refl (ground arith)

  judge_delta_same :
      (turn : CanonicalTurn) (delta : TurnDelta)
      → delta.mutated_block_ids ≡ []
      → delta.cache_breakpoint_block_id ≡ none
      → judge_delta strip lower str_int rule turn turn delta ≡ []
  unfolding judge_delta mutated_static breakpoint_of
  judge_delta_same turn delta m b = rw (m, b, is_triggered_same turn) (ground arith)

  -- A turn that repeats the one before it, in which the blocks of one key have one content, is never
  -- reported for breaking the prompt cache.
  pub cache_busting_same :
      (turn : CanonicalTurn) (earlier : List CanonicalTurn)
      → OneContent (all_blocks turn)
      → cache_busting strip lower str_int rule turn none (some (earlier ++ turn ∷ [])) ≡ []
  unfolding cache_busting against resolve_previous_turns delta_for compute_delta
  cache_busting_same turn earlier one =
      let (a, r, m, p, b, g) = delta_between_self turn one in
      rw (last-append_one earlier turn) (judge_delta_same turn _ m b)
