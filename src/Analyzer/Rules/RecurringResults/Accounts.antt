-- ===== src/Analyzer/Rules/RecurringResults/Accounts.antt =====
-- core/analyzer/heuristics/ctx004_recurring_results.py: what the loop has found.
use ctxins.Base.{
  ℕ, suc, ◌+◌, ◌≡◌, refl, sym, ap, ◌∙◌, List, [], ◌∷◌, ◌++◌, length, ltb, leb, contains, if-keeps,
  arith, string_eq,
}
use ctxins.Schema.{ContextBlock, CanonicalTurn}
use ctxins.Graph.Diff.{block_ids}
use ctxins.Stream.Sse.{Text}
use ctxins.Analyzer.Rules.{tokens_of}
use ctxins.Analyzer.Rules.RecurringResults.{
  RecurringResultsHeuristic, Recurring, none_found, account, account_all, raise_occurrences,
  evaluate, evaluate_from, duplicates_from, occurrences_of,
}

-- The ids and the tokens are those of the blocks.
pub record IsAccounted (acc : Recurring) : Type 0 where
  pub ids : acc.recurring_block_ids ≡ block_ids acc.recurring_blocks
  pub tokens : acc.recurring_tokens ≡ tokens_of acc.recurring_blocks

block_ids-append : (xs ys : List ContextBlock) → block_ids (xs ++ ys) ≡ block_ids xs ++ block_ids ys
block_ids-append [] ys = refl
block_ids-append (x ∷ xs) ys = ap (◌∷◌ x.block_id) (block_ids-append xs ys)

tokens_of-append : (xs ys : List ContextBlock) → tokens_of (xs ++ ys) ≡ tokens_of xs + tokens_of ys
tokens_of-append [] ys = omega arith
tokens_of-append (x ∷ xs) ys = omega (arith, tokens_of-append xs ys)

account-IsAccounted :
    (b : ContextBlock) (acc : Recurring) → IsAccounted acc → IsAccounted (account b acc)
unfolding account
account-IsAccounted b acc h = record {
  ids = ap (λ l. l ++ b.block_id ∷ []) h.ids ∙ sym (block_ids-append acc.recurring_blocks (b ∷ []));
  tokens = omega (arith, h.tokens, tokens_of-append acc.recurring_blocks (b ∷ []));
}

account_all-IsAccounted :
    (bs : List ContextBlock) (acc : Recurring) → IsAccounted acc → IsAccounted (account_all bs acc)
unfolding account_all
account_all-IsAccounted [] acc h = h
account_all-IsAccounted (b ∷ bs) acc h =
    account_all-IsAccounted bs (account b acc) (account-IsAccounted b acc h)

raise_occurrences-IsAccounted :
    (n : ℕ) (acc : Recurring) → IsAccounted acc → IsAccounted (raise_occurrences n acc)
unfolding raise_occurrences
raise_occurrences-IsAccounted n acc h =
    if-keeps IsAccounted (ltb acc.max_occurrences n)
      (λ _. record { ids = h.ids; tokens = h.tokens }) (λ _. h)

module _ (ratio : Text → Text → ℕ × ℕ) (h : RecurringResultsHeuristic) where
  evaluate-IsAccounted :
      (prev : List CanonicalTurn) (results : List ContextBlock) (place : ℕ) (r : ContextBlock)
      (acc : Recurring)
      → IsAccounted acc
      → IsAccounted (evaluate ratio h prev results place r acc)
  unfolding evaluate
  evaluate-IsAccounted prev results place r acc k =
      let duplicates = duplicates_from ratio h acc.evaluated_block_ids place r 0 results in
      let occurrences = occurrences_of ratio h prev r + length duplicates in
      if-keeps IsAccounted (ltb r.token_count h.min_block_tokens) (λ _. k)
        (λ _.
          if-keeps IsAccounted (contains r.block_id acc.evaluated_block_ids) (λ _. k)
            (λ _.
              if-keeps IsAccounted (leb h.occurrence_threshold occurrences)
                (λ _.
                  raise_occurrences-IsAccounted occurrences (account_all duplicates (account r acc))
                    (account_all-IsAccounted duplicates (account r acc)
                      (account-IsAccounted r acc k)))
                (λ _. k)))

  evaluate_from-keeps :
      (prev : List CanonicalTurn) (results : List ContextBlock) (place : ℕ) (rs : List ContextBlock)
      (acc : Recurring)
      → IsAccounted acc
      → IsAccounted (evaluate_from ratio h prev results place rs acc)
  unfolding evaluate_from
  evaluate_from-keeps prev results place [] acc k = k
  evaluate_from-keeps prev results place (r ∷ rs) acc k =
      evaluate_from-keeps prev results (suc place) rs (evaluate ratio h prev results place r acc)
        (evaluate-IsAccounted prev results place r acc k)

  -- The ids and the tokens that the rule reports are those of the blocks that it found recurring.
  pub evaluate_from-IsAccounted :
      (prev : List CanonicalTurn) (results : List ContextBlock)
      → IsAccounted (evaluate_from ratio h prev results 0 results none_found)
  evaluate_from-IsAccounted prev results =
      evaluate_from-keeps prev results 0 results none_found (record { ids = refl; tokens = refl })
