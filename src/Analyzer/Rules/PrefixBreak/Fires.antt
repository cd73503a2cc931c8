-- ===== src/Analyzer/Rules/PrefixBreak/Fires.antt =====
-- core/analyzer/heuristics/cache001_prefix_break.py: when the rule fires, and what it names.
use ctxins.Base.{
  ◌≡◌, ◌↔◌, refl, true, ◌&&◌, List, [], ◌∷◌, ◌++◌, none, some, String, is_nil, string_eq,
  if◌then◌else◌, arith,
}
use ctxins.Schema.{ContextBlock, CanonicalTurn}
use ctxins.Stream.Sse.{Text}
use ctxins.Analyzer.Rules.{resolve_previous_turns}
use ctxins.Analyzer.Rules.PrefixBreak.{
  hashes, same_texts, prefix_violation, compare_prefix, prefix_break,
}
use ctxins.Analyzer.Rules.CacheBusting.Same.{same_texts_refl, last-append_one}

same_texts-eq : (xs ys : List String) → same_texts xs ys ≡ true → xs ≡ ys
same_texts-eq [] [] h = refl
same_texts-eq [] (y ∷ ys) h = cc
same_texts-eq (x ∷ xs) [] h = cc
same_texts-eq (x ∷ xs) (y ∷ ys) h =
    let first_two : x ≡ y = ground (arith, string_eq.beq_iff x y) in
    let rest : xs ≡ ys = same_texts-eq xs ys (ground arith) in rw (first_two, rest)

module _ (strip lower : Text → Text) where
  compare_prefix_silent :
      (turn before : CanonicalTurn)
      → compare_prefix strip lower turn (some before) ≡ []
      → hashes before.system_blocks ≡ hashes turn.system_blocks
  unfolding compare_prefix
  compare_prefix_silent turn before h = go before.system_blocks turn.system_blocks h
    where
      go :
          (ps cs : List ContextBlock)
          → (if is_nil ps && is_nil cs
              then []
              else if same_texts (hashes ps) (hashes cs)
              then []
              else prefix_violation strip lower turn before.system_blocks ∷ [])
            ≡ []
          → hashes ps ≡ hashes cs
      go [] [] e = refl
      go [] (c ∷ cs) e = cc
      go (p ∷ ps) cs e = same_texts-eq (hashes (p ∷ ps)) (hashes cs) (ground arith)

  compare_prefix_same :
      (turn before : CanonicalTurn)
      → hashes before.system_blocks ≡ hashes turn.system_blocks
      → compare_prefix strip lower turn (some before) ≡ []
  unfolding compare_prefix
  compare_prefix_same turn before e =
      rw (e, same_texts_refl (hashes turn.system_blocks)) (ground arith)

  -- The rule is silent exactly if the system blocks have the contents that they had in the turn before, one
  -- by one.
  pub prefix_break-silent :
      (turn before : CanonicalTurn) (earlier : List CanonicalTurn)
      → (prefix_break strip lower turn none (some (earlier ++ before ∷ [])) ≡ [])
        ↔ (hashes before.system_blocks ≡ hashes turn.system_blocks)
  unfolding prefix_break resolve_previous_turns
  prefix_break-silent turn before earlier =
      rw (last-append_one earlier before)
        (compare_prefix_silent turn before, compare_prefix_same turn before)
