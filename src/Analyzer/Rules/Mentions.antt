-- ===== src/Analyzer/Rules/Mentions.antt =====
-- core/analyzer/heuristics: what a recent message mentions is not reported as stale (ctx001_stale_tool.py,
-- zombie_context.py).
use ctxins.Base.{
  ℕ, ◌≡◌, ◌≢◌, refl, sym, subst, true, false, not, ◌&&◌, ◌||◌, List, [], ◌∷◌, ◌++◌, Option, String,
  All, contains, ltb, leb, is_nil, length, ◌=?◌, string_eq, if◌then◌else◌, if-keeps, Bool-cases,
  inl, inr, arith,
}
use ctxins.Schema.{RuleViolation, ContextBlock, CanonicalTurn}
use ctxins.Schema.Invocations.{meta_text, starts_with, occurs_in}
use ctxins.Graph.Tree.{ContextGraph}
use ctxins.Stream.Sse.{Text, codes}
use ctxins.Analyzer.Rules.{resolve_previous_turns, join_texts, contents, mentioned}
use ctxins.Analyzer.Rules.StaleTool as Stale
use ctxins.Analyzer.Rules.Zombie as Zombies

starts_with-append_right : (a s q : Text) → starts_with a s ≡ true → starts_with a (s ++ q) ≡ true
unfolding starts_with
starts_with-append_right [] s q h = refl
starts_with-append_right (c ∷ a) [] q h = cc
starts_with-append_right (c ∷ a) (d ∷ s) q h = ground (arith, starts_with-append_right a s q)

starts_with-empty : (a q : Text) → starts_with a [] ≡ true → occurs_in a q ≡ true
unfolding starts_with occurs_in
starts_with-empty [] [] h = refl
starts_with-empty [] (c ∷ q) h = refl
starts_with-empty (c ∷ a) q h = cc

occurs_in-append_right : (a s q : Text) → occurs_in a s ≡ true → occurs_in a (s ++ q) ≡ true
unfolding occurs_in
occurs_in-append_right a [] q h = starts_with-empty a q h
occurs_in-append_right a (c ∷ s) q h =
    ground (arith, starts_with-append_right a (c ∷ s) q, occurs_in-append_right a s q)

occurs_in-append_left : (a p s : Text) → occurs_in a s ≡ true → occurs_in a (p ++ s) ≡ true
unfolding occurs_in
occurs_in-append_left a [] s h = h
occurs_in-append_left a (c ∷ p) s h = ground (arith, occurs_in-append_left a p s h)

occurs_in-join_texts :
    (a : Text) (s : String) (ss : List String)
    → contains s ss ≡ true
    → occurs_in a (codes s) ≡ true
    → occurs_in a (join_texts ss) ≡ true
unfolding join_texts
occurs_in-join_texts a s [] h e = cc
occurs_in-join_texts a s (t ∷ []) h e =
    let same : t ≡ s = ground (arith, string_eq.beq_iff t s) in
    subst (λ x. occurs_in a (codes x) ≡ true) (sym same) e
occurs_in-join_texts a s (t ∷ u ∷ us) h e = elim (Bool-cases (t =? s)) [
  | inl hit ↦
      let same : t ≡ s = (string_eq.beq_iff t s).0 hit in
      occurs_in-append_right a (codes t) (b' ' ∷ join_texts (u ∷ us))
        (subst (λ x. occurs_in a (codes x) ≡ true) (sym same) e)
  | inr miss ↦ occurs_in-append_left a (codes t) (b' ' ∷ join_texts (u ∷ us)) (
      occurs_in-append_left a (b' ' ∷ []) (join_texts (u ∷ us))
        (occurs_in-join_texts a s (u ∷ us) (ground arith) e))
]

contains-append_right :
    (s : String) (xs ys : List String) → contains s ys ≡ true → contains s (xs ++ ys) ≡ true
contains-append_right s [] ys h = h
contains-append_right s (x ∷ xs) ys h = ground (arith, contains-append_right s xs ys h)

-- A violation that is about the block of an id.
abbrev pub NotAbout : String → RuleViolation → Type 0
NotAbout id v = v.block_ids ≢ id ∷ []

one_id : (a b : String) → a ∷ [] ≡ b ∷ [] → a ≡ b
one_id a b e = cc

module _ (strip lower : Text → Text) (str_int : ℕ → String) where
  stale_results-NotAbout :
      (h : Stale.StaleToolHeuristic) (turn : CanonicalTurn) (prev : List CanonicalTurn)
      (text : Text) (id : String) (rs : List ContextBlock)
      → mentioned id text ≡ true
      → All (NotAbout id) (Stale.stale_results strip lower str_int h turn prev text rs)
  unfolding Stale.stale_results Stale.stale_violation Stale.is_referenced
  stale_results-NotAbout h turn prev text id [] m = tt
  stale_results-NotAbout h turn prev text id (r ∷ rs) m =
      let later = stale_results-NotAbout h turn prev text id rs m in
      if-keeps (All (NotAbout id)) (ltb r.token_count h.min_tokens) (λ _. later)
        (λ _.
          if-keeps (All (NotAbout id)) (not (Stale.is_stale h prev r)) (λ _. later)
            (λ _.
              if-keeps (All (NotAbout id))
                (mentioned (meta_text "tool_use_id" r) text || mentioned r.block_id text)
                (λ _. later)
                (λ missing. (
                  λ e.
                      let same : r.block_id ≡ id = one_id r.block_id id e in
                      let hit : mentioned r.block_id text ≡ true =
                        subst (λ i. mentioned i text ≡ true) (sym same) m in
                      ground arith,
                  later,
                ))))

  -- A tool result whose id stands in an assistant block of the turn is never reported as stale.
  pub stale_tool-NotAbout :
      (h : Stale.StaleToolHeuristic) (turn : CanonicalTurn) (graph : Option ContextGraph)
      (previous_turns : Option (List CanonicalTurn)) (id said : String)
      → (id =? "") ≡ false
      → contains said (contents turn.assistant_blocks) ≡ true
      → occurs_in (codes id) (codes said) ≡ true
      → All (NotAbout id) (Stale.stale_tool strip lower str_int h turn graph previous_turns)
  unfolding Stale.stale_tool Stale.recent_assistant_text
  stale_tool-NotAbout h turn graph previous_turns id said named among here =
      let prev = resolve_previous_turns turn graph previous_turns in
      if-keeps (All (NotAbout id))
        (ltb (length prev) h.min_turns
          && Stale.all (λ (b : ContextBlock). ltb b.turns_survived h.min_turns) turn.tool_results)
        (λ _. tt)
        (λ _.
          stale_results-NotAbout h turn prev (Stale.recent_assistant_text prev turn) id
            turn.tool_results (rw named (after_before turn.assistant_blocks _ among)))
    where
      after_before :
          (bs : List ContextBlock) (before : Text)
          → contains said (contents bs) ≡ true
          → occurs_in
              (codes id)
              (if is_nil bs then before else before ++ b' ' ∷ join_texts (contents bs))
            ≡ true
      after_before [] before h = cc
      after_before (b ∷ bs) before h =
          occurs_in-append_left (codes id) before (b' ' ∷ join_texts (contents (b ∷ bs))) (
            occurs_in-append_left (codes id) (b' ' ∷ []) (join_texts (contents (b ∷ bs)))
              (occurs_in-join_texts (codes id) said (contents (b ∷ bs)) h here))

  zombie_results-NotAbout :
      (z : Zombies.ZombieContextRule) (turn : CanonicalTurn) (prev : List CanonicalTurn)
      (text : Text) (id : String) (rs : List ContextBlock)
      → mentioned id text ≡ true
      → All (NotAbout id) (Zombies.zombie_results strip lower str_int z turn prev text rs)
  unfolding Zombies.zombie_results Zombies.zombie_violation Zombies.is_referenced
  zombie_results-NotAbout z turn prev text id [] m = tt
  zombie_results-NotAbout z turn prev text id (r ∷ rs) m =
      let later = zombie_results-NotAbout z turn prev text id rs m in
      if-keeps (All (NotAbout id)) (leb r.token_count z.min_tokens) (λ _. later)
        (λ _.
          if-keeps (All (NotAbout id)) (ltb (Zombies.turns_survived_by prev r) z.min_turns)
            (λ _. later)
            (λ _.
              if-keeps (All (NotAbout id)) (Zombies.is_referenced text r) (λ _. later)
                (λ missing. (
                  λ e.
                      let same : r.block_id ≡ id = one_id r.block_id id e in
                      let hit : mentioned r.block_id text ≡ true =
                        subst (λ i. mentioned i text ≡ true) (sym same) m in
                      ground arith,
                  later,
                ))))

  pub zombie_context-NotAbout :
      (z : Zombies.ZombieContextRule) (turn : CanonicalTurn) (graph : Option ContextGraph)
      (previous_turns : Option (List CanonicalTurn)) (id said : String)
      → (id =? "") ≡ false
      → contains said (Zombies.said_in turn) ≡ true
      → occurs_in (codes id) (codes said) ≡ true
      → All (NotAbout id) (Zombies.zombie_context strip lower str_int z turn graph previous_turns)
  unfolding Zombies.zombie_context Zombies.recent_text
  zombie_context-NotAbout z turn graph previous_turns id said named among here =
      if-keeps (All (NotAbout id)) (is_nil turn.tool_results) (λ _. tt)
        (λ _.
          zombie_results-NotAbout z turn (resolve_previous_turns turn graph previous_turns)
            (Zombies.recent_text z (resolve_previous_turns turn graph previous_turns) turn) id
            turn.tool_results
            (rw named (
              occurs_in-join_texts (codes id) said _
                (contains-append_right said _ (Zombies.said_in turn) among) here)))
