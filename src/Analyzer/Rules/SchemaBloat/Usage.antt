-- ===== src/Analyzer/Rules/SchemaBloat/Usage.antt =====
-- core/analyzer/heuristics/ctx002_schema_bloat.py: the tools that count as used.
use ctxins.Base.{
  ◌≡◌, true, false, not, ◌&&◌, List, [], ◌∷◌, Option, String, map, is_nil, if-keeps, arith, All,
}
use ctxins.Json.{Json}
use ctxins.Schema.{CanonicalTurn}
use ctxins.Stream.Sse.{Text}
use ctxins.Analyzer.Rules.SchemaBloat.{
  is_in, add, call_tool, name_of_result, name_of_use, call_all, called_tools,
}

abbrev pub Once : List Text → Type 0
Once [] = Unit
Once (n ∷ ns) = (is_in n ns ≡ false) × Once ns

-- Names without repetition, each of them registered.
pub record IsUsage (registered called : List Text) : Type 0 where
  pub known : All (λ (n : Text). is_in n registered ≡ true) called
  pub once : Once called

call_tool-IsUsage :
    (registered : List Text) (name : Text) (called : List Text)
    → IsUsage registered called
    → IsUsage registered (call_tool registered name called)
unfolding call_tool add
call_tool-IsUsage registered name called h =
    if-keeps (IsUsage registered) (not (is_nil name) && is_in name registered)
      (λ found.
        if-keeps (IsUsage registered) (is_in name called) (λ _. h)
          (λ new. record { known = (ground arith, h.known); once = (new, h.once) }))
      (λ _. h)

module _ (loads : String → Option Json) where
  call_all-IsUsage :
      (registered names called : List Text)
      → IsUsage registered called
      → IsUsage registered (call_all loads registered names called)
  unfolding call_all
  call_all-IsUsage registered [] called h = h
  call_all-IsUsage registered (name ∷ names) called h =
      call_all-IsUsage registered names (call_tool registered name called)
        (call_tool-IsUsage registered name called h)

  called_tools-from :
      (registered : List Text) (turns : List CanonicalTurn) (called : List Text)
      → IsUsage registered called
      → IsUsage registered (called_tools loads registered turns called)
  unfolding called_tools
  called_tools-from registered [] called h = h
  called_tools-from registered (t ∷ turns) called h =
      let results = call_all loads registered (map (name_of_result loads) t.tool_results) called in
      let uses = call_all loads registered (map (name_of_use loads) t.assistant_blocks) results in
      called_tools-from registered turns uses (
        call_all-IsUsage registered (map (name_of_use loads) t.assistant_blocks) results
          (call_all-IsUsage registered (map (name_of_result loads) t.tool_results) called h))

  -- The tools that count as used are registered ones, each counted once.
  pub called_tools-IsUsage :
      (registered : List Text) (turns : List CanonicalTurn)
      → IsUsage registered (called_tools loads registered turns [])
  called_tools-IsUsage registered turns =
      called_tools-from registered turns [] (record { known = tt; once = tt })
