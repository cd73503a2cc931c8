-- ===== src/Analyzer/Rules/SchemaBloat.antt =====
-- core/analyzer/heuristics/ctx002_schema_bloat.py: `SchemaBloatHeuristic`. Names are texts, and sets of them
-- lists without repetition; metadata that is read as a name is a text. `json.loads` is a parameter, none
-- where it raises. Ratios are in hundredths.
pub mod Usage
use ctxins.Base.{
  ℕ, zero, suc, ◌+◌, ◌*◌, ◌-◌, Bool, true, false, not, ◌&&◌, ◌||◌, ◌==◌, List, [], ◌∷◌, ◌++◌,
  Option, none, some, String, map, length, ltb, leb, is_nil, ◌=?◌, string_eq, if◌then◌else◌,
}
use ctxins.Base.Rounding.{round_div}
use ctxins.Json.{Json, null, bool, number, str, arr, obj, nil, Props, end, lookup}
use ctxins.Schema.{warn, RuleViolation, ContextBlock, CanonicalTurn}
use ctxins.Schema.Invocations.{meta_text, or_text, starts_with}
use ctxins.Stream.Sse.{Text, codes, text_eq}
use ctxins.Analyzer.Rules.{
  Rule, resolve_previous_turns, effective_input, concat, waste_at, pricing_of, tokens_of,
}

pub record SchemaBloatHeuristic : Type 0 where
  pub max_schema_ratio : ℕ
  pub min_tool_count : ℕ
  pub max_invocation_ratio : ℕ

abbrev pub default_schema_bloat : SchemaBloatHeuristic
default_schema_bloat = record {
  max_schema_ratio = 35;
  min_tool_count = 5;
  max_invocation_ratio = 15;
}

-- `name in names`
unfoldable pub is_in : Text → List Text → Bool
is_in name [] = false
is_in name (n ∷ ns) = text_eq n name || is_in name ns

-- `names.add(name)`
unfoldable pub add : Text → List Text → List Text
add name names = if is_in name names then names else name ∷ names

-- `s.replace(sub, "")`, with the number of characters of a match that are still to be left out
unfoldable pub without : Text → ℕ → Text → Text
without sub n [] = []
without sub (suc n) (c ∷ cs) = without sub n cs
without sub zero (c ∷ cs) =
    let matched = without sub (length sub - 1) cs in
    let kept = without sub zero cs in if starts_with sub (c ∷ cs) then matched else c ∷ kept

unfoldable pub registered_name : ContextBlock → Text
registered_name td =
    if meta_text "name" td =? ""
    then without (codes "tool_def_") zero (codes td.block_id)
    else codes (meta_text "name" td)

unfoldable pub registered_tools : List ContextBlock → List Text
registered_tools [] = []
registered_tools (td ∷ tds) = add (registered_name td) (registered_tools tds)

-- `if name and name in registered_tools: called_tools.add(name)`, for a name that is a text
unfoldable pub call_tool : List Text → Text → List Text → List Text
call_tool registered name called =
    if not (is_nil name) && is_in name registered then add name called else called

-- Whether a JSON value counts as false.
unfoldable pub is_falsy : Option Json → Bool
is_falsy none = true
is_falsy (some null) = true
is_falsy (some (bool b)) = not b
is_falsy (some (number n)) = n == 0
is_falsy (some (str s)) = s =? ""
is_falsy (some (arr nil)) = true
is_falsy (some (arr _)) = false
is_falsy (some (obj end)) = true
is_falsy (some (obj _)) = false

-- A value that is no text is the name of no tool: either it is not in the set, or the test raises and the
-- handler catches it.
unfoldable pub name_in : Option Json → Text
name_in (some (str s)) = codes s
name_in _ = []

-- `parsed.get("name") or parsed.get("tool_name")`
unfoldable pub result_name : Option Json → Text
result_name (some (obj ps)) =
    if is_falsy (lookup "name" ps)
    then name_in (lookup "tool_name" ps)
    else name_in (lookup "name" ps)
result_name _ = []

unfoldable pub is_tool_use : Option Json → Bool
is_tool_use (some (str s)) = s =? "tool_use"
is_tool_use _ = false

unfoldable pub used_name : Option Json → Text
used_name (some (obj ps)) =
    if is_tool_use (lookup "type" ps) then name_in (lookup "name" ps) else []
used_name _ = []

module _ (loads : String → Option Json) where
  unfoldable pub name_of_result : ContextBlock → Text
  name_of_result res =
      let tool_name = or_text (meta_text "name" res) (meta_text "tool_name" res) in
      if not (tool_name =? "")
      then codes tool_name
      else if res.content =? ""
      then []
      else result_name (loads res.content)

  unfoldable pub name_of_use : ContextBlock → Text
  name_of_use blk = if blk.content =? "" then [] else used_name (loads blk.content)

  unfoldable pub call_all : List Text → List Text → List Text → List Text
  call_all registered [] called = called
  call_all registered (name ∷ names) called =
      call_all registered names (call_tool registered name called)

  -- The loop over all the turns of the session.
  unfoldable pub called_tools : List Text → List CanonicalTurn → List Text → List Text
  called_tools registered [] called = called
  called_tools registered (t ∷ ts) called = called_tools registered ts (
      call_all registered (map name_of_use t.assistant_blocks)
        (call_all registered (map name_of_result t.tool_results) called))

module _ (strip lower : Text → Text) (str_int : ℕ → String) (loads : String → Option Json)
    (h : SchemaBloatHeuristic) where
  unfoldable pub bloat_violation : CanonicalTurn → ℕ → ℕ → RuleViolation
  bloat_violation turn called effective =
      let total_tool_tokens = tokens_of turn.tool_defs in
      record {
        rule_id = "CTX-002";
        severity = warn;
        title = "Tool Schema Overweight";
        message = concat (
            "Tool schemas occupy "
            ∷ str_int total_tool_tokens
            ∷ " tokens ("
            ∷ str_int (round_div (total_tool_tokens * 100) effective)
            ∷ "% of input), but only "
            ∷ str_int called
            ∷ "/"
            ∷ str_int (length turn.tool_defs)
            ∷ " tools have been used."
            ∷ []);
        estimated_waste_usd =
            waste_at total_tool_tokens (pricing_of strip lower turn).input_cost_per_1k;
        suggested_fix = "Group tools into subagents or filter tool schemas dynamically.";
        block_ids = map (λ (td : ContextBlock). td.block_id) turn.tool_defs;
        turn_index = none;
      }

  unfoldable pub judge_usage : CanonicalTurn → ℕ → List RuleViolation
  judge_usage turn called =
      if ltb (called * 100) (h.max_invocation_ratio * length turn.tool_defs)
      then bloat_violation turn called (effective_input turn) ∷ []
      else []

  unfoldable pub schema_bloat : Rule
  schema_bloat turn graph previous_turns =
      let called =
        called_tools loads (registered_tools turn.tool_defs)
          (resolve_previous_turns turn graph previous_turns ++ turn ∷ []) [] in
      if is_nil turn.tool_defs
      then []
      else if leb (effective_input turn) 0
      then []
      else if leb (tokens_of turn.tool_defs * 100) (h.max_schema_ratio * effective_input turn)
      then []
      else if leb (length turn.tool_defs) h.min_tool_count
      then []
      else judge_usage turn (length called)
