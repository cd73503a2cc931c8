-- ===== src/Schema/Invocations.antt =====
-- schema/ast.py: `CanonicalTurn.tool_invocations`, which pairs a turn's tool calls and results. The sets of
-- ids used so far are lists; `str.lower` is a parameter.
pub mod Pairing
use Prim.Native.String.{◌++◌ as text_append}
use ctxins.Base.{
  ℕ, Bool, true, false, not, ◌&&◌, ◌||◌, List, [], ◌∷◌, ◌++◌, Option, none, some, String, first,
  keep, contains, take, ◌==◌, ◌=?◌, if◌then◌else◌, string_eq,
}
use ctxins.Base.Dict.{Dict, get}
use ctxins.Schema.{MetaValue, text, flag, ContextBlock, CanonicalTurn}
use ctxins.Stream.Sse.{Text, codes}

pub record ToolInvocation : Type 0 where
  pub call_id : String
  pub tool_name : String
  pub call_block_id : Option String
  pub result_block_id : Option String
  pub is_error : Bool

-- `a or b` on texts
unfoldable pub or_text : String → String → String
or_text a b = if a =? "" then b else a

-- `metadata.get(k)`, as a text or as a truth value
unfoldable pub meta_text : String → ContextBlock → String
meta_text k b = elim (get k b.metadata) [ none ↦ "" | some (text s) ↦ s | some (flag _) ↦ "" ]

unfoldable pub meta_flag : String → ContextBlock → Bool
meta_flag k b = elim (get k b.metadata) [
  | none ↦ false
  | some (text s) ↦ not (s =? "")
  | some (flag t) ↦ t
]

unfoldable pub tool_name_of : ContextBlock → String
tool_name_of b =
    or_text (meta_text "name" b) (or_text (meta_text "tool_name" b) (meta_text "tool" b))

unfoldable pub is_call : ContextBlock → Bool
is_call b =
    not (b.call_id =? "")
    || contains (meta_text "type" b) ("tool_use" ∷ "tool_call" ∷ "function_call" ∷ [])

-- `sub in s`
unfoldable pub starts_with : Text → Text → Bool
starts_with [] s = true
starts_with (c ∷ cs) [] = false
starts_with (c ∷ cs) (d ∷ s) = c == d && starts_with cs s

unfoldable pub occurs_in : Text → Text → Bool
occurs_in sub [] = starts_with sub []
occurs_in sub (c ∷ s) = starts_with sub (c ∷ s) || occurs_in sub s

-- The ids that the passes have used.
pub record Used : Type 0 where
  pub used_call_ids : List String
  pub used_result_ids : List String

unfoldable pub is_free : Used → ContextBlock → Bool
is_free u r = not (contains r.block_id u.used_result_ids)

unfoldable pub use_pair : ContextBlock → ContextBlock → Used → Used
use_pair call found u = record {
  used_call_ids = call.block_id ∷ u.used_call_ids;
  used_result_ids = found.block_id ∷ u.used_result_ids;
}

unfoldable pub match_by_id : List ContextBlock → Used → ContextBlock → Option ContextBlock
match_by_id results u call =
    if call.call_id =? ""
    then none
    else first (λ (r : ContextBlock). r.call_id =? call.call_id && is_free u r) results

unfoldable pub match_by_name : List ContextBlock → Used → ContextBlock → Option ContextBlock
match_by_name results u call =
    first
      (λ r. is_free u r && (tool_name_of r =? tool_name_of call) && not (tool_name_of call =? ""))
      results

-- `call.call_id or f"name:{call_name}"`
unfoldable pub pair_id : ContextBlock → String
pair_id call = or_text call.call_id (text_append "name:" (tool_name_of call))

unfoldable pub orphan_call : ContextBlock → ToolInvocation
orphan_call call = record {
  call_id = pair_id call;
  tool_name = tool_name_of call;
  call_block_id = some call.block_id;
  result_block_id = none;
  is_error = false;
}

module _ (lower : Text → Text) where
  unfoldable pub is_error_of : ContextBlock → Bool
  is_error_of b =
      meta_flag "is_error" b
      || meta_flag "error" b
      || occurs_in (codes "error") (lower (take 50 (codes b.content)))

  unfoldable pub pair : String → ContextBlock → ContextBlock → ToolInvocation
  pair cid call found = record {
    call_id = cid;
    tool_name = or_text (tool_name_of call) (tool_name_of found);
    call_block_id = some call.block_id;
    result_block_id = some found.block_id;
    is_error = is_error_of found;
  }

  unfoldable pub orphan_result : ContextBlock → ToolInvocation
  orphan_result r = record {
    call_id = or_text r.call_id (text_append "orphan:" r.block_id);
    tool_name = tool_name_of r;
    call_block_id = none;
    result_block_id = some r.block_id;
    is_error = is_error_of r;
  }

  -- Pass 1: the calls that have an id, each with the first free result of that id.
  unfoldable pub pass1 : List ContextBlock → List ContextBlock → Used → Used × List ToolInvocation
  pass1 results [] u = (u, [])
  pass1 results (call ∷ calls) u = elim (match_by_id results u call) [
    | none ↦ pass1 results calls u
    | some found ↦
        let (u', later) = pass1 results calls (use_pair call found u) in
        (u', pair call.call_id call found ∷ later)
  ]

  -- Pass 2: each other call with the first free result of its tool's name, or alone.
  unfoldable pub pass2_at : ContextBlock → Option ContextBlock → Used → Used × ToolInvocation
  pass2_at call none u =
      (record u { used_call_ids = call.block_id ∷ u.used_call_ids }, orphan_call call)
  pass2_at call (some found) u = (use_pair call found u, pair (pair_id call) call found)

  unfoldable pub pass2 : List ContextBlock → List ContextBlock → Used → Used × List ToolInvocation
  pass2 results [] u = (u, [])
  pass2 results (call ∷ calls) u =
      let (u', invocation) = pass2_at call (match_by_name results u call) u in
      let skipped = pass2 results calls u in
      let later = pass2 results calls u' in
      if contains call.block_id u.used_call_ids then skipped else (later.0, invocation ∷ later.1)

  -- Pass 3: the results that are still free.
  unfoldable pub pass3 : List ContextBlock → Used → List ToolInvocation
  pass3 [] u = []
  pass3 (r ∷ results) u =
      let later = pass3 results u in if is_free u r then orphan_result r ∷ later else later

  unfoldable pub tool_invocations : CanonicalTurn → List ToolInvocation
  tool_invocations turn =
      let calls = keep is_call (turn.conversation_history ++ turn.assistant_blocks) in
      let (u1, exact) =
        pass1 turn.tool_results calls (record { used_call_ids = []; used_result_ids = [] }) in
      let (u2, named) = pass2 turn.tool_results calls u1 in
      exact ++ (named ++ pass3 turn.tool_results u2)
