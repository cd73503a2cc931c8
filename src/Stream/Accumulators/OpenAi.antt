-- ===== src/Stream/Accumulators/OpenAi.antt =====
-- interceptor/stream/accumulators/openai.py: `OpenAIAccumulator`. The blocks that its fields share with the
-- list are places in the list.
pub mod Order
pub mod Done
use Prim.Native.String.{◌++◌ as text_append}
use ctxins.Base.{
  ℕ, zero, suc, leb, Bool, true, false, not, List, [], ◌∷◌, ◌++◌, Option, none, some, String,
  length, is_nil, ◌=?◌, string_eq, nat_eq, if◌then◌else◌, Result, ok, raise, Exception,
}
use ctxins.Base.Dict.{Dict, get, insert, values}
use ctxins.Json.{Json}
use ctxins.Wire.{UsageMetrics, no_usage, ContentBlock, content_block}
use ctxins.Stream.Sse.{Text, codes, text_eq, SseEvent}
use ctxins.Stream.Accumulators.{
  EventSource, Loaded, unread, loaded, broken, or_empty, append_text, finalize_block,
}

pub record ToolCallDelta : Type 0 where
  pub index : Option ℕ
  pub id : Option String
  pub name : Option String
  pub arguments : Option String

pub record Choice : Type 0 where
  pub finish_reason : Option String
  pub reasoning_content : Option String
  pub content : Option String
  pub tool_calls : List ToolCallDelta

pub record UsageData : Type 0 where
  pub prompt_tokens : Option ℕ
  pub completion_tokens : Option ℕ
  pub cached_tokens : Option ℕ
  pub reasoning_tokens : Option ℕ

pub record Chunk : Type 0 where
  pub usage : Option UsageData
  pub choices : List Choice

pub record Turn : Type 0 where
  pub ordered_blocks : List ContentBlock
  pub thinking_block : Option ℕ
  pub text_block : Option ℕ
  pub tool_blocks : Dict ℕ ℕ
  pub stop_reason : Option String
  pub usage : UsageMetrics
  pub is_done : Bool

unfoldable pub new_turn : Turn
new_turn = record {
  ordered_blocks = [];
  thinking_block = none;
  text_block = none;
  tool_blocks = [];
  stop_reason = none;
  usage = no_usage;
  is_done = false;
}

-- The block at a place, changed.
unfoldable pub modify_at : ℕ → (ContentBlock → ContentBlock) → List ContentBlock → List ContentBlock
modify_at i f [] = []
modify_at zero f (b ∷ bs) = f b ∷ bs
modify_at (suc i) f (b ∷ bs) = b ∷ modify_at i f bs

-- The place of a block that is there, or that of a new one at the end.
unfoldable pub ensure : String → Option ℕ → List ContentBlock → ℕ × List ContentBlock
ensure block_type (some i) blocks = (i, blocks)
ensure block_type none blocks = (
  length blocks,
  blocks ++ record (content_block (length blocks) block_type) { text = some "" } ∷ [],
)

unfoldable pub add_reasoning : Option String → Turn → Turn
add_reasoning none t = t
add_reasoning (some reasoning) t =
    let (i, blocks) = ensure "thinking" t.thinking_block t.ordered_blocks in
    record t {
      thinking_block = some i;
      ordered_blocks = modify_at i (append_text reasoning) blocks;
    }

unfoldable pub add_content : Option String → Turn → Turn
add_content none t = t
add_content (some content) t =
    let (i, blocks) = ensure "text" t.text_block t.ordered_blocks in
    record t { text_block = some i; ordered_blocks = modify_at i (append_text content) blocks }

unfoldable pub new_tool_block : ℕ → ToolCallDelta → ContentBlock
new_tool_block index tc = record (content_block index "tool_use") {
  tool_id = tc.id;
  tool_name = tc.name;
  partial_json = some (or_empty tc.arguments);
}

-- `if s: ...`, for what is appended to an old text
abbrev appended : Option String → Option String → Option String
appended old none = old
appended old (some more) = if more =? "" then old else some (text_append (or_empty old) more)

abbrev replaced : Option String → Option String → Option String
replaced old none = old
replaced old (some new) = if new =? "" then old else some new

unfoldable pub extend_tool : ToolCallDelta → ContentBlock → ContentBlock
extend_tool tc b = record b {
  tool_id = replaced b.tool_id tc.id;
  tool_name = appended b.tool_name tc.name;
  partial_json = appended b.partial_json tc.arguments;
}

-- `tc.get("index", 0)`
abbrev pub index_or_zero : Option ℕ → ℕ
index_or_zero none = 0
index_or_zero (some i) = i

-- A tool call's delta, with the place that its index has, if any.
unfoldable pub add_tool_at : Option ℕ → ToolCallDelta → Turn → Turn
add_tool_at (some i) tc t = record t {
  ordered_blocks = modify_at i (extend_tool tc) t.ordered_blocks;
}
add_tool_at none tc t =
    let place = length t.ordered_blocks in
    record t {
      tool_blocks = insert (index_or_zero tc.index) place t.tool_blocks;
      ordered_blocks = t.ordered_blocks ++ new_tool_block place tc ∷ [];
    }

unfoldable pub add_tool : ToolCallDelta → Turn → Turn
add_tool tc t = add_tool_at (get (index_or_zero tc.index) t.tool_blocks) tc t

unfoldable pub add_tools : List ToolCallDelta → Turn → Turn
add_tools [] t = t
add_tools (tc ∷ tcs) t = add_tools tcs (add_tool tc t)

unfoldable pub set_finish : Option String → Turn → Turn
set_finish none t = t
set_finish (some reason) t = record t { stop_reason = some reason }

unfoldable pub handle_choice : Choice → Turn → Turn
handle_choice c t =
    add_tools c.tool_calls
      (add_content c.content (add_reasoning c.reasoning_content (set_finish c.finish_reason t)))

abbrev number_or : Option ℕ → ℕ → ℕ
number_or none old = old
number_or (some n) old = n

unfoldable pub set_usage : Option UsageData → Turn → Turn
set_usage none t = t
set_usage (some u) t = record t {
  usage = record t.usage {
    input_tokens = number_or u.prompt_tokens t.usage.input_tokens;
    output_tokens = number_or u.completion_tokens t.usage.output_tokens;
    cache_read_input_tokens = number_or u.cached_tokens t.usage.cache_read_input_tokens;
    reasoning_tokens = number_or u.reasoning_tokens t.usage.reasoning_tokens;
  };
}

unfoldable pub handle_choices : List Choice → Turn → Turn
handle_choices [] t = t
handle_choices (c ∷ cs) t = handle_choices cs (handle_choice c t)

unfoldable pub handle_chunk : Chunk → Turn → Turn
handle_chunk c t = handle_choices c.choices (set_usage c.usage t)

module _ (loads : String → Option Json) where
  unfoldable pub finalize_at : List ℕ → List ContentBlock → List ContentBlock
  finalize_at [] blocks = blocks
  finalize_at (i ∷ places) blocks = finalize_at places (modify_at i (finalize_block loads) blocks)

  unfoldable pub finalize : Turn → Turn
  finalize t = record t { ordered_blocks = finalize_at (values t.tool_blocks) t.ordered_blocks }

  unfoldable pub finish : Turn → Turn
  finish t = record (finalize t) { is_done = true }

  -- The end of the turn for an empty chunk, unless an event raised.
  abbrev pub close_after : Option Exception × Turn → Option Exception × Turn
  close_after (none, t) = (none, finish t)
  close_after (some x, t) = (some x, t)

  module _ (strip : Text → Text) (load_chunk : Text → Loaded Chunk) where
    -- One event, by its stripped data, with the exception that leaves the loop, if any.
    unfoldable pub process_data : Text → Turn → Option Exception × Turn
    process_data raw t =
        if is_nil raw
        then (none, t)
        else if text_eq raw (codes "[DONE]")
        then (none, finish t)
        else elim (load_chunk raw) [
          | unread ↦ (none, t)
          | loaded c ↦ (none, handle_chunk c t)
          | broken x ↦ (some x, t)
        ]

    unfoldable pub process_events : List SseEvent → Turn → Option Exception × Turn
    process_events [] t = (none, t)
    process_events (ev ∷ evs) t = elim (process_data (strip ev.payload) t).0 [
      | none ↦ process_events evs (process_data (strip ev.payload) t).1
      | some x ↦ (some x, (process_data (strip ev.payload) t).1)
    ]

    -- After the parser: nothing if it raised.
    unfoldable pub after_parse : Bool → Result (List SseEvent) → Turn → Option Exception × Turn
    after_parse closing (raise x) t = (some x, t)
    after_parse true (ok events) t = close_after (process_events events t)
    after_parse false (ok events) t = process_events events t

    module _ (source : EventSource) where
      -- A chunk, with the exception that leaves the call, if any.
      unfoldable pub feed_chunk :
          source.State × Turn → List ℕ → Option Exception × (source.State × Turn)
      feed_chunk (parser, t) chunk =
          let (events, parser') = source.feed parser chunk in
          let (error, t') = after_parse (is_nil chunk) events t in (error, (parser', t'))

      -- The chunks of a stream; the caller goes on after a call that raises, as the tracker does.
      unfoldable pub feed_chunks : source.State × Turn → List (List ℕ) → source.State × Turn
      feed_chunks acc [] = acc
      feed_chunks acc (chunk ∷ chunks) = feed_chunks (feed_chunk acc chunk).1 chunks

-- `sorted(blocks, key=lambda b: b.index)`, which is stable
unfoldable pub insert_block : ContentBlock → List ContentBlock → List ContentBlock
insert_block b [] = b ∷ []
insert_block b (c ∷ cs) =
    let later = insert_block b cs in if leb b.index c.index then b ∷ c ∷ cs else c ∷ later

unfoldable pub sort_blocks : List ContentBlock → List ContentBlock
sort_blocks [] = []
sort_blocks (b ∷ bs) = insert_block b (sort_blocks bs)

unfoldable pub get_content_blocks : Turn → List ContentBlock
get_content_blocks t = sort_blocks t.ordered_blocks
