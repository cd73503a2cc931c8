-- ===== src/Stream/Accumulators/Anthropic.antt =====
-- interceptor/stream/accumulators/anthropic.py: `AnthropicAccumulator`. The fields that the handlers read of
-- an event's data are one record.
pub mod Deltas
pub mod Untyped
use Prim.Native.String.{◌++◌ as text_append}
use ctxins.Base.{
  ℕ, leb, Bool, true, false, not, ◌&&◌, ◌||◌, List, [], ◌∷◌, ◌++◌, Option, none, some, String,
  length, is_nil, ◌=?◌, string_eq, nat_eq, if◌then◌else◌, Result, ok, raise, Exception,
}
use ctxins.Base.Dict.{Dict, get, insert, keys, values}
use ctxins.Json.{Json}
use ctxins.Wire.{UsageMetrics, no_usage, ContentBlock, content_block}
use ctxins.Stream.Sse.{Text, codes, text_eq, SseEvent}
use ctxins.Stream.Accumulators.{
  EventSource, Loaded, unread, loaded, broken, or_empty, append_text, parse_input, finalize_block,
}

-- `message.usage` of message_start
pub record StartUsage : Type 0 where
  pub input_tokens : Option ℕ
  pub cache_creation_input_tokens : Option ℕ
  pub cache_read_input_tokens : Option ℕ

-- `content_block`
pub record BlockInfo : Type 0 where
  pub block_type : Option String
  pub text : Option String
  pub thinking : Option String
  pub id : Option String
  pub name : Option String

-- `delta`
pub record Delta : Type 0 where
  pub delta_type : Option String
  pub text : Option String
  pub thinking : Option String
  pub partial_json : Option String
  pub stop_reason : Option String

pub record EventData : Type 0 where
  pub event_type : Option String
  pub index : Option ℕ
  pub start_usage : StartUsage
  pub block_info : BlockInfo
  pub delta : Delta
  pub output_tokens : Option ℕ

pub record Turn : Type 0 where
  pub blocks : Dict ℕ ContentBlock
  pub stop_reason : Option String
  pub usage : UsageMetrics
  pub is_done : Bool

unfoldable pub new_turn : Turn
new_turn = record { blocks = []; stop_reason = none; usage = no_usage; is_done = false }

abbrev pub number_or : Option ℕ → ℕ → ℕ
number_or none old = old
number_or (some n) old = n

unfoldable pub handle_message_start : EventData → Turn → Turn
handle_message_start d t =
    let u = d.start_usage in
    record t {
      usage = record t.usage {
        input_tokens = number_or u.input_tokens t.usage.input_tokens;
        cache_creation_input_tokens =
            number_or u.cache_creation_input_tokens t.usage.cache_creation_input_tokens;
        cache_read_input_tokens =
            number_or u.cache_read_input_tokens t.usage.cache_read_input_tokens;
      };
    }

-- `block_info.get("type", "text")`
abbrev type_or_text : Option String → String
type_or_text none = "text"
type_or_text (some s) = s

unfoldable pub started_block : ℕ → BlockInfo → ContentBlock
started_block idx info =
    let b_type = type_or_text info.block_type in
    if b_type =? "text"
    then record (content_block idx "text") { text = some (or_empty info.text) }
    else if b_type =? "tool_use"
    then record (content_block idx "tool_use") {
      tool_id = info.id;
      tool_name = info.name;
      partial_json = some "";
    }
    else if b_type =? "thinking"
    then record (content_block idx "thinking") { text = some (or_empty info.thinking) }
    else record (content_block idx b_type) { text = info.text }

unfoldable pub handle_content_block_start : EventData → Turn → Turn
handle_content_block_start d t =
    let idx = number_or d.index (length t.blocks) in
    record t { blocks = insert idx (started_block idx d.block_info) t.blocks }

abbrev pub is_type : Option String → String → Bool
is_type none s = false
is_type (some r) s = r =? s

-- The block for a delta whose start was missing.
unfoldable pub missing_block : ℕ → Delta → ContentBlock
missing_block idx delta =
    if is_type delta.delta_type "input_json_delta"
    then record (content_block idx "tool_use") { partial_json = some "" }
    else if is_type delta.delta_type "thinking_delta"
    then record (content_block idx "thinking") { text = some "" }
    else record (content_block idx "text") { text = some "" }

unfoldable pub block_or_missing : ℕ → Delta → Option ContentBlock → ContentBlock
block_or_missing idx delta none = missing_block idx delta
block_or_missing idx delta (some block) = block

unfoldable pub apply_delta : Delta → ContentBlock → ContentBlock
apply_delta delta block =
    if is_type delta.delta_type "text_delta"
    then append_text (or_empty delta.text) block
    else if is_type delta.delta_type "thinking_delta"
    then append_text (or_empty delta.thinking) block
    else if is_type delta.delta_type "input_json_delta"
    then record block {
      partial_json = some (text_append (or_empty block.partial_json) (or_empty delta.partial_json));
    }
    else block

unfoldable pub handle_content_block_delta : EventData → Turn → Turn
handle_content_block_delta d t =
    let idx = number_or d.index 0 in
    let block = block_or_missing idx d.delta (get idx t.blocks) in
    record t { blocks = insert idx (apply_delta d.delta block) t.blocks }

unfoldable pub handle_message_delta : EventData → Turn → Turn
handle_message_delta d t = record t {
  stop_reason = elim d.delta.stop_reason [ none ↦ t.stop_reason | some r ↦ some r ];
  usage = record t.usage { output_tokens = number_or d.output_tokens t.usage.output_tokens };
}

module _ (loads : String → Option Json) where
  unfoldable pub parse_tool : ContentBlock → ContentBlock
  parse_tool block = if block.block_type =? "tool_use" then parse_input loads block else block

  unfoldable pub parse_at : ℕ → Option ContentBlock → Dict ℕ ContentBlock → Dict ℕ ContentBlock
  parse_at idx none blocks = blocks
  parse_at idx (some block) blocks = insert idx (parse_tool block) blocks

  unfoldable pub handle_content_block_stop : EventData → Turn → Turn
  handle_content_block_stop d t =
      let idx = number_or d.index 0 in
      record t { blocks = parse_at idx (get idx t.blocks) t.blocks }

  unfoldable pub finalize_tool : ContentBlock → ContentBlock
  finalize_tool block = if block.block_type =? "tool_use" then finalize_block loads block else block

  unfoldable pub finalize_all : Dict ℕ ContentBlock → Dict ℕ ContentBlock
  finalize_all [] = []
  finalize_all ((idx, block) ∷ blocks) = (idx, finalize_tool block) ∷ finalize_all blocks

  unfoldable pub finish : Turn → Turn
  finish t = record t { blocks = finalize_all t.blocks; is_done = true }

  unfoldable pub handle_event : Text → EventData → Turn → Turn
  handle_event event_type d t =
      if text_eq event_type (codes "message_start")
      then handle_message_start d t
      else if text_eq event_type (codes "content_block_start")
      then handle_content_block_start d t
      else if text_eq event_type (codes "content_block_delta")
      then handle_content_block_delta d t
      else if text_eq event_type (codes "content_block_stop")
      then handle_content_block_stop d t
      else if text_eq event_type (codes "message_delta")
      then handle_message_delta d t
      else if text_eq event_type (codes "message_stop")
      then finish t
      else t

  -- The end of the turn for an empty chunk, unless an event raised.
  abbrev pub close_after : Option Exception × Turn → Option Exception × Turn
  close_after (none, t) = (none, finish t)
  close_after (some x, t) = (some x, t)

  module _ (load_event : Text → Loaded EventData) where
    -- `ev.event or data.get("type", "")`
    abbrev event_type_of : SseEvent → EventData → Text
    event_type_of ev d = if is_nil ev.event then codes (or_empty d.event_type) else ev.event

    -- An event with its loaded data, with the exception that leaves the loop, if any.
    unfoldable pub handle_loaded : SseEvent → Loaded EventData → Turn → Option Exception × Turn
    handle_loaded ev unread t = (none, t)
    handle_loaded ev (loaded d) t = (none, handle_event (event_type_of ev d) d t)
    handle_loaded ev (broken x) t = (some x, t)

    unfoldable pub process_event : SseEvent → Turn → Option Exception × Turn
    process_event ev t =
        if is_nil ev.payload || text_eq ev.event (codes "ping")
        then (none, t)
        else handle_loaded ev (load_event ev.payload) t

    unfoldable pub process_events : List SseEvent → Turn → Option Exception × Turn
    process_events [] t = (none, t)
    process_events (ev ∷ evs) t = elim (process_event ev t).0 [
      | none ↦ process_events evs (process_event ev t).1
      | some x ↦ (some x, (process_event ev t).1)
    ]

    -- After the parser: nothing if it raised.
    unfoldable pub after_parse : Bool → Result (List SseEvent) → Turn → Option Exception × Turn
    after_parse closing (raise x) t = (some x, t)
    after_parse true (ok events) t = close_after (process_events events t)
    after_parse false (ok events) t = process_events events t

    module _ (source : EventSource) where
      -- A chunk, with the exception that leaves the call, if any.
      unfoldable pub feed_chunk :
          source.State × Turn → List ℕ → Option Exception × (source.State × Turn)
      feed_chunk (parser, t) chunk =
          let (events, parser') = source.feed parser chunk in
          let (error, t') = after_parse (is_nil chunk) events t in (error, (parser', t'))

-- `sorted(self._blocks.keys())`
unfoldable pub insert_key : ℕ → List ℕ → List ℕ
insert_key k [] = k ∷ []
insert_key k (j ∷ js) = let later = insert_key k js in if leb k j then k ∷ j ∷ js else j ∷ later

unfoldable pub sort_keys : List ℕ → List ℕ
sort_keys [] = []
sort_keys (k ∷ ks) = insert_key k (sort_keys ks)

unfoldable pub blocks_at : Dict ℕ ContentBlock → List ℕ → List ContentBlock
blocks_at blocks [] = []
blocks_at blocks (k ∷ ks) = elim (get k blocks) [
  | none ↦ blocks_at blocks ks
  | some b ↦ b ∷ blocks_at blocks ks
]

unfoldable pub get_content_blocks : Turn → List ContentBlock
get_content_blocks t = blocks_at t.blocks (sort_keys (keys t.blocks))
