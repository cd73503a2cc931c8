-- ===== src/Stream/Accumulators.antt =====
-- interceptor/stream/accumulators: the turn that a stream of events builds up. What the chunks of the stream
-- hold is a record of the fields that the code reads, each none where it is missing: `json.loads` of a text,
-- a parameter, gives such a record, or fails. A payload
-- that is no object breaks before it changes the turn; an object in which a field has a type other than the
-- provider's is not modelled.
pub mod OpenAi
pub mod Anthropic
mod Tests
use Prim.Native.String.{◌++◌ as text_append}
use ctxins.Base.{
  ℕ, zero, suc, Bool, true, false, not, List, [], ◌∷◌, Option, none, some, String, ◌=?◌, string_eq,
  if◌then◌else◌, Result, Exception,
}
use ctxins.Json.{Json, null, str, obj, Props, end, prop}
use ctxins.Wire.{ContentBlock}
use ctxins.Stream.Sse.{SseEvent}

-- The parser that an accumulator feeds: an empty chunk closes it.
pub record EventSource : Type 1 where
  pub State : Type 0
  pub feed : State → List ℕ → Result (List SseEvent) × State

-- What loading an event's data comes to: `JSONDecodeError` or `TypeError`, which the loop skips; a record; or
-- another exception, of `json.loads` or of the handling, which leaves the loop.
pub data Loaded (A : Type 0) : Type 0 where
  unread : Loaded A
  loaded : A → Loaded A
  broken : Exception → Loaded A

-- `s or ""`
abbrev pub or_empty : Option String → String
or_empty none = ""
or_empty (some s) = s

-- `block.text = (block.text or "") + more`
unfoldable pub append_text : String → ContentBlock → ContentBlock
append_text more b = record b { text = some (text_append (or_empty b.text) more) }

-- What `json.loads` gives counts as missing if it is null.
abbrev pub not_null : Json → Option Json
not_null null = none
not_null v = some v

-- The input of a tool call, from its JSON text: an empty object, what the text holds, or the text itself.
unfoldable pub input_of : (String → Option Json) → String → Option Json
input_of loads raw =
    if raw =? ""
    then some (obj end)
    else elim (loads raw) [ none ↦ some (obj (prop "_raw" (str raw) end)) | some v ↦ not_null v ]

-- `block.parsed_input = ...`, if there is a JSON text
unfoldable pub parse_input : (String → Option Json) → ContentBlock → ContentBlock
parse_input loads b = elim b.partial_json [
  | none ↦ b
  | some raw ↦ record b { parsed_input = input_of loads raw }
]

-- The same, unless it is done already.
unfoldable pub finalize_block : (String → Option Json) → ContentBlock → ContentBlock
finalize_block loads b = elim b.parsed_input [ none ↦ parse_input loads b | some _ ↦ b ]
