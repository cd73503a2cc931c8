-- ===== src/Wire.antt =====
-- schema/wire.py: the events that the interceptor sends, and its record of a turn in flight. Times are in
-- whole ticks of one clock each. What a JSON body holds (`Any`) and the accumulator of a stream (`Acc`) are
-- types that the records take as parameters.
pub mod Envelope
use ctxins.Base.{ℕ, Option, none, some, String}
use ctxins.Json.{Json}
use ctxins.Base.Int.{ℤ, sub_ℕ}
use ctxins.Base.Dict.{Dict}

pub data Provider : Type 0 where
  anthropic openai gemini azure_openai openrouter ollama unknown : Provider

pub data WireEventType : Type 0 where
  request_initiated turn_completed turn_error system_telemetry session_disconnected
        session_exported :
      WireEventType

pub record TimingMetrics : Type 0 where
  pub request_dispatched_at : ℕ
  pub first_byte_received_at : Option ℕ
  pub stream_closed_at : Option ℕ

-- In ticks, where the code gives milliseconds.
unfoldable pub ttft : TimingMetrics → Option ℤ
ttft timing = elim timing.first_byte_received_at [
  | none ↦ none
  | some at ↦ some (sub_ℕ at timing.request_dispatched_at)
]

unfoldable pub total_duration : TimingMetrics → Option ℤ
total_duration timing = elim timing.stream_closed_at [
  | none ↦ none
  | some at ↦ some (sub_ℕ at timing.request_dispatched_at)
]

pub record UsageMetrics : Type 0 where
  pub input_tokens : ℕ
  pub output_tokens : ℕ
  pub cache_creation_input_tokens : ℕ
  pub cache_read_input_tokens : ℕ
  pub reasoning_tokens : ℕ

unfoldable pub no_usage : UsageMetrics
no_usage = record {
  input_tokens = 0;
  output_tokens = 0;
  cache_creation_input_tokens = 0;
  cache_read_input_tokens = 0;
  reasoning_tokens = 0;
}

pub record ContentBlock : Type 0 where
  pub index : ℕ
  pub block_type : String
  pub text : Option String
  pub tool_id : Option String
  pub tool_name : Option String
  pub partial_json : Option String
  pub parsed_input : Option Json

unfoldable pub content_block : ℕ → String → ContentBlock
content_block index block_type = record {
  index = index;
  block_type = block_type;
  text = none;
  tool_id = none;
  tool_name = none;
  partial_json = none;
  parsed_input = none;
}

pub record ActiveTurnContext (Any Acc : Type 0) : Type 0 where
  pub correlation_id : String
  pub session_id : String
  pub provider : Provider
  pub model : String
  pub timing : Option TimingMetrics
  pub endpoint : String
  pub client_metadata : Any
  pub sanitized_headers : Dict String String
  pub request_payload : Any
  pub accumulator : Option Acc
  pub created_at_wall : ℕ
  pub response_headers : Dict String String
  pub response_status_code : Option ℕ
  pub response_payload : Option Any

pub record WireEnvelope (Payload : Type 0) : Type 0 where
  pub event_type : WireEventType
  pub correlation_id : String
  pub session_id : String
  pub timestamp : ℕ
  pub payload : Payload
