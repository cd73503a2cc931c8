-- ===== src/Wire/Envelope.antt =====
-- schema/wire.py: `WireEnvelope.to_dict` and `from_dict`, and core/server/framer.py: `decode_payload`. The
-- envelope that `from_dict` makes holds the ids and the payload as they stand in the JSON text: their types
-- are not checked. `float` of a text and the conversions from bytes are parameters.
pub mod Reading
mod Tests
use ctxins.Base.{
  ℕ, zero, suc, ◌+◌, ◌*◌, ◌^◌, ◌-◌, ◌≤◌, ◌<◌, ◌≡◌, refl, Bool, true, false, ltb, Bool-cases, List,
  [], ◌∷◌, arith, Option, none, some, String, ◌=?◌, if◌then◌else◌, Result, ok, raise, ◌>>=◌,
  Exception, value_error, type_error, key_error, os_error, stop_iteration, frame_decode_error,
  overflow_error, json_decode_error, recursion_error, queue_full, attribute_error, leb, inl, inr,
  ◌⊎◌, string_eq,
}
use ctxins.Base.Rounding.{round_div}
use ctxins.Egress.RingBuffer.{Bytes}
use ctxins.Json.{Json, null, bool, number, str, arr, obj, Props, end, prop, lookup}
use ctxins.Wire.{
  WireEventType, request_initiated, turn_completed, turn_error, system_telemetry,
  session_disconnected, session_exported,
}

pub record Envelope : Type 0 where
  pub event_type : WireEventType
  pub correlation_id : Json
  pub session_id : Json
  pub timestamp : ℕ
  pub payload : Json

unfoldable pub value : WireEventType → String
value request_initiated = "REQUEST_INITIATED"
value turn_completed = "TURN_COMPLETED"
value turn_error = "TURN_ERROR"
value system_telemetry = "SYSTEM_TELEMETRY"
value session_disconnected = "SESSION_DISCONNECTED"
value session_exported = "SESSION_EXPORTED"

unfoldable pub event_types : List WireEventType
event_types =
    request_initiated ∷ turn_completed ∷ turn_error ∷ system_telemetry ∷ session_disconnected
    ∷ session_exported ∷ []

-- The member of an enumeration that has a value.
unfoldable pub member : String → List WireEventType → Result WireEventType
member s [] = raise value_error
member s (t ∷ ts) = if value t =? s then ok t else member s ts

-- `WireEventType(v)`
unfoldable pub to_event_type : Json → Result WireEventType
to_event_type (str s) = member s event_types
to_event_type null = raise value_error
to_event_type (bool b) = raise value_error
to_event_type (number n) = raise value_error
to_event_type (arr vs) = raise value_error
to_event_type (obj ps) = raise value_error

-- `data[k]`
unfoldable pub required : String → Props → Result Json
required k data' = elim (lookup k data') [ none ↦ raise key_error | some v ↦ ok v ]

-- The least natural number that no double is near to: `float` raises from there on.
unfoldable pub float_limit : ℕ
float_limit = 2 ^ 1024 - 2 ^ 970

unfoldable pub to_props : Envelope → Props
to_props e = prop "event_type" (str (value e.event_type)) (
    prop "correlation_id" e.correlation_id (
      prop "session_id" e.session_id
        (prop "timestamp" (number e.timestamp) (prop "payload" e.payload end))))

-- What a frame's payload is read as.
pub data Decoded : Type 0 where
  envelope : Envelope → Decoded
  raw : Json → Decoded

-- `except (KeyError, ValueError, TypeError)`
unfoldable pub is_caught : Exception → Bool
is_caught key_error = true
is_caught value_error = true
is_caught type_error = true
is_caught os_error = false
is_caught stop_iteration = false
is_caught frame_decode_error = false
is_caught overflow_error = false
is_caught json_decode_error = true
is_caught recursion_error = false
is_caught queue_full = false
is_caught attribute_error = false

-- `except json.JSONDecodeError`
unfoldable pub is_json_decode_error : Exception → Bool
is_json_decode_error json_decode_error = true
is_json_decode_error value_error = false
is_json_decode_error type_error = false
is_json_decode_error key_error = false
is_json_decode_error os_error = false
is_json_decode_error stop_iteration = false
is_json_decode_error frame_decode_error = false
is_json_decode_error overflow_error = false
is_json_decode_error recursion_error = false
is_json_decode_error queue_full = false
is_json_decode_error attribute_error = false

-- The double that is nearest to a natural number: 53 bits, a tie to the even one. The fuel is more than the
-- binary digits that a number below `float_limit` has beyond those.
unfoldable pub to_double_from : ℕ → ℕ → ℕ → ℕ
to_double_from zero unit n = n
to_double_from (suc fuel) unit n =
    let coarser = to_double_from fuel (unit + unit) n in
    if leb n (2 ^ 53 * unit) then round_div n unit * unit else coarser

unfoldable pub to_double : ℕ → ℕ
to_double n = if leb n (2 ^ 53) then n else to_double_from 972 1 n

module _ (float_of : String → Option ℕ) where
  -- `float(v)`
  unfoldable pub to_float : Json → Result ℕ
  to_float null = raise type_error
  to_float (bool b) = ok (if b then 1 else 0)
  to_float (number n) = if ltb n float_limit then ok (to_double n) else raise overflow_error
  to_float (str s) = elim (float_of s) [ none ↦ raise value_error | some n ↦ ok n ]
  to_float (arr vs) = raise type_error
  to_float (obj ps) = raise type_error

  unfoldable pub from_dict : Props → Result Envelope
  from_dict data' = do
    kind ← required "event_type" data'
    event_type ← to_event_type kind
    correlation_id ← required "correlation_id" data'
    session_id ← required "session_id" data'
    at ← required "timestamp" data'
    timestamp ← to_float at
    ok (record {
      event_type = event_type;
      correlation_id = correlation_id;
      session_id = session_id;
      timestamp = timestamp;
      payload = elim (lookup "payload" data') [ none ↦ obj end | some v ↦ v ];
    })

  unfoldable pub decode_value : Json → Result Decoded
  decode_value (obj ps) = elim (from_dict ps) [
    | ok e ↦ ok (envelope e)
    | raise x ↦ if is_caught x then ok (raw (obj ps)) else raise x
  ]
  decode_value null = ok (raw null)
  decode_value (bool b) = ok (raw (bool b))
  decode_value (number n) = ok (raw (number n))
  decode_value (str s) = ok (raw (str s))
  decode_value (arr vs) = ok (raw (arr vs))

  module _ (decode_utf8 : Bytes → Option String) (loads : String → Result Json) where
    -- `json.loads` may raise `JSONDecodeError`, and others, which leave the function.
    unfoldable pub decode_payload : Bytes → Result Decoded
    decode_payload payload = elim (decode_utf8 payload) [
      | none ↦ raise frame_decode_error
      | some decoded_text ↦ elim (loads decoded_text) [
        | raise x ↦ if is_json_decode_error x then raise frame_decode_error else raise x
        | ok raw_obj ↦ decode_value raw_obj
      ]
    ]
