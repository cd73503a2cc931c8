-- ===== src/Wire/Envelope/Tests.antt =====
-- The wire envelopes at concrete inputs.
use ctxins.Base.{
  ◌+◌, recursion_error, raise, Result, ℕ, ◌≡◌, refl, ◌⊎◌, [], ◌∷◌, arith, Option, none, some,
  String, ok, raise, frame_decode_error, overflow_error,
}
use ctxins.Base.Rounding.{round_div}
use ctxins.Egress.RingBuffer.{Bytes}
use ctxins.Json.{Json, str, obj, end, lookup}
use ctxins.Wire.{turn_completed}
use ctxins.Wire.Envelope.{
  Envelope, to_props, from_dict, float_limit, decode_payload, decode_value, required, to_event_type,
  to_float, to_double, to_double_from, is_json_decode_error, member, value, event_types, is_caught,
}
use ctxins.Wire.Envelope.Reading.{
  from_dict-to_props, decode_payload-raise, IsTooLateFrame, IsUnreadFrame,
}

abbrev no_float : String → Option ℕ
no_float s = none

abbrev turn : Envelope
turn = record {
  event_type = turn_completed;
  correlation_id = str "c";
  session_id = str "s";
  timestamp = 7;
  payload = obj end;
}

-- 2^53 + 1 is a tie, and goes to the even double.
rounded_test : to_double (9007199254740992 + 1) ≡ 9007199254740992
unfolding to_double to_double_from round_div
rounded_test = refl

odd_test : to_double (9007199254740992 + 3) ≡ 9007199254740992 + 4
unfolding to_double to_double_from round_div
odd_test = refl

from_dict-to_props_example : from_dict no_float (to_props turn) ≡ ok turn
from_dict-to_props_example = from_dict-to_props no_float turn (omega arith)

abbrev late : Envelope
late = record turn { timestamp = float_limit }

abbrev any_text : Bytes → Option String
any_text payload = some "{...}"

abbrev read_late : String → Result Json
read_late s = ok (obj (to_props late))

abbrev frame : Bytes
frame = 123 ∷ 125 ∷ []

late_raises : decode_payload no_float any_text read_late frame ≡ raise overflow_error
unfolding decode_payload decode_value from_dict to_props required lookup to_event_type to_float
    member value event_types is_caught float_limit
late_raises = refl

decode_payload-raise_example :
    (overflow_error ≡ frame_decode_error)
    ⊎ (((overflow_error ≡ overflow_error) × IsTooLateFrame no_float any_text read_late frame)
        ⊎ IsUnreadFrame no_float any_text read_late frame overflow_error)
decode_payload-raise_example = decode_payload-raise no_float any_text read_late frame late_raises

-- A text that is nested too deeply.
deep_test :
    decode_payload no_float any_text (λ s. raise recursion_error) frame ≡ raise recursion_error
unfolding decode_payload is_json_decode_error
deep_test = refl
