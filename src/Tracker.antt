-- ===== src/Tracker.antt =====
-- interceptor/correlation/tracker.py: `ActiveTurnTracker`. Each method runs under the tracker's lock. The
-- clock's reading is an argument, and the envelopes given to `on_turn_error`, whose exceptions the tracker
-- drops, are those that a call returns. The code changes a turn in place: here the changed turn is stored.
pub mod InStep
pub mod Aborting
pub mod Reaping
pub mod Timing
mod Tests
use Prim.Native.String.{◌++◌ as text_append}
use ctxins.Base.{
  ℕ, ◌-◌, Bool, true, false, not, ◌&&◌, ◌||◌, ◌==◌, ltb, leb, List, [], ◌∷◌, Option, none, some,
  String, map, if◌then◌else◌, ◌=?◌, string_eq, Result, ok, raise, Exception, key_error, is_nil,
}
use ctxins.Base.Dict.{Dict, get, insert, remove, has}
use ctxins.Egress.RingBuffer.{Bytes}
use ctxins.Wire.{Provider, TimingMetrics, ActiveTurnContext, WireEnvelope, turn_error}

-- `d.update(more)`
unfoldable pub merge : Dict String String → Dict String String → Dict String String
merge d [] = d
merge d ((k, v) ∷ more) = merge (insert k v d) more

abbrev pub with_default : Option ℕ → ℕ → ℕ
with_default none d = d
with_default (some n) d = n

-- What the tracker asks of an accumulator: `feed_chunk`, which may raise and leave any state.
pub record Accumulator : Type 1 where
  pub State : Type 0
  pub feed_chunk : State → Bytes → Result (Unit {0}) × State

-- `chunk.strip()` is empty
unfoldable pub is_blank : Bytes → Bool
is_blank [] = true
is_blank (c ∷ cs) = ((leb 9 c && leb c 13) || (c == 32)) && is_blank cs

abbrev pub or_else {ℓ} : {A : Type ℓ} → Option A → Option A → Option A
or_else none b = b
or_else (some a) b = some a

-- The chunk's marks on the timing: the first byte, once, and the end of the stream.
unfoldable pub mark_timing : Bytes → ℕ → TimingMetrics → TimingMetrics
mark_timing chunk now_mono timing = record timing {
  first_byte_received_at =
      if not (is_blank chunk)
      then or_else timing.first_byte_received_at (some now_mono)
      else timing.first_byte_received_at;
  stream_closed_at = if is_nil chunk then some now_mono else timing.stream_closed_at;
}

-- An error message: a text, or the reaper's, whose number the code prints.
pub data ErrorMessage : Type 0 where
  message : String → ErrorMessage
  expired_after : ℕ → ErrorMessage

unfoldable pub default_message : String → ErrorMessage
default_message status = message (
    if status =? "CLIENT_ABORTED"
    then text_append "Turn aborted: " status
    else text_append "Turn error: " status)

-- `error_message or …`
unfoldable pub message_for : Option ErrorMessage → String → ErrorMessage
message_for none status = default_message status
message_for (some (message s)) status = if s =? "" then default_message status else message s
message_for (some (expired_after ttl)) status = expired_after ttl

-- The payload of a TURN_ERROR envelope; `http_status` is none where the dict has no such key.
pub record ErrorPayload (Any : Type 0) : Type 0 where
  pub provider : Provider
  pub model : String
  pub endpoint : String
  pub status : String
  pub error_message : ErrorMessage
  pub sanitized_headers : Dict String String
  pub request_payload : Any
  pub timing : Option TimingMetrics
  pub client_metadata : Any
  pub http_status : Option ℕ

module _ (Any : Type 0) (A : Accumulator) where
  abbrev pub Turn : Type 0
  Turn = ActiveTurnContext Any A.State

  abbrev pub Envelope : Type 0
  Envelope = WireEnvelope (ErrorPayload Any)

  unfoldable pub create_turn_error_envelope :
      Turn → String → Option ErrorMessage → Option ℕ → ℕ → Envelope
  create_turn_error_envelope turn status error_message http_status now = record {
    event_type = turn_error;
    correlation_id = turn.correlation_id;
    session_id = turn.session_id;
    timestamp = now;
    payload = record {
      provider = turn.provider;
      model = turn.model;
      endpoint = turn.endpoint;
      status = status;
      error_message = message_for error_message status;
      sanitized_headers = turn.sanitized_headers;
      request_payload = turn.request_payload;
      timing = turn.timing;
      client_metadata = turn.client_metadata;
      http_status = or_else http_status turn.response_status_code;
    };
  }

  pub record ActiveTurnTracker : Type 0 where
    pub default_ttl : ℕ
    pub turns : Dict String Turn
    pub last_active : Dict String ℕ

  abbrev pub new_tracker : ℕ → ActiveTurnTracker
  new_tracker default_ttl = record { default_ttl = default_ttl; turns = []; last_active = [] }

  -- `tracker[correlation_id] = turn`
  unfoldable pub set_item : ActiveTurnTracker → String → Turn → ℕ → ActiveTurnTracker
  set_item t correlation_id turn now = record t {
    turns = insert correlation_id turn t.turns;
    last_active = insert correlation_id now t.last_active;
  }

  unfoldable pub register_turn : ActiveTurnTracker → Turn → ℕ → ActiveTurnTracker
  register_turn t turn now = set_item t turn.correlation_id turn now

  unfoldable pub get_turn : ActiveTurnTracker → String → Option Turn
  get_turn t correlation_id = get correlation_id t.turns

  unfoldable pub remove_turn : ActiveTurnTracker → String → ActiveTurnTracker × Option Turn
  remove_turn t correlation_id = (
    record t {
      turns = remove correlation_id t.turns;
      last_active = remove correlation_id t.last_active;
    },
    get correlation_id t.turns,
  )

  -- `del tracker[correlation_id]`, which forgets the time before it raises
  unfoldable pub del_item : ActiveTurnTracker → String → Result (Unit {0}) × ActiveTurnTracker
  del_item t correlation_id = (
    if has correlation_id t.turns then ok tt else raise key_error,
    (remove_turn t correlation_id).0,
  )

  abbrev pub update_found :
      ActiveTurnTracker → String → ℕ → (Turn → Turn) → Option Turn → ActiveTurnTracker
  update_found t correlation_id now f none = t
  update_found t correlation_id now f (some turn) = set_item t correlation_id (f turn) now

  -- The `update_*` methods: a change of the turn, if there is one, and the time of it.
  unfoldable pub update : ActiveTurnTracker → String → ℕ → (Turn → Turn) → ActiveTurnTracker
  update t correlation_id now f = update_found t correlation_id now f (get correlation_id t.turns)

  unfoldable pub update_request_headers :
      ActiveTurnTracker → String → Dict String String → ℕ → ActiveTurnTracker
  update_request_headers t correlation_id headers now =
      update t correlation_id now
        (λ turn. record turn { sanitized_headers = merge turn.sanitized_headers headers })

  unfoldable pub update_request_payload : ActiveTurnTracker → String → Any → ℕ → ActiveTurnTracker
  update_request_payload t correlation_id payload now =
      update t correlation_id now (λ turn. record turn { request_payload = payload })

  unfoldable pub update_response_headers :
      ActiveTurnTracker → String → Dict String String → ℕ → ActiveTurnTracker
  update_response_headers t correlation_id headers now =
      update t correlation_id now
        (λ turn. record turn { response_headers = merge turn.response_headers headers })

  unfoldable pub update_response_payload : ActiveTurnTracker → String → Any → ℕ → ActiveTurnTracker
  update_response_payload t correlation_id payload now =
      update t correlation_id now (λ turn. record turn { response_payload = some payload })

  unfoldable pub update_status_code : ActiveTurnTracker → String → ℕ → ℕ → ActiveTurnTracker
  update_status_code t correlation_id status_code now =
      update t correlation_id now (λ turn. record turn { response_status_code = some status_code })

  unfoldable pub feed_accumulator : Bytes → Option A.State → Option A.State
  feed_accumulator chunk none = none
  feed_accumulator chunk (some acc) = some (A.feed_chunk acc chunk).1

  unfoldable pub with_chunk : Bytes → ℕ → Turn → Turn
  with_chunk chunk now_mono turn = record turn {
    timing = map_timing (mark_timing chunk now_mono) turn.timing;
    accumulator = feed_accumulator chunk turn.accumulator;
  }
    where
      map_timing : (TimingMetrics → TimingMetrics) → Option TimingMetrics → Option TimingMetrics
      map_timing f none = none
      map_timing f (some timing) = some (f timing)

  unfoldable pub record_chunk :
      ActiveTurnTracker → String → Bytes → ℕ → ℕ → ActiveTurnTracker × Bool
  record_chunk t correlation_id chunk now_mono now =
      (update t correlation_id now (with_chunk chunk now_mono), has correlation_id t.turns)

  abbrev pub envelope_for :
      Option Turn → String → Option ErrorMessage → Option ℕ → ℕ → Option Envelope
  envelope_for none status error_message http_status now = none
  envelope_for (some turn) status error_message http_status now =
      some (create_turn_error_envelope turn status error_message http_status now)

  unfoldable pub abort_turn :
      ActiveTurnTracker
      → String
      → String
      → Option ErrorMessage
      → Option ℕ
      → ℕ
      → ActiveTurnTracker × Option Envelope
  abort_turn t correlation_id reason error_message http_status now =
      let (t', turn) = remove_turn t correlation_id in
      (t', envelope_for turn reason error_message http_status now)

  -- `created_at_wall or last_active.get(corr_id, now)`
  unfoldable pub created_at : Dict String ℕ → ℕ → String → Turn → ℕ
  created_at last_active now corr_id turn =
      if turn.created_at_wall == 0
      then elim (get corr_id last_active) [ none ↦ now | some at ↦ at ]
      else turn.created_at_wall

  unfoldable pub is_expired : Dict String ℕ → ℕ → ℕ → String → Turn → Bool
  is_expired last_active ttl now corr_id turn =
      ltb ttl (now - created_at last_active now corr_id turn)

  -- The loop over the turns, with the turns that it takes out.
  unfoldable pub reap_loop :
      ℕ → ℕ → Dict String Turn → ActiveTurnTracker → ActiveTurnTracker × List Turn
  reap_loop ttl now [] t = (t, [])
  reap_loop ttl now ((corr_id, turn) ∷ items) t =
      let gone = reap_loop ttl now items (remove_turn t corr_id).0 in
      let kept = reap_loop ttl now items t in
      if is_expired t.last_active ttl now corr_id turn then (gone.0, turn ∷ gone.1) else kept

  unfoldable pub reap_expired : ActiveTurnTracker → Option ℕ → ℕ → ActiveTurnTracker × List Envelope
  reap_expired t ttl now =
      let effective_ttl : ℕ = with_default ttl t.default_ttl in
      let (t', expired_turns) = reap_loop effective_ttl now t.turns t in
      let timeout = λ (turn : Turn).
        create_turn_error_envelope turn "TIMEOUT" (some (expired_after effective_ttl)) none now in
      (t', map timeout expired_turns)

  unfoldable pub clear : ActiveTurnTracker → ActiveTurnTracker
  clear t = record t { turns = []; last_active = [] }
