-- ===== src/Tracker/Tests.antt =====
-- The tracker at concrete inputs: the bodies are texts, and the accumulator keeps its chunks.
use ctxins.Base.{ℕ, ◌≡◌, refl, List, [], ◌∷◌, ◌++◌, none, some, String, ok}
use ctxins.Base.Dict.{get}
use ctxins.Egress.RingBuffer.{Bytes}
use ctxins.Wire.{Provider, TimingMetrics}
use ctxins.Tracker.{
  Accumulator, Turn, ActiveTurnTracker, new_tracker, get_turn, abort_turn, is_expired, created_at,
  reap_expired,
}
use ctxins.Tracker.InStep.{InStep, registered, chunk, reaped, run, run-InStep}
use ctxins.Tracker.Aborting.{Aborted, abort_turn-Aborted, abort_turn_once}
use ctxins.Tracker.Reaping.{reap_expired-get, is_expired-last_active}
use ctxins.Tracker.Timing.{Arrival, Timed, record_all, record_all-Timed}

abbrev keeper : Accumulator
keeper = record { State = List Bytes; feed_chunk = λ chunks c. (ok tt, chunks ++ c ∷ []) }

abbrev turn_of : String → ℕ → Turn String keeper
turn_of correlation_id created_at_wall = record {
  correlation_id = correlation_id;
  session_id = "s";
  provider = Provider.openai;
  model = "m";
  timing = some (record {
    request_dispatched_at = 5;
    first_byte_received_at = none;
    stream_closed_at = none;
  });
  endpoint = "/v1";
  client_metadata = "";
  sanitized_headers = [];
  request_payload = "{}";
  accumulator = some [];
  created_at_wall = created_at_wall;
  response_headers = [];
  response_status_code = some 200;
  response_payload = none;
}

abbrev old : Turn String keeper
old = turn_of "a" 100

abbrev young : Turn String keeper
young = turn_of "bb" 350

-- Two turns in flight, both active a moment ago.
abbrev two : ActiveTurnTracker String keeper
two = record {
  default_ttl = 300;
  turns = ("a", old) ∷ ("bb", young) ∷ [];
  last_active = ("a", 410) ∷ ("bb", 410) ∷ [];
}

run-InStep_example : InStep String keeper (
    run String keeper
      (new_tracker String keeper 300)
      (registered old 100 ∷ chunk "a" (65 ∷ []) 7 101 ∷ reaped none 500 ∷ []))
unfolding get
run-InStep_example =
    run-InStep String keeper (new_tracker String keeper 300)
      (registered old 100 ∷ chunk "a" (65 ∷ []) 7 101 ∷ reaped none 500 ∷ []) (λ k. refl)

abort_turn-Aborted_example :
    Aborted String keeper two old "a" "CLIENT_ABORTED" none none
      (abort_turn String keeper two "a" "CLIENT_ABORTED" none none 420)
unfolding get_turn get
abort_turn-Aborted_example =
    abort_turn-Aborted String keeper two old "a" "CLIENT_ABORTED" none none 420 refl

abort_turn_once_test :
    let once = (abort_turn String keeper two "a" "CLIENT_ABORTED" none none 420).0 in
    (abort_turn String keeper once "a" "TIMEOUT" none none 421).1 ≡ none
abort_turn_once_test =
    abort_turn_once String keeper two "a" "CLIENT_ABORTED" "TIMEOUT" none none none none 420 421

reap_expired-get_example :
    get_turn String keeper (reap_expired String keeper two none 420).0 "a" ≡ none
unfolding get_turn get is_expired created_at
reap_expired-get_example =
    reap_expired-get String keeper two none 420 "a" old (refl, (refl, tt)) refl

is_expired-last_active_test :
    is_expired String keeper [] 300 420 "a" old
    ≡ is_expired String keeper (two.last_active) 300 420 "a" old
is_expired-last_active_test =
    is_expired-last_active String keeper [] (two.last_active) 300 420 "a" old (λ e. cc e)

-- A blank chunk, two with text, and the end.
abbrev arrivals : List Arrival
arrivals =
    record { chunk = 10 ∷ []; mono = 6; wall = 411 }
    ∷ record { chunk = 65 ∷ []; mono = 7; wall = 412 }
    ∷ record { chunk = 66 ∷ []; mono = 8; wall = 413 }
    ∷ record { chunk = []; mono = 9; wall = 414 }
    ∷ []

abbrev dispatched : TimingMetrics
dispatched = record {
  request_dispatched_at = 5;
  first_byte_received_at = none;
  stream_closed_at = none;
}

record_all-Timed_test :
    Timed String keeper arrivals dispatched
      (get_turn String keeper (record_all String keeper two "a" arrivals) "a")
unfolding get_turn get
record_all-Timed_test = record_all-Timed String keeper two "a" arrivals old dispatched refl refl
