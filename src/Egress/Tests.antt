-- ===== src/Egress/Tests.antt =====
-- The egress component at concrete inputs.
use mathlib.Core.List.{Sublist}
use ctxins.Base.{
  ◌≡◌, ◌+◌, ◌-◌, refl, List, [], ◌∷◌, ◌++◌, arith, length, drop, take, newest, ok, true, false,
}
use ctxins.Egress.RingBuffer.{Bytes, BoundedRingBuffer, push, pop, unpop, Call, pushed, popped, run}
use ctxins.Egress.RingBuffer.Bounds.{IsValid, run-IsValid, account, entered, run-account}
use ctxins.Egress.RingBuffer.Order.{push_all, push_all-newest, unpop-pop, arrivals, run-sublist}
use ctxins.Egress.Framing.{encode_frame, decode_frame_header, header_size, decode-encode}
use ctxins.Egress.Client.{
  UdsClient, sent, blocked, broken, Answers, PeekAnswer, ConnectAnswer, egress_loop, egress_round,
  is_socket_alive, connect, disconnect, after_send, ship, drain, ensure_connected, filled, survives,
  send_frame, send_from, finished, failed, took,
}
use ctxins.Egress.Client.Sending.{Wrote, send_frame-Wrote}
use ctxins.Egress.Client.Rounds.{InOrder, egress_loop-InOrder, Reported, egress_round-Reported}

-- A buffer of two items that is full.
abbrev full : BoundedRingBuffer
full = record { capacity = 2; queue = (1 ∷ []) ∷ (2 ∷ []) ∷ []; dropped_count = 0 }

full-IsValid : IsValid full
full-IsValid = record { positive = omega arith; bounded = omega arith }

abbrev mixed : List Call
mixed = pushed (3 ∷ []) ∷ popped ∷ pushed (4 ∷ []) ∷ popped ∷ []

mixed-run : (run full mixed).1 ≡ (2 ∷ []) ∷ (3 ∷ []) ∷ []
unfolding run
mixed-run = refl

run-IsValid_test : IsValid (run full mixed).0
run-IsValid_test = run-IsValid full mixed full-IsValid

run-account_example :
    account (run full mixed).0 + length (run full mixed).1 ≡ account full + entered mixed
run-account_example = run-account full mixed full-IsValid tt

push_all-newest_test :
    ((push_all full ((3 ∷ []) ∷ [])).queue ≡ newest 2 (full.queue ++ (3 ∷ []) ∷ []))
    × ((push_all full ((3 ∷ []) ∷ [])).dropped_count ≡ 0 + (2 + 1 - 2))
push_all-newest_test = push_all-newest full ((3 ∷ []) ∷ []) full-IsValid

unpop-pop_test : unpop (pop full).0 (1 ∷ []) ≡ full
unfolding pop
unpop-pop_test = unpop-pop full (1 ∷ []) full-IsValid refl

run-sublist_test :
    Sublist ((run full mixed).1 ++ (run full mixed).0.queue) (full.queue ++ arrivals mixed)
run-sublist_test = run-sublist full mixed tt

-- The frame of a payload of two bytes.
abbrev small : Bytes
small = 0 ∷ 0 ∷ 0 ∷ 2 ∷ 7 ∷ 8 ∷ []

decode-encode_test :
    (decode_frame_header (take header_size small) ≡ ok 2) × (drop header_size small ≡ 7 ∷ 8 ∷ [])
unfolding encode_frame
decode-encode_test = decode-encode (7 ∷ 8 ∷ []) small refl

-- The same items with room for one more.
abbrev roomy : BoundedRingBuffer
roomy = record full { capacity = 3 }

roomy-IsValid : IsValid roomy
roomy-IsValid = record { positive = omega arith; bounded = omega arith }

abbrev client : UdsClient
client = record { connected = false; running = true; stop_event = false; buffer = roomy }

-- The first round breaks off in the middle of a frame; a payload arrives, and the second one connects
-- and sends the frame whole.
abbrev rounds : List Answers
rounds =
    record {
      before = [];
      peek = PeekAnswer.would_block;
      connecting = ConnectAnswer.established;
      sending = sent 3 ∷ broken ∷ [];
      arriving = [];
    }
    ∷ record {
      before = (9 ∷ []) ∷ [];
      peek = PeekAnswer.peek_error;
      connecting = ConnectAnswer.established;
      sending = sent 2 ∷ blocked true false ∷ sent 9 ∷ [];
      arriving = [];
    }
    ∷ []

rounds_run :
    (egress_loop client rounds).1
    ≡ took (1 ∷ []) failed (0 ∷ 0 ∷ 0 ∷ []) ∷ took (1 ∷ []) finished (0 ∷ 0 ∷ 0 ∷ 1 ∷ 1 ∷ []) ∷ []
unfolding egress_loop egress_round is_socket_alive connect disconnect after_send ship drain
    ensure_connected filled survives send_frame send_from encode_frame push pop unpop push_all
rounds_run = refl

egress_loop-InOrder_example : InOrder client rounds (egress_loop client rounds)
egress_loop-InOrder_example =
    egress_loop-InOrder client rounds roomy-IsValid (omega arith) (refl, (refl, tt))

send_frame-Wrote_test :
    Wrote small (send_frame small (sent 3 ∷ blocked true false ∷ sent 2 ∷ broken ∷ []))
send_frame-Wrote_test = send_frame-Wrote small (sent 3 ∷ blocked true false ∷ sent 2 ∷ broken ∷ [])

-- The first round's answers.
abbrev breaking : Answers
breaking = record {
  before = [];
  peek = PeekAnswer.would_block;
  connecting = ConnectAnswer.established;
  sending = sent 3 ∷ broken ∷ [];
  arriving = (5 ∷ []) ∷ [];
}

egress_round-Reported_test : Reported (egress_round client breaking)
egress_round-Reported_test = egress_round-Reported client breaking
