-- ===== src/Egress/Client.antt =====
-- interceptor/egress/uds_client.py: `UDSClient`, the worker that ships buffered payloads over a socket.
-- What the operating system answers to a call is an argument of the round of the loop that makes the
-- call; the worker thread itself, its timed waits and the log are not modelled.
pub mod Sending
pub mod Rounds
use ctxins.Base.{
  ℕ, ◌+◌, ◌-◌, Bool, true, false, not, ◌&&◌, ◌||◌, List, [], ◌∷◌, ◌++◌, Option, none, some, length,
  take, drop, min, leb, ◌==◌, if◌then◌else◌, Result, ok, raise,
}
use ctxins.Egress.RingBuffer.{Bytes, BoundedRingBuffer, pop, unpop}
use ctxins.Egress.RingBuffer.Order.{push_all}
use ctxins.Egress.Framing.{encode_frame}

-- `connected` is `self.sock is not None`.
pub record UdsClient : Type 0 where
  pub connected : Bool
  pub running : Bool
  pub stop_event : Bool
  pub buffer : BoundedRingBuffer

-- The answers to `sock.connect`, with those of `select` and `getsockopt` where it is in progress.
pub data ConnectAnswer : Type 0 where
  established : ConnectAnswer
  in_progress : Bool → Bool → ConnectAnswer
  refused : ConnectAnswer

connect_result : ConnectAnswer → Bool
connect_result established = true
connect_result (in_progress writable so_error) = writable && not so_error
connect_result refused = false

unfoldable pub connect : UdsClient → ConnectAnswer → UdsClient × Bool
unfolding connect_result
connect c answer =
    if c.connected
    then (c, true)
    else let made = connect_result answer in (record c { connected = made }, made)

unfoldable pub disconnect : UdsClient → UdsClient
disconnect c = record c { connected = false }

-- The answers to `sock.recv(1, MSG_PEEK)`.
pub data PeekAnswer : Type 0 where
  peek_empty peek_data would_block peek_error : PeekAnswer

unfoldable pub is_socket_alive : UdsClient → PeekAnswer → Bool
is_socket_alive c answer =
    if c.connected
    then elim answer [
      | peek_empty ↦ false
      | peek_data ↦ true
      | would_block ↦ true
      | peek_error ↦ false
    ]
    else false

-- What a round of the loop in `_send_frame` meets: the client is stopping; the socket takes some bytes;
-- it is full, with the answer of `select` and whether the client is stopping by then; it is broken.
pub data SendAnswer : Type 0 where
  stopping : SendAnswer
  sent : ℕ → SendAnswer
  blocked : Bool → Bool → SendAnswer
  broken : SendAnswer

-- How `_send_frame` ends: the frame is out; it broke off to stop; it raised `OSError`; or it still
-- loops when the answers end.
pub data SendOutcome : Type 0 where
  finished halted failed pending : SendOutcome

-- `_send_frame` from `total_sent` on, with the bytes that it wrote. A socket takes no more bytes than
-- it is handed.
unfoldable pub send_from : Bytes → ℕ → List SendAnswer → SendOutcome × Bytes
send_from frame total_sent [] = (if leb (length frame) total_sent then finished else pending, [])
send_from frame total_sent (stopping ∷ answers) =
    (if leb (length frame) total_sent then finished else halted, [])
send_from frame total_sent (sent k ∷ answers) =
    let n = min k (length frame - total_sent) in
    let rest = send_from frame (total_sent + n) answers in
    if leb (length frame) total_sent
    then (finished, [])
    else if n == 0
    then (failed, [])
    else (rest.0, take n (drop total_sent frame) ++ rest.1)
send_from frame total_sent (blocked writable stop ∷ answers) =
    let rest = send_from frame total_sent answers in
    if leb (length frame) total_sent
    then (finished, [])
    else if not writable && stop
    then (halted, [])
    else rest
send_from frame total_sent (broken ∷ answers) =
    (if leb (length frame) total_sent then finished else failed, [])

unfoldable pub send_frame : Bytes → List SendAnswer → SendOutcome × Bytes
send_frame frame answers = send_from frame 0 answers

-- The answers that one round of `_egress_loop` gets, and the items that the proxy's thread pushes:
-- those that arrive before the round takes an item, also while the worker is idle, waits or connects,
-- and those that arrive while the frame is being sent.
pub record Answers : Type 0 where
  pub before : List Bytes
  pub peek : PeekAnswer
  pub connecting : ConnectAnswer
  pub sending : List SendAnswer
  pub arriving : List Bytes

-- How a round ends: no connection; nothing to send; a payload was taken, with the outcome of its
-- sending and the bytes written; or `encode_frame` raised, which ends the worker.
pub data RoundEnd : Type 0 where
  unconnected idle : RoundEnd
  took : Bytes → SendOutcome → Bytes → RoundEnd
  crashed : Bytes → RoundEnd

-- The `try` around `_send_frame`: on `OSError` the connection goes, and the payload goes back. A send
-- breaks off only once `stop` has set its flags, which the loop's next test then sees.
unfoldable pub after_send : UdsClient → Bytes → SendOutcome → UdsClient
after_send c payload failed = let d = disconnect c in record d { buffer = unpop d.buffer payload }
after_send c payload finished = c
after_send c payload halted = record c { running = false; stop_event = true }
after_send c payload pending = c

unfoldable pub ship : UdsClient → Answers → Bytes → Result Bytes → UdsClient × RoundEnd
ship c a payload (raise x) = (c, crashed payload)
ship c a payload (ok frame) =
    let (outcome, written) = send_frame frame a.sending in
    let busy = record c { buffer = push_all c.buffer a.arriving } in
    (after_send busy payload outcome, took payload outcome written)

unfoldable pub drain : UdsClient → Answers → BoundedRingBuffer → Option Bytes → UdsClient × RoundEnd
drain c a buffer none = (record c { buffer = buffer }, idle)
drain c a buffer (some payload) =
    ship (record c { buffer = buffer }) a payload (encode_frame payload)

-- `if self.sock is None or not alive: disconnect; connect`
unfoldable pub ensure_connected : UdsClient → Answers → UdsClient × Bool
ensure_connected c a =
    if is_socket_alive c a.peek then (c, true) else connect (disconnect c) a.connecting

-- The client after the pushes that come before a round takes an item.
unfoldable pub filled : UdsClient → Answers → UdsClient
filled c a = record c { buffer = push_all c.buffer a.before }

-- One round of `_egress_loop`. Only its `pop` looks at the buffer.
unfoldable pub egress_round : UdsClient → Answers → UdsClient × RoundEnd
egress_round c a =
    let (c', ready) = ensure_connected (filled c a) a in
    let (buffer, payload) = pop c'.buffer in
    if ready then drain c' a buffer payload else (c', unconnected)

unfoldable pub survives : RoundEnd → Bool
survives (crashed payload) = false
survives unconnected = true
survives idle = true
survives (took payload outcome written) = true

-- The loop, over the answers of its rounds: it ends when the client stops or the worker has crashed.
unfoldable pub egress_loop : UdsClient → List Answers → UdsClient × List RoundEnd
egress_loop c [] = (c, [])
egress_loop c (a ∷ rounds) =
    let (c', end) = egress_round c a in
    let later = egress_loop c' rounds in
    if c.running && not c.stop_event
    then if survives end then (later.0, end ∷ later.1) else (c', end ∷ [])
    else (c, [])

-- `start`, where no worker is alive, and `stop`, after the worker has ended
unfoldable pub start : UdsClient → UdsClient
start c = record c { running = true; stop_event = false }

unfoldable pub stop : UdsClient → UdsClient
stop c = disconnect (record c { running = false; stop_event = true })
