-- ===== src/Server/Connection.antt =====
-- core/server/uds_server.py: `UDSFrameServer`'s handler of one connection, `_handle_client`, with
-- `_dispatch_frame`. What decodes a payload, `decode_payload`, and the callback on a turn are parameters; a
-- callback gives the state that it leaves, and may raise. Each reading is whether the server runs, which
-- the loop tests, and what the socket's read then gives. The set of the writers is left out.
pub mod Delivery
use ctxins.Base.{
  ℕ, Bool, true, false, List, [], ◌∷◌, Option, none, some, Result, ok, raise, Exception,
  value_error, if◌then◌else◌, type_error, key_error, os_error, stop_iteration, frame_decode_error,
  overflow_error, json_decode_error, recursion_error, queue_full, attribute_error,
}
use ctxins.Egress.RingBuffer.{Bytes}
use ctxins.Server.Framer.{FrameDecoder, fresh, feed}

-- What `reader.read` gives: bytes, none of which mean that the client is gone, or an exception.
pub data Read : Type 0 where
  chunk : Bytes → Read
  lost : Read

-- `except FrameDecodeError`
unfoldable pub is_frame_decode_error : Exception → Bool
is_frame_decode_error frame_decode_error = true
is_frame_decode_error value_error = false
is_frame_decode_error type_error = false
is_frame_decode_error key_error = false
is_frame_decode_error os_error = false
is_frame_decode_error stop_iteration = false
is_frame_decode_error overflow_error = false
is_frame_decode_error json_decode_error = false
is_frame_decode_error recursion_error = false
is_frame_decode_error queue_full = false
is_frame_decode_error attribute_error = false

module _ {P S : Type 0} (decode : Bytes → Result P) (callback : P → S → Option Exception × S) where
  -- `_dispatch_frame`, with the exception that leaves it: one of the callback does not.
  unfoldable pub dispatch_frame : Bytes → S → Option Exception × S
  dispatch_frame frame s = elim (decode frame) [
    | ok payload ↦ (none, (callback payload s).1)
    | raise x ↦ if is_frame_decode_error x then (none, s) else (some x, s)
  ]

  -- The loop over the frames of one chunk.
  unfoldable pub dispatch_frames : List Bytes → S → Option Exception × S
  dispatch_frames [] s = (none, s)
  dispatch_frames (frame ∷ frames) s = elim (dispatch_frame frame s).0 [
    | none ↦ dispatch_frames frames (dispatch_frame frame s).1
    | some x ↦ (some x, (dispatch_frame frame s).1)
  ]

  -- The loop of `_handle_client`. Whatever ends it, the handler ends, and the readings after that are not
  -- made.
  unfoldable pub serve : FrameDecoder → List (Bool × Read) → S → S
  serve d [] s = s
  serve d ((false, _) ∷ readings) s = s
  serve d ((true, lost) ∷ readings) s = s
  serve d ((true, chunk []) ∷ readings) s = s
  serve d ((true, chunk (b ∷ bs)) ∷ readings) s = elim (feed d (b ∷ bs)).0 [
    | raise x ↦ s
    | ok frames ↦ elim (dispatch_frames frames s).0 [
      | none ↦ serve (feed d (b ∷ bs)).1 readings (dispatch_frames frames s).1
      | some x ↦ (dispatch_frames frames s).1
    ]
  ]

  unfoldable pub handle_client : ℕ → List (Bool × Read) → S → S
  handle_client max_frame_size readings s = serve (fresh max_frame_size) readings s
