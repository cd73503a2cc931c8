-- ===== src/Server/Tests.antt =====
-- The server component at concrete inputs.
use ctxins.Base.{
  ℕ, Option, some, Result, Exception, value_error, false, ◌≡◌, refl, List, [], ◌∷◌, ◌++◌, arith,
  flatten, ok, raise, frame_decode_error,
}
use ctxins.Egress.RingBuffer.{Bytes}
use ctxins.Egress.Framing.{encode_frame, unpack_be32}
use ctxins.Server.Framer.{fresh, round, rounds, feed}
use ctxins.Server.Framer.Chunks.{
  join, IsWaiting, feed-append, feed-append_raise, feed-IsWaiting, feed_all, feed_all-flatten,
}
use ctxins.Server.Connection.{chunk, serve, handle_client}
use ctxins.Server.Connection.Delivery.{readings_of, deliver, handle_client-deliver}
use ctxins.Server.Framer.Roundtrip.{stream, feed_all-stream}

-- Two frames, of the payloads 7 8 and 9, cut inside a header and inside a payload.
abbrev chunks : List Bytes
chunks = (0 ∷ 0 ∷ []) ∷ (0 ∷ 2 ∷ 7 ∷ []) ∷ (8 ∷ 0 ∷ 0 ∷ 0 ∷ 1 ∷ 9 ∷ []) ∷ []

abbrev payloads : List Bytes
payloads = (7 ∷ 8 ∷ []) ∷ (9 ∷ []) ∷ []

feed_all-stream_example : feed_all (fresh 16) chunks ≡ (ok payloads, fresh 16)
unfolding stream encode_frame
feed_all-stream_example = feed_all-stream 16 payloads chunks refl (omega arith)

abbrev start : Bytes
start = 0 ∷ 0 ∷ 0 ∷ 1 ∷ 5 ∷ 0 ∷ []

feed-append_example : feed (fresh 16) (start ++ start) ≡ (
  join ((5 ∷ []) ∷ []) (feed (feed (fresh 16) start).1 start).0,
  (feed (feed (fresh 16) start).1 start).1,
)
unfolding feed rounds round unpack_be32
feed-append_example = feed-append (fresh 16) start start refl

feed-IsWaiting_test : IsWaiting (feed (fresh 16) start).1
unfolding feed rounds round unpack_be32
feed-IsWaiting_test = feed-IsWaiting (fresh 16) start refl

-- A header that announces more than the limit.
abbrev huge : Bytes
huge = 1 ∷ 0 ∷ 0 ∷ 0 ∷ []

feed-append_raise_test : (feed (fresh 16) (huge ++ start)).0 ≡ raise frame_decode_error
unfolding feed rounds round unpack_be32
feed-append_raise_test = feed-append_raise (fresh 16) huge start refl

feed_all-flatten_test : feed_all (fresh 16) chunks ≡ feed (fresh 16) (flatten chunks)
unfolding feed rounds round unpack_be32
feed_all-flatten_test = feed_all-flatten (fresh 16) chunks refl refl

-- A callback that keeps the first bytes of the payloads, and raises; an empty payload does not decode.
abbrev first_byte : Bytes → Result ℕ
first_byte [] = raise frame_decode_error
first_byte (b ∷ bs) = ok b

abbrev note : ℕ → List ℕ → Option Exception × List ℕ
note b seen = (some value_error, b ∷ seen)

handle_client-deliver_example :
    handle_client first_byte note 16 (readings_of chunks) [] ≡ deliver first_byte note payloads []
unfolding stream encode_frame
handle_client-deliver_example =
    handle_client-deliver first_byte note 16 payloads chunks [] refl (omega arith)
      ((0, 0 ∷ [], refl), ((0, 2 ∷ 7 ∷ [], refl), ((8, 0 ∷ 0 ∷ 0 ∷ 1 ∷ 9 ∷ [], refl), tt)))
      ((λ x h. cc), ((λ x h. cc), tt))

deliver_test : deliver first_byte note ((7 ∷ 8 ∷ []) ∷ [] ∷ (9 ∷ []) ∷ []) [] ≡ 9 ∷ 7 ∷ []
unfolding deliver
deliver_test = refl

-- A server that stops reads no more.
stopped_test : handle_client first_byte note 16 ((false, chunk start) ∷ []) [] ≡ []
unfolding handle_client serve
stopped_test = refl
