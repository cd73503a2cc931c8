-- ===== src/Server/Framer/Roundtrip.antt =====
-- interceptor/egress/framing.py and core/server/framer.py: from the encoder to the decoder.
use ctxins.Base.{
  ℕ, zero, suc, ◌+◌, ◌≤◌, ◌<◌, ◌≡◌, refl, sym, ap, ◌∙◌, drop-drop, >>=-Returns, List, [], ◌∷◌, ◌++◌,
  append_assoc, arith, length, length-append, drop, take-append_length, drop-append_length, All,
  flatten, Result, ok, ◌>>=◌,
}
use ctxins.Egress.RingBuffer.{Bytes}
use ctxins.Egress.Framing.{
  max_payload_size, pack_be32, encode_frame, encode_frame-ok, unpack-pack, length-pack,
}
use ctxins.Server.Framer
use ctxins.Server.Framer.{FrameDecoder, fresh, cut, need_more, round, rounds, prepend, feed}
use ctxins.Server.Framer.Fuel.{round-shrinks, rounds-cut, rounds-need_more}
use ctxins.Server.Framer.Chunks.{feed_all, feed_all-flatten}

-- The bytes that a writer of several payloads sends: their frames, one after the other.
unfoldable pub stream : List Bytes → Result Bytes
stream [] = ok []
stream (payload ∷ payloads) = do
  frame ← encode_frame payload
  rest ← stream payloads
  ok (frame ++ rest)

drop-header : (n m : ℕ) (xs : Bytes) → drop (4 + n) (pack_be32 m ++ xs) ≡ drop n xs
unfolding pack_be32
drop-header n m xs = sym (drop-drop n 4 (pack_be32 m ++ xs))

drop-header_only : (m : ℕ) (xs : Bytes) → drop 4 (pack_be32 m ++ xs) ≡ xs
unfolding pack_be32
drop-header_only m xs = refl

-- A payload that fits is cut off the front of the buffer, whatever follows.
round-frame :
    (m : ℕ) (payload more : Bytes)
    → length payload ≤ m
    → length payload ≤ max_payload_size
    → round m (pack_be32 (length payload) ++ (payload ++ more)) ≡ cut payload more
unfolding round
round-frame m payload more h k = ground (
  arith,
  unpack-pack (length payload) (payload ++ more) k,
  length-append (pack_be32 (length payload)) (payload ++ more),
  length-pack (length payload),
  length-append payload more,
  drop-header_only (length payload) (payload ++ more),
  drop-header (length payload) (length payload) (payload ++ more),
  take-append_length payload more,
  drop-append_length payload more,
)

-- The interceptor's and the core's encoders are the same function.
pub encode_frame_same : (payload : Bytes) → Framer.encode_frame payload ≡ encode_frame payload
unfolding encode_frame Framer.encode_frame
encode_frame_same payload = refl

-- The payloads that the decoder accepts.
abbrev pub Fits : ℕ → List Bytes → Type 0
Fits m = All (λ payload. length payload ≤ m)

stream-cons :
    (payload : Bytes) (payloads : List Bytes) {s : Bytes}
    → stream (payload ∷ payloads) ≡ ok s
    → (rest : Bytes) × (stream payloads ≡ ok rest)
      × (s ≡ pack_be32 (length payload) ++ (payload ++ rest))
      × (length payload ≤ max_payload_size)
unfolding stream
stream-cons payload payloads {s} h =
    let one = >>=-Returns (encode_frame payload) _ h in
    let more = >>=-Returns (stream payloads) _ one.then_ok in
    let (shape, small) = encode_frame-ok payload one.value one.first_ok in
    (
      more.value,
      more.first_ok,
      cc (more.then_ok, shape, append_assoc (pack_be32 (length payload)) payload more.value),
      small,
    )

stream-nil : {s : Bytes} → stream [] ≡ ok s → s ≡ []
unfolding stream
stream-nil h = cc

pub round-nil : (m : ℕ) → round m [] ≡ need_more
unfolding round
round-nil m = refl

rounds-stream :
    (m f : ℕ) (payloads : List Bytes) {s : Bytes}
    → stream payloads ≡ ok s
    → Fits m payloads
    → length s < f
    → rounds f m s ≡ (ok payloads, [])
rounds-stream m zero payloads h fits k = elim k [ ]
rounds-stream m (suc f) [] h fits k = rw (stream-nil h) (rounds-need_more f m [] (round-nil m))
rounds-stream m (suc f) (payload ∷ payloads) {s} h fits k =
    let (rest, streamed, shape, small) = stream-cons payload payloads h in
    let cuts_it : round m s ≡ cut payload rest =
      rw shape (round-frame m payload rest fits.0 small) in
    let fewer = round-shrinks m s cuts_it in
    rw (
      rounds-cut f m s payload rest cuts_it,
      rounds-stream m f payloads streamed fits.1 (omega arith),
    )

-- A stream of frames, each within the decoder's limit, decodes to the payloads that were encoded, in
-- order, and leaves nothing in the buffer.
pub feed-stream :
    (m : ℕ) (payloads : List Bytes) (s : Bytes)
    → stream payloads ≡ ok s
    → Fits m payloads
    → feed (fresh m) s ≡ (ok payloads, fresh m)
unfolding feed
feed-stream m payloads s h fits =
    rw (rounds-stream m (suc (length s)) payloads h fits (omega arith))

-- The round trip of the transport: the frames of any payloads within the decoder's limit, sent as one
-- stream that arrives in chunks of any sizes, decode to those payloads, in order, with nothing left.
pub feed_all-stream :
    (m : ℕ) (payloads : List Bytes) (chunks : List Bytes)
    → stream payloads ≡ ok (flatten chunks)
    → Fits m payloads
    → feed_all (fresh m) chunks ≡ (ok payloads, fresh m)
feed_all-stream m payloads chunks h fits =
    let whole = feed-stream m payloads (flatten chunks) h fits in
    feed_all-flatten (fresh m) chunks (round-nil m) (ap (λ r. r.0) whole) ∙ whole
