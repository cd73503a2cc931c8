-- ===== src/Server/Framer.antt =====
-- core/server/framer.py: the frame encoder of the server's side, and `FrameDecoder`, which cuts a
-- stream of bytes that arrives in chunks into frames. The proofs are in the modules below.
pub mod Fuel
pub mod Chunks
pub mod Roundtrip
use ctxins.Base.{
  ℕ, zero, suc, ◌+◌, ◌*◌, ◌^◌, ◌-◌, Bool, List, [], ◌∷◌, ◌++◌, length, take, drop, ltb, ◌==◌,
  is_nil, if◌then◌else◌, Result, ok, raise, value_error, frame_decode_error,
}
use ctxins.Egress.RingBuffer.{Bytes}
use ctxins.Egress.Framing.{pack_be32, unpack_be32}

-- 64 MiB
abbrev pub default_max_frame_size : ℕ
default_max_frame_size = 64 * 1024 * 1024

unfoldable pub encode_frame : Bytes → Result Bytes
unfolding pack_be32
encode_frame payload =
    let size = length payload in
    if ltb (2 ^ 32 - 1) size then raise value_error else ok (pack_be32 size ++ payload)

pub record FrameDecoder : Type 0 where
  pub max_frame_size : ℕ
  pub buffer : Bytes

-- `FrameDecoder(max_frame_size)`
abbrev pub fresh : ℕ → FrameDecoder
fresh max_frame_size = record { max_frame_size = max_frame_size; buffer = [] }

unfoldable pub buffer_size : FrameDecoder → ℕ
buffer_size d = length d.buffer

unfoldable pub is_empty : FrameDecoder → Bool
is_empty d = length d.buffer == 0

unfoldable pub clear : FrameDecoder → FrameDecoder
clear d = record d { buffer = [] }

-- One round of the loop in `feed`: stop, raise, or cut one frame off the buffer.
pub data Round : Type 0 where
  need_more : Round
  oversized : ℕ → Round
  cut : Bytes → Bytes → Round

unfoldable pub round : ℕ → Bytes → Round
unfolding unpack_be32
round max_frame_size buf =
    if ltb (length buf) 4
    then need_more
    else let payload_len = unpack_be32 buf in
      let total_len = 4 + payload_len in
      if ltb max_frame_size payload_len
      then oversized payload_len
      else if ltb (length buf) total_len
      then need_more
      else cut (take payload_len (drop 4 buf)) (drop total_len buf)

abbrev pub prepend : Bytes → Result (List Bytes) → Result (List Bytes)
prepend frame (ok frames) = ok (frame ∷ frames)
prepend frame (raise x) = raise x

-- The loop, on fuel: each round that goes on takes four bytes or more off the buffer. When it raises,
-- the frames cut in earlier rounds are gone from the buffer, and are not returned.
unfoldable pub rounds : ℕ → ℕ → Bytes → Result (List Bytes) × Bytes
rounds zero max_frame_size buf = (ok [], buf)
rounds (suc fuel) max_frame_size buf = elim (round max_frame_size buf) [
  | need_more ↦ (ok [], buf)
  | oversized n ↦ (raise frame_decode_error, buf)
  | cut frame rest ↦
      let (frames, left) = rounds fuel max_frame_size rest in (prepend frame frames, left)
]

-- `feed`: extending by an empty chunk changes nothing, so that the code's test on it is left out
unfoldable pub feed : FrameDecoder → Bytes → Result (List Bytes) × FrameDecoder
feed d chunk =
    let buf = d.buffer ++ chunk in
    let (frames, left) = rounds (suc (length buf)) d.max_frame_size buf in
    (frames, record d { buffer = left })
